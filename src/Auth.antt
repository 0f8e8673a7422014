-- ===== src/Auth.antt =====
-- pkg/auth/local.go and internal/models/user.go: login, the two middlewares, roles, stream tokens.
-- The JWT and bcrypt packages, the random source and the clock are arguments. Strings are lists of bytes.
pub mod Tokens
pub mod Access
pub mod Password
mod Tests
use ruseon_core.Common.{
  ℕ, zero, suc, ◌+◌, ◌%◌, ◌≤◌, ◌<◌, ◌≡◌, ◌≢◌, Bool, true, false, Option, none, some, List, [], ◌∷◌,
  ◌++◌, if◌then◌else◌, length, get_or,
}
use ruseon_core.Common.Bytes.{Bytes, bytes_discrete, bytes_eq, codes, strip_prefix}

-- `models.User`. A role is a string.
pub record User : Type 0 where
  pub username : Bytes
  pub password_hash : Bytes
  pub role : Bytes

abbrev pub role_admin : Bytes
role_admin = codes "admin"

-- A claim is a string, or something else.
pub data ClaimValue : Type 0 where
  str : Bytes → ClaimValue
  other : ClaimValue

-- The claims that the code writes and reads.
pub record Claims : Type 0 where
  pub username : Option ClaimValue
  pub role : Option ClaimValue
  pub stream_id : Option ClaimValue
  pub iat : Option ℕ
  pub nbf : Option ℕ
  pub exp : Option ℕ

pub data Method : Type 0 where
  hmac : Method
  not_hmac : Method

-- The claims hold at a time: the checks of `jwt.Parse` on `nbf` and `exp`.
abbrev pub NotBefore : ℕ → Option ℕ → Type 0
NotBefore now none = Unit {0}
NotBefore now (some t) = t ≤ now

abbrev pub Unexpired : ℕ → Option ℕ → Type 0
Unexpired now none = Unit {0}
Unexpired now (some t) = now < t

-- The JWT package: a token is parsed at a time with the function that finds the key for its signing
-- method, and signed by HS256. A parsed token has a method for which there was a key; the outcome depends on
-- that function only by the key for the token's method; and a token signed with a key parses with it to
-- its claims, as long as they hold.
pub record Jwt : Type 1 where
  pub method : Bytes → Method
  pub parse : (Method → Option Bytes) → ℕ → Bytes → Option Claims
  pub sign : Bytes → Claims → Option Bytes
  pub parse_method :
      (key : Method → Option Bytes) (now : ℕ) (token : Bytes) (c : Claims)
      → parse key now token ≡ some c
      → key (method token) ≢ none
  pub parse_key :
      (key key' : Method → Option Bytes) (now : ℕ) (token : Bytes)
      → key (method token) ≡ key' (method token)
      → parse key now token ≡ parse key' now token
  pub parse-sign :
      (key : Method → Option Bytes) (secret : Bytes) (now : ℕ) (token : Bytes) (c : Claims)
      → sign secret c ≡ some token
      → key hmac ≡ some secret
      → NotBefore now c.nbf
      → Unexpired now c.exp
      → parse key now token ≡ some c

-- What a handler does: it aborts with a status, goes on to the next handler with the `username` and
-- `role` that it set, or answers.
pub data Reply : Type 0 where
  aborts : ℕ → Reply
  next : Reply
  next_as : Bytes → Bytes → Reply
  answers : Bytes → Reply

-- `v, _ := x.(string)`
abbrev pub string_or_empty : Option ClaimValue → Bytes
string_or_empty none = []
string_or_empty (some (str s)) = s
string_or_empty (some other) = []

-- The function that both middlewares hand to `jwt.Parse`.
pub key_for : Bytes → Method → Option Bytes
key_for secret hmac = some secret
key_for secret not_hmac = none

-- `GetUser` of the state store, `none` on an error or a nil user; the store itself may be nil.
abbrev pub Store : Type 0
Store = Option (Bytes → Option User)

check_user : Option User → Bytes → Bytes → Reply
check_user none username role = aborts 401
check_user (some u) username role =
    if bytes_eq u.role role then next_as username role else aborts 401

check_revoked : Store → Bytes → Bytes → Reply
unfolding check_user
check_revoked none username role = next_as username role
check_revoked (some get_user) username role = check_user (get_user username) username role

check_claims : Store → Claims → Reply
unfolding check_revoked
check_claims store c = elim c.stream_id [
  | some _ ↦ aborts 401
  | none ↦ check_revoked store (string_or_empty c.username) (string_or_empty c.role)
]

check_stream_claims : Bytes → Claims → Reply
check_stream_claims requested c = elim c.stream_id [
  | none ↦ aborts 401
  | some other ↦ aborts 401
  | some (str id) ↦ if bytes_eq id requested then next else aborts 401
]

module _ (jwt : Jwt) (secret : Bytes) where
  open jwt use {parse, sign}

  bearer : Store → ℕ → Bytes → Reply
  unfolding key_for check_claims
  bearer store now [] = aborts 401
  bearer store now (t ∷ ts) = elim (parse (key_for secret) now (t ∷ ts)) [
    | none ↦ aborts 401
    | some c ↦ check_claims store c
  ]

  -- `Middleware`, on the header `Authorization` (empty if there is none).
  pub middleware : Store → ℕ → Bytes → Reply
  unfolding bearer
  middleware store now header = elim (strip_prefix (codes "Bearer ") header) [
    | none ↦ aborts 401
    | some token ↦ bearer store now token
  ]

  -- `StreamMiddleware`, on the query parameter `token` and the path parameter `id`.
  pub stream_middleware : ℕ → Bytes → Bytes → Reply
  unfolding key_for check_stream_claims
  stream_middleware now [] requested = aborts 401
  stream_middleware now (t ∷ ts) requested = elim (parse (key_for secret) now (t ∷ ts)) [
    | none ↦ aborts 401
    | some c ↦ check_stream_claims requested c
  ]

  abbrev pub stream_claims : ℕ → Bytes → Claims
  stream_claims now camera_id = record {
    username = none;
    role = none;
    stream_id = some (str camera_id);
    iat = some now;
    nbf = some now;
    exp = some (now + 60);
  }

  pub generate_stream_token : ℕ → Bytes → Option Bytes
  generate_stream_token now camera_id = sign secret (stream_claims now camera_id)

  abbrev pub login_claims : ℕ → User → Claims
  login_claims now u = record {
    username = some (str u.username);
    role = some (str u.role);
    stream_id = none;
    iat = none;
    nbf = none;
    exp = some (now + 3600);
  }

  issue : ℕ → User → Reply
  issue now u = elim (sign secret (login_claims now u)) [ none ↦ aborts 500 | some t ↦ answers t ]

  -- `Login`: the body that was bound, or `none`; `matches` is bcrypt's comparison.
  pub login : (Bytes → Option User) → (Bytes → Bytes → Bool) → ℕ → Option (Bytes × Bytes) → Reply
  unfolding issue
  login get_user matches now none = aborts 400
  login get_user matches now (some ([], password)) = aborts 401
  login get_user matches now (some (c ∷ cs, password)) = elim (get_user (c ∷ cs)) [
    | none ↦ aborts 401
    | some u ↦ if matches u.password_hash password then issue now u else aborts 401
  ]

-- `RequireRole`, on the `role` in the request's context.
pub require_role : List Bytes → Option Bytes → Reply
require_role allowed none = aborts 403
require_role [] (some role) = aborts 403
require_role (r ∷ rs) (some role) = if bytes_eq role r then next else require_role rs (some role)

abbrev pub charset : Bytes
charset = codes "abcdefghijklmnopqrstuvwxyzABCDEFGHIJKLMNOPQRSTUVWXYZ0123456789!@#$%^&*"

-- The bytes are those of the random source, as many as the password has characters.
pub generate_random_password : Bytes → Bytes
generate_random_password [] = []
generate_random_password (b ∷ bs) =
    get_or charset (b % length charset) 0 ∷ generate_random_password bs

-- `NewLocalAuthenticator` on a store of some type with its `HasUsers` (`none` on an error) and its
-- `SaveUser` (the store after it, and whether it succeeded); `hash` is bcrypt's. The result is the store
-- afterwards and the credentials that it prints, if it does.
module _ {S : Type 0} (has_users : S → Option Bool) (save_user : User → S → S × Bool)
    (hash : Bytes → Option Bytes) where
  create_admin : Bytes → S → S × Option (Bytes × Bytes)
  create_admin password store = elim (hash password) [
    | none ↦ (store, none)
    | some h ↦
        let (store', saved) =
          save_user (record { username = codes "admin"; password_hash = h; role = role_admin })
            store in
        (store', if saved then some (codes "admin", password) else none)
  ]

  pub bootstrap : Bytes → Option S → Option S × Option (Bytes × Bytes)
  unfolding create_admin
  bootstrap random none = (none, none)
  bootstrap random (some store) = elim (has_users store) [
    | none ↦ (some store, none)
    | some true ↦ (some store, none)
    | some false ↦
        let (store', printed) = create_admin (generate_random_password random) store in
        (some store', printed)
  ]
