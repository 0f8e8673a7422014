-- ===== src/Auth/Access.antt =====
-- Who gets through the middlewares.
use ruseon_core.Common.{ℕ, ◌≡◌, ◌≢◌, refl, ◌↔◌, Option, none, some, List, [], ◌∷◌, arith}
use ruseon_core.Common.Bytes.{Bytes, bytes_discrete}
use ruseon_core.Auth.{User, Claims, ClaimValue, Jwt, hmac, str, other, aborts, next, require_role}

-- A claim is a string, or counts as the empty one.
abbrev pub Says : Option ClaimValue → Bytes → Type 0
Says (some (str s)) name = s ≡ name
Says (some other) name = name ≡ []
Says none name = name ≡ []

-- What lets a request in as a user with a role: a token whose method is HMAC, which verifies with the
-- secret and is valid now, which is no stream token, for a user that still exists and still has the role in the
-- token.
pub record Authorised (jwt : Jwt) (secret : Bytes) (get_user : Bytes → Option User) (now : ℕ)
    (token : Bytes) (c : Claims) (username role : Bytes) : Type 0 where
  pub token_given : token ≢ []
  pub by_hmac : jwt.method token ≡ hmac
  pub signed : jwt.parse (λ _. some secret) now token ≡ some c
  pub no_stream : c.stream_id ≡ none
  pub named : Says c.username username
  pub claimed : Says c.role role
  pub exists : (u : User) × (get_user username ≡ some u) × (u.role ≡ role)

-- The role is on the list.
pub data OneOf (role : Bytes) : List Bytes → Type 0 where
  here : {r : Bytes} {rs : List Bytes} → role ≡ r → OneOf role (r ∷ rs)
  there : {r : Bytes} {rs : List Bytes} → OneOf role rs → OneOf role (r ∷ rs)

role_sound :
    (allowed : List Bytes) (role : Bytes)
    → require_role allowed (some role) ≡ next
    → OneOf role allowed
unfolding require_role
role_sound [] role h = cc
role_sound (r ∷ rs) role h = elim (bytes_discrete role r) [
  | yes e ↦ here e
  | no d ↦ there (role_sound rs role (ground arith))
]

role_complete :
    (role : Bytes) {allowed : List Bytes}
    → OneOf role allowed
    → require_role allowed (some role) ≡ next
unfolding require_role
role_complete role (here e) = ground arith
role_complete role (there o) = ground (arith, role_complete role o)

-- A request with a role passes `RequireRole` exactly if its role is one of the allowed ones; a request
-- with none never does.
pub require_role_iff :
    (allowed : List Bytes) (role : Bytes)
    → ((require_role allowed (some role) ≡ next) ↔ OneOf role allowed)
      × (require_role allowed none ≡ aborts 403)
unfolding require_role
require_role_iff allowed role = ((role_sound allowed role, role_complete role), refl)
