-- ===== src/Auth/Tests.antt =====
-- The theorems on access at concrete requests, over toy JWT packages that meet the assumptions.
use ruseon_core.Common.{
  ◌+◌, ap, sym, zero, ℕ, suc, ◌≡◌, ◌≢◌, refl, Bool, true, false, ◌↔◌, Option, none, some, [], ◌∷◌,
  ◌++◌, arith,
}
use ruseon_core.Common.Bytes.{Bytes, codes}
use ruseon_core.Auth.{
  User, Claims, ClaimValue, str, Method, hmac, Jwt, aborts, next, next_as, NotBefore, Unexpired,
  middleware, stream_middleware, generate_stream_token, login, bootstrap, role_admin,
}
use ruseon_core.Auth.Tokens.{generate_stream_token-scope, login_lem}
use ruseon_core.Auth.Password.{Created, bootstrap_iff}

-- A toy package that signs the two kinds of claims that the code makes: a tag, then the parts. It can
-- sign only names of one byte, and it does not check times.
encode_parts :
    Option ClaimValue
    → Option ClaimValue
    → Option ClaimValue
    → Option ℕ
    → Option ℕ
    → Option ℕ
    → Option Bytes
encode_parts none none (some (str s)) (some i) (some n) (some e) = some (1 ∷ i ∷ n ∷ e ∷ s)
encode_parts (some (str (b ∷ []))) (some (str r)) none none none (some e) = some (0 ∷ e ∷ b ∷ r)
encode_parts _ _ _ _ _ _ = none

decode : Bytes → Option Claims
decode (zero ∷ e ∷ b ∷ r) = some (record {
  username = some (str (b ∷ []));
  role = some (str r);
  stream_id = none;
  iat = none;
  nbf = none;
  exp = some e;
})
decode (suc k ∷ i ∷ n ∷ e ∷ s) = some (record {
  username = none;
  role = none;
  stream_id = some (str s);
  iat = some i;
  nbf = some n;
  exp = some e;
})
decode _ = none

abbrev decode_some : Option Bytes → Option Claims
decode_some none = none
decode_some (some t) = decode t

with_key : Option Bytes → Option Claims → Option Claims
with_key none c = none
with_key (some k) c = c

encode : Claims → Option Bytes
unfolding encode_parts
encode c = encode_parts c.username c.role c.stream_id c.iat c.nbf c.exp

decode-encode :
    (u r s : Option ClaimValue) (i n e : Option ℕ) (token : Bytes)
    → encode_parts u r s i n e ≡ some token
    → decode token
      ≡ some (record { username = u; role = r; stream_id = s; iat = i; nbf = n; exp = e })
unfolding encode_parts decode
decode-encode none none (some (str s)) (some i) (some n) (some e) token h = ap decode_some (sym h)
decode-encode (some (str (b ∷ []))) (some (str r)) none none none (some e) token h =
    ap decode_some (sym h)
decode-encode _ _ _ _ _ _ token h = cc

toy_method :
    (key : Method → Option Bytes) (now : ℕ) (token : Bytes) (c : Claims)
    → with_key (key hmac) (decode token) ≡ some c
    → key hmac ≢ none
unfolding with_key
toy_method key now token c h e = ground arith

toy_key :
    (key key' : Method → Option Bytes) (now : ℕ) (token : Bytes)
    → key hmac ≡ key' hmac
    → with_key (key hmac) (decode token) ≡ with_key (key' hmac) (decode token)
toy_key key key' now token e = ap (λ k. with_key k (decode token)) e

toy_sign :
    (key : Method → Option Bytes) (secret : Bytes) (now : ℕ) (token : Bytes) (c : Claims)
    → encode c ≡ some token
    → key hmac ≡ some secret
    → NotBefore now c.nbf
    → Unexpired now c.exp
    → with_key (key hmac) (decode token) ≡ some c
unfolding encode with_key
toy_sign key secret now token c h k lo hi =
    ground (arith, k, decode-encode c.username c.role c.stream_id c.iat c.nbf c.exp token h)

abbrev toy : Jwt
toy = record {
  method = λ _. hmac;
  parse = λ key now token. with_key (key hmac) (decode token);
  sign = λ secret c. encode c;
  parse_method = toy_method;
  parse_key = toy_key;
  parse-sign = toy_sign;
}

abbrev admin_user : User
admin_user = record { username = b'a' ∷ []; password_hash = 9 ∷ []; role = role_admin }

abbrev users : Bytes → Option User
users name = some admin_user

abbrev cam : Bytes
cam = codes "cam1"

abbrev stream_token : Bytes
stream_token = 1 ∷ 100 ∷ 100 ∷ 160 ∷ cam

generate_stream_token-scope_example :
    ((stream_middleware toy (7 ∷ []) 130 stream_token (codes "cam2") ≡ next) ↔ (cam ≡ codes "cam2"))
    × (middleware toy (7 ∷ []) (some users) 130 (codes "Bearer " ++ stream_token) ≡ aborts 401)
unfolding generate_stream_token encode
generate_stream_token-scope_example =
    generate_stream_token-scope toy (7 ∷ []) 100 130 cam (codes "cam2") stream_token (some users)
      refl (λ e. cc) (omega arith) (omega arith)

abbrev api_token : Bytes
api_token = 0 ∷ 3700 ∷ b'a' ∷ role_admin

login_lem_example :
    (u : User) × (users (b'a' ∷ []) ≡ some u)
    × (true ≡ true)
    × ((c : Claims) × (toy.parse (λ _. some (7 ∷ [])) 130 api_token ≡ some c)
        × (c.username ≡ some (str u.username))
        × (c.role ≡ some (str u.role))
        × (c.stream_id ≡ none)
        × (c.exp ≡ some (100 + 3600)))
    × ((middleware toy (7 ∷ []) (some users) 130 (codes "Bearer " ++ api_token)
          ≡ next_as u.username u.role)
        ↔ ((v : User) × (users u.username ≡ some v) × (v.role ≡ u.role)))
    × (stream_middleware toy (7 ∷ []) 130 api_token cam ≡ aborts 401)
unfolding login encode
login_lem_example =
    login_lem toy (7 ∷ []) users users (λ h p. true) 100 130 (b'a' ∷ []) (1 ∷ []) api_token cam refl
      (λ e. cc) (omega arith)

-- A store that only knows whether it has a user.
abbrev asks_store : Bool → Option Bool
asks_store s = some s

abbrev saves : User → Bool → Bool × Bool
saves u s = (true, true)

abbrev keeps : Bytes → Option Bytes
keeps p = some p

bootstrap_iff_example :
    (bootstrap asks_store saves keeps (0 ∷ []) (some false)
      ≡ (some true, some (codes "admin", b'a' ∷ [])))
    ↔ Created asks_store saves keeps (0 ∷ []) false true (codes "admin") (b'a' ∷ [])
bootstrap_iff_example =
    bootstrap_iff asks_store saves keeps (0 ∷ []) false true (codes "admin") (b'a' ∷ [])
