-- ===== src/Auth/Tokens.antt =====
-- API tokens and stream tokens are not interchangeable.
use ruseon_core.Common.{
  ℕ, ◌+◌, ◌≤◌, ◌<◌, ◌≡◌, ◌≢◌, refl, sym, subst, none, ◌∙◌, Bool, true, ◌↔◌, inl, inr, Option, some,
  [], ◌∷◌, ◌++◌, Option-cases, arith,
}
use ruseon_core.Common.Bytes.{Bytes, bytes_discrete, codes, strip_prefix-append}
use ruseon_core.Auth.{
  User, Claims, Jwt, aborts, next, answers, key_for, Store, check_claims, bearer, middleware,
  stream_middleware, check_stream_claims, generate_stream_token, stream_claims, login, login_claims,
  str, next_as, check_user, check_revoked, issue,
}

-- A user is there, with a role.
abbrev Present : Option User → Bytes → Type 0
Present o role = (v : User) × (o ≡ some v) × (v.role ≡ role)

module _ (jwt : Jwt) (secret : Bytes) where
  stream_middleware_claims :
      (now : ℕ) (token requested : Bytes) (c : Claims)
      → token ≢ []
      → jwt.parse (key_for secret) now token ≡ some c
      → stream_middleware jwt secret now token requested ≡ check_stream_claims requested c
  unfolding stream_middleware
  stream_middleware_claims now [] requested c t p = absurd (t refl)
  stream_middleware_claims now (b ∷ bs) requested c t p = rw (p, stream_middleware)

  bearer_claims :
      (store : Store) (now : ℕ) (token : Bytes) (c : Claims)
      → token ≢ []
      → jwt.parse (key_for secret) now token ≡ some c
      → bearer jwt secret store now token ≡ check_claims store c
  unfolding bearer
  bearer_claims store now [] c t p = absurd (t refl)
  bearer_claims store now (b ∷ bs) c t p = rw (p, bearer)

  middleware_claims :
      (store : Store) (now : ℕ) (token : Bytes) (c : Claims)
      → token ≢ []
      → jwt.parse (key_for secret) now token ≡ some c
      → middleware jwt secret store now (codes "Bearer " ++ token) ≡ check_claims store c
  unfolding middleware
  middleware_claims store now token c t p =
      rw (strip_prefix-append (codes "Bearer ") token, middleware)
        (bearer_claims store now token c t p)

  -- A stream token, within its 60 seconds, opens the stream of its camera and of no other camera, and
  -- never the API.
  pub generate_stream_token-scope :
      (issued now : ℕ) (camera requested token : Bytes) (store : Store)
      → generate_stream_token jwt secret issued camera ≡ some token
      → token ≢ []
      → issued ≤ now
      → now < issued + 60
      → ((stream_middleware jwt secret now token requested ≡ next) ↔ (camera ≡ requested))
        × (middleware jwt secret store now (codes "Bearer " ++ token) ≡ aborts 401)
  unfolding generate_stream_token check_stream_claims check_claims key_for
  generate_stream_token-scope issued now camera requested token store e t lo hi =
      let parsed =
        jwt.parse-sign (key_for secret) secret now token (stream_claims jwt secret issued camera) e
          refl lo hi in
      let seen =
        stream_middleware_claims now token requested (stream_claims jwt secret issued camera) t
          parsed in
      (
        elim (bytes_discrete camera requested) [
          | yes same ↦ (λ h. same, λ h. seen ∙ ground (arith, same))
          | no differ ↦ (λ h. ground (arith, sym seen ∙ h, differ), λ h. absurd (differ h))
        ],
        middleware_claims store now token _ t parsed,
      )

  login_inv :
      (get_user : Bytes → Option User) (matches : Bytes → Bytes → Bool) (now : ℕ)
      (name password token : Bytes)
      → login jwt secret get_user matches now (some (name, password)) ≡ answers token
      → (u : User) × (get_user name ≡ some u)
        × (matches u.password_hash password ≡ true)
        × (jwt.sign secret (login_claims jwt secret now u) ≡ some token)
  unfolding login issue
  login_inv get_user matches now [] password token h = cc
  login_inv get_user matches now (b ∷ bs) password token h =
      elim (Option-cases (get_user (b ∷ bs))) [
        | inl e ↦ ground arith
        | inr (u, e) ↦ (u, e, ground arith, ground arith)
      ]

  check_user_iff :
      (o : Option User) (name role : Bytes)
      → (check_user o name role ≡ next_as name role) ↔ ((v : User) × (o ≡ some v) × (v.role ≡ role))
  unfolding check_user
  check_user_iff none name role = (λ h. cc, λ (v, e, s). cc)
  check_user_iff (some v) name role = elim (bytes_discrete v.role role) [
    | yes same ↦ (λ h. (v, refl, same), λ w. ground (arith, same))
    | no other ↦ (λ h. ground arith, λ (w, e, s). ground arith)
  ]

  -- A login answers with a token only for a user of the given name whose stored hash matches
  -- the password. Until an hour has passed such a token, if it is not empty, verifies with the
  -- secret, to claims that carry that user's name and role, no stream, and the end of that
  -- hour; the API lets it in as that name and role exactly if the store then has a user of that
  -- name with that role; and it opens no stream.
  pub login_lem :
      (get_user later_user : Bytes → Option User) (matches : Bytes → Bytes → Bool) (now later : ℕ)
      (name password token requested : Bytes)
      → login jwt secret get_user matches now (some (name, password)) ≡ answers token
      → token ≢ []
      → later < now + 3600
      → (u : User) × (get_user name ≡ some u)
        × (matches u.password_hash password ≡ true)
        × ((c : Claims) × (jwt.parse (λ _. some secret) later token ≡ some c)
            × (c.username ≡ some (str u.username))
            × (c.role ≡ some (str u.role))
            × (c.stream_id ≡ none)
            × (c.exp ≡ some (now + 3600)))
        × ((middleware jwt secret (some later_user) later (codes "Bearer " ++ token)
              ≡ next_as u.username u.role)
            ↔ ((v : User) × (later_user u.username ≡ some v) × (v.role ≡ u.role)))
        × (stream_middleware jwt secret later token requested ≡ aborts 401)
  unfolding key_for check_stream_claims check_claims check_revoked
  login_lem get_user later_user matches now later name password token requested h t e =
      let (u, found, same, signed) = login_inv get_user matches now name password token h in
      let parsed =
        jwt.parse-sign (key_for secret) secret later token (login_claims jwt secret now u) signed
          refl tt e in
      (
        u,
        found,
        same,
        (
          login_claims jwt secret now u,
          jwt.parse-sign (λ _. some secret) secret later token (login_claims jwt secret now u)
              signed refl tt e,
          refl,
          refl,
          refl,
          refl,
        ),
        subst (λ r. (r ≡ next_as u.username u.role) ↔ Present (later_user u.username) u.role)
            (sym (middleware_claims (some later_user) later token _ t parsed))
            (check_user_iff (later_user u.username) u.username u.role),
        stream_middleware_claims later token requested (login_claims jwt secret now u) t parsed,
      )
