-- ===== src/Auth/Password.antt =====
-- The first administrator and its password.
use native.Mathlib.Nat.{mod-lt}
use mathlib.Core.Option.{some-injective, none-ne-some}
use ruseon_core.Common.{
  ℕ, zero, suc, ◌%◌, ◌<◌, ◌≡◌, refl, sym, ap, ◌∙◌, Bool, true, false, Option, none, some, List, [],
  ◌∷◌, length, get_or, get_elem?, arith, inl, inr, Option-cases, ◌↔◌, subst, not, Bool-cases,
  if◌then◌else◌,
}
use ruseon_core.Common.Bytes.{Bytes, codes}
use ruseon_core.Auth.{User, charset, generate_random_password, create_admin, bootstrap}

-- Each character of the password is the one of the charset at the random byte, modulo the charset's 70.
abbrev pub Drawn : Bytes → Bytes → Type 0
Drawn [] [] = Unit {0}
Drawn [] (c ∷ cs) = ⊥
Drawn (b ∷ bs) [] = ⊥
Drawn (b ∷ bs) (c ∷ cs) = (get_elem? charset (b % 70) ≡ some c) × Drawn bs cs

get_elem?-get_or : (xs : List ℕ) (i : ℕ) → i < length xs → get_elem? xs i ≡ some (get_or xs i 0)
get_elem?-get_or [] i h = absurd (omega arith)
get_elem?-get_or (x ∷ xs) zero h = refl
get_elem?-get_or (x ∷ xs) (suc i) h = get_elem?-get_or xs i (omega arith)

generate_random_password-Drawn : (random : Bytes) → Drawn random (generate_random_password random)
unfolding generate_random_password
generate_random_password-Drawn [] = tt
generate_random_password-Drawn (b ∷ bs) =
    (get_elem?-get_or charset (b % 70) (mod-lt b (omega arith)), generate_random_password-Drawn bs)

Drawn-unique :
    (random password : Bytes) → Drawn random password → generate_random_password random ≡ password
unfolding generate_random_password
Drawn-unique [] [] d = refl
Drawn-unique [] (c ∷ cs) d = absurd d
Drawn-unique (b ∷ bs) [] d = absurd d
Drawn-unique (b ∷ bs) (c ∷ cs) (e, d) =
    let same : get_or charset (b % 70) 0 ≡ c =
      some-injective (get_or charset (b % 70) 0) c
        (sym (get_elem?-get_or charset (b % 70) (mod-lt b (omega arith))) ∙ e) in
    (λ i. same i ∷ Drawn-unique bs cs d i)

-- The record that is saved.
abbrev pub admin_with : Bytes → User
admin_with h = record { username = codes "admin"; password_hash = h; role = codes "admin" }

asks : Option Bool → Bool
asks none = false
asks (some b) = not b

asks-true : (o : Option Bool) → asks o ≡ true → o ≡ some false
unfolding asks
asks-true none h = cc
asks-true (some true) h = cc
asks-true (some false) h = refl

or_else : {A : Type 0} → A → Option A → A
or_else a none = a
or_else a (some x) = x

module _ {S : Type 0} (has_users : S → Option Bool) (save_user : User → S → S × Bool)
    (hash : Bytes → Option Bytes) where
  -- The account was made: the store had no users, the password is drawn from the random bytes, and the
  -- administrator with its hash was saved.
  abbrev pub Created : Bytes → S → S → Bytes → Bytes → Type 0
  Created random store store' name password =
      (has_users store ≡ some false)
      × Drawn random password
      × (name ≡ codes "admin")
      × ((h : Bytes) × (hash password ≡ some h) × (save_user (admin_with h) store ≡ (store', true)))

  abbrev IsSaved : S → S → Bytes → Type 0
  IsSaved store store' password =
      (h : Bytes) × (hash password ≡ some h) × (save_user (admin_with h) store ≡ (store', true))

  abbrev answer : Bytes → S × Bool → S × Option (Bytes × Bytes)
  answer password r = (r.0, if r.1 then some (codes "admin", password) else none)

  shown_iff :
      (r : S × Bool) (store' : S) (password name shown : Bytes)
      → (answer password r ≡ (store', some (name, shown)))
        ↔ ((password ≡ shown) × (name ≡ codes "admin") × (r ≡ (store', true)))
  shown_iff (s, true) store' password name shown = (
    λ h.
        let pair = some-injective (codes "admin", password) (name, shown) (ap (λ r. r.1) h) in
        (ap (λ p. p.1) pair, sym (ap (λ p. p.0) pair), λ i. ((h i).0, true)),
    λ (p, n, r) i. ((r i).0, some (sym n i, p i)),
  )
  shown_iff (s, false) store' password name shown =
      (λ h. absurd (none-ne-some (name, shown) (ap (λ r. r.1) h)), λ (p, n, r). cc)

  create_admin-hashed :
      (password : Bytes) (store : S) (h : Bytes)
      → hash password ≡ some h
      → create_admin has_users save_user hash password store
        ≡ answer password (save_user (admin_with h) store)
  unfolding create_admin
  create_admin-hashed password store h e = rw (e, create_admin) refl

  create_admin_iff :
      (password : Bytes) (store store' : S) (name shown : Bytes)
      → (create_admin has_users save_user hash password store ≡ (store', some (name, shown))) ↔ (
          (password ≡ shown)
          × (name ≡ codes "admin")
          × ((h : Bytes) × (hash password ≡ some h)
              × (save_user (admin_with h) store ≡ (store', true))))
  unfolding create_admin
  create_admin_iff password store store' name shown = elim (Option-cases (hash password)) [
    | inl e ↦ (
      λ m. absurd (none-ne-some (name, shown) (sym (ap (λ r. r.1) (unhashed e)) ∙ ap (λ r. r.1) m)),
      λ (p, n, (h, e', w)). absurd (none-ne-some h (sym e ∙ e')),
    )
    | inr (h, e) ↦
        let (there, back) = shown_iff (save_user (admin_with h) store) store' password name shown in
        (
          λ m.
              let (p, n, w) = there (sym (create_admin-hashed password store h e) ∙ m) in
              (p, n, (h, e, w)),
          λ (p, n, (h', e', w)).
              create_admin-hashed password store h e
              ∙ back (
                p,
                n,
                ap (λ k. save_user (admin_with k) store) (some-injective h h' (sym e ∙ e')) ∙ w,
              ),
        )
  ]
    where
      unhashed :
          hash password ≡ none
          → create_admin has_users save_user hash password store ≡ (store, none)
      unhashed e = rw (e, create_admin) refl

  -- On a state store, a start-up ends with a store and prints a name and a password exactly if
  -- the store could be asked and has no users, the name is that of the administrator, each
  -- character of the password is drawn from the charset by a random byte, the password could be
  -- hashed, and saving an administrator with that hash succeeded and led to that store.
  pub bootstrap_iff :
      (random : Bytes) (store store' : S) (name password : Bytes)
      → (bootstrap has_users save_user hash random (some store)
          ≡ (some store', some (name, password)))
        ↔ Created random store store' name password
  unfolding bootstrap asks or_else
  bootstrap_iff random store store' name password = elim (Bool-cases (asks (has_users store))) [
    | inl t ↦
        let e = asks-true (has_users store) t in
        let (there, back) =
          create_admin_iff (generate_random_password random) store store' name password in
        (
          λ m.
              let (p, n, w) = there (λ i.
                (or_else store (ap (λ r. r.0) (sym (asked e) ∙ m) i), ((sym (asked e) ∙ m) i).1)) in
              (
                e,
                subst (Drawn random) p (generate_random_password-Drawn random),
                n,
                subst (IsSaved store store') p w,
              ),
          λ (e', d, n, w).
              let p = Drawn-unique random password d in
              asked e
              ∙ ap (λ r. (some (r.0), r.1)) (back (p, n, subst (IsSaved store store') (sym p) w)),
        )
    | inr f ↦ (
      λ m. absurd (none-ne-some (name, password) (sym (quiet f) ∙ ap (λ r. r.1) m)),
      λ c. cc (f, ap asks c.0),
    )
  ]
    where
      asked :
          has_users store ≡ some false
          → bootstrap has_users save_user hash random (some store) ≡ (
              let r =
                create_admin has_users save_user hash (generate_random_password random) store in
              (some (r.0), r.1))
      asked e = rw (e, bootstrap) refl

      quiet :
          asks (has_users store) ≡ false
          → (bootstrap has_users save_user hash random (some store)).1 ≡ none
      quiet f = ground (arith, f)
