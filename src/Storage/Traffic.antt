-- ===== src/Storage/Traffic.antt =====
-- Charging traffic in chunks of 200.
use native.Mathlib.Numerals.{unary_clauses}
use ruseon_core.Common.{
  ℕ, zero, suc, ◌+◌, ◌≤◌, ◌≡◌, ◌⊎◌, inl, inr, refl, sym, ap, ◌∙◌, subst, Bool, true, false, Option,
  none, some, List, [], ◌∷◌, ◌++◌, arith, take, drop, length, length-drop,
}
use ruseon_core.Common.Bytes.{Bytes}
use ruseon_core.Storage.Backend.{Database, Codec}
use ruseon_core.Storage.{
  CameraConfig, Storage, Error, Result, ok, err, ◌>>=◌, update, charge, charge_all, batch_size,
  commit_chunks, first, others, fault, batch_update_traffic,
}

module _ (d : Database) (j : Codec d CameraConfig) (now_month : Bytes) where
  take-drop_add :
      {A : Type 0} (m k : ℕ) (xs : List A) → take (m + k) xs ≡ take m xs ++ take k (drop m xs)
  take-drop_add zero k xs = let e : zero + k ≡ k = omega arith in ap (λ n. take n xs) e
  take-drop_add (suc m) zero [] = simp unary_clauses refl
  take-drop_add (suc m) (suc k) [] = simp unary_clauses refl
  take-drop_add (suc m) k (x ∷ xs) =
      let e : suc m + k ≡ suc (m + k) = omega arith in
      ap (λ n. take n (x ∷ xs)) e ∙ ap (◌∷◌ x) (take-drop_add m k xs)

  bind_each :
      (r : Result d.Db) (f g h : d.Db → Result d.Db)
      → ((db : d.Db) → f db ≡ (g db >>= h))
      → (r >>= f) ≡ ((r >>= g) >>= h)
  bind_each (ok db) f g h e = e db
  bind_each (err x) f g h e = refl

  charge_all-append :
      (xs ys : List (Bytes × ℕ)) (db : d.Db)
      → charge_all d j now_month (xs ++ ys) db
        ≡ (charge_all d j now_month xs db >>= charge_all d j now_month ys)
  unfolding charge_all
  charge_all-append [] ys db = refl
  charge_all-append (x ∷ xs) ys db =
      bind_each (charge d j now_month x db) _ _ (charge_all d j now_month ys)
        (charge_all-append xs ys)

  -- The database is as if the first k entries had been charged, and k is all of them if there was no error.
  pub IsPrefixOf : List (Bytes × ℕ) → d.Db → d.Db × Option Error → Type 0
  IsPrefixOf entries db (db', error) =
      (k : ℕ) × (charge_all d j now_month (take k entries) db ≡ ok db')
      × (((error ≡ none) × (length entries ≤ k)) ⊎ ((e : Error) × (error ≡ some e)))

  update_cases :
      (failed : Bool) (db : d.Db) (r : Result d.Db)
      → ((db' : d.Db) × (r ≡ ok db') × (update d failed db r ≡ (db', none)))
        ⊎ ((e : Error) × (update d failed db r ≡ (db, some e)))
  unfolding update
  update_cases failed db (err e) = inr (e, refl)
  update_cases false db (ok db') = inl (db', refl, refl)
  update_cases true db (ok db') = inr (fault, refl)

  chunk : List Bool → List (Bytes × ℕ) → d.Db → d.Db × Option Error
  chunk faults entries db =
      update d (first faults) db (charge_all d j now_month (take batch_size entries) db)

  chunks_next :
      (n : ℕ) (faults : List Bool) (e : Bytes × ℕ) (es : List (Bytes × ℕ)) (db db' : d.Db)
      → chunk faults (e ∷ es) db ≡ (db', none)
      → commit_chunks d j (suc n) faults now_month (e ∷ es) db
        ≡ commit_chunks d j n (others faults) now_month (drop batch_size (e ∷ es)) db'
  unfolding commit_chunks chunk
  chunks_next n faults e es db db' h =
      ap
        (λ (c : d.Db × Option Error). elim c.1 [
          | some y ↦ (c.0, some y)
          | none ↦ commit_chunks d j n (others faults) now_month (drop batch_size (e ∷ es)) c.0
        ])
        h

  chunks_stop :
      (n : ℕ) (faults : List Bool) (e : Bytes × ℕ) (es : List (Bytes × ℕ)) (db : d.Db) (x : Error)
      → chunk faults (e ∷ es) db ≡ (db, some x)
      → commit_chunks d j (suc n) faults now_month (e ∷ es) db ≡ (db, some x)
  unfolding commit_chunks chunk
  chunks_stop n faults e es db x h =
      ap
        (λ (c : d.Db × Option Error). elim c.1 [
          | some y ↦ (c.0, some y)
          | none ↦ commit_chunks d j n (others faults) now_month (drop batch_size (e ∷ es)) c.0
        ])
        h

  -- A committed chunk goes before what the rest of the loop charges.
  IsPrefixOf-after :
      (entries : List (Bytes × ℕ)) (db db' : d.Db) (r : d.Db × Option Error)
      → charge_all d j now_month (take batch_size entries) db ≡ ok db'
      → IsPrefixOf (drop batch_size entries) db' r
      → IsPrefixOf entries db r
  unfolding IsPrefixOf
  IsPrefixOf-after entries db db' r w (k, rest, finished) = (
    batch_size + k,
    subst (λ es. charge_all d j now_month es db ≡ ok r.0) (sym (take-drop_add batch_size k entries))
        (charge_all-append (take batch_size entries) (take k (drop batch_size entries)) db
          ∙ ap (λ x. x >>= charge_all d j now_month (take k (drop batch_size entries))) w
          ∙ rest),
    elim finished [
      | inl (e, l) ↦ inl (e, omega (arith, l, length-drop batch_size entries))
      | inr failed ↦ inr failed
    ],
  )

  commit_chunks-IsPrefixOf :
      (n : ℕ) (faults : List Bool) (entries : List (Bytes × ℕ)) (db : d.Db)
      → length entries ≤ n
      → IsPrefixOf entries db (commit_chunks d j n faults now_month entries db)
  unfolding commit_chunks IsPrefixOf charge_all chunk update
  commit_chunks-IsPrefixOf zero faults entries db h = (0, refl, inl (refl, h))
  commit_chunks-IsPrefixOf (suc n) faults [] db h = (0, refl, inl (refl, omega arith))
  commit_chunks-IsPrefixOf (suc n) faults (e ∷ es) db h =
      elim (update_cases (first faults) db
        (charge_all d j now_month (take batch_size (e ∷ es)) db)) [
          | inl (db', w, u) ↦
              subst (IsPrefixOf (e ∷ es) db) (sym (chunks_next n faults e es db db' u)) (
                IsPrefixOf-after (e ∷ es) db db' _ w (
                  commit_chunks-IsPrefixOf n (others faults) (drop batch_size (e ∷ es)) db'
                    (omega (arith, h, length-drop batch_size (e ∷ es)))))
          | inr (x, u) ↦
              subst (IsPrefixOf (e ∷ es) db) (sym (chunks_stop n faults e es db x u))
                (0, refl, inr (x, refl))
        ]

  -- Whatever chunks fail to commit, `BatchUpdateTraffic` leaves the database as if exactly the first k
  -- entries had been charged one after the other, for some k, and k is all of them if it reports no error.
  pub batch_update_traffic-IsPrefixOf :
      (faults : List Bool) (entries : List (Bytes × ℕ)) (s : Storage d)
      → (let (s', error) = batch_update_traffic d j faults entries now_month s in
          IsPrefixOf entries s.db (s'.db, error))
  unfolding batch_update_traffic charge_all IsPrefixOf
  batch_update_traffic-IsPrefixOf faults [] s = (0, refl, inl (refl, omega arith))
  batch_update_traffic-IsPrefixOf faults (e ∷ es) s =
      commit_chunks-IsPrefixOf (length (e ∷ es)) faults (e ∷ es) s.db (omega arith)
