-- ===== src/Archive/Cache/Eviction.antt =====
-- Making room in the cache: the element that was used last goes first.
use native.Mathlib.Omega.{arith}
use mathlib.Core.Option.{some-injective}
use ruseon_core.Common.{
  ℕ, zero, suc, ◌-◌, ◌<◌, ◌≤◌, ◌≡◌, ◌≢◌, refl, sym, ap, ◌∙◌, subst, true, false, none, some, List,
  [], ◌∷◌, leb, length, take, inl, inr, Option-cases, Bool-cases,
}
use ruseon_core.Archive.Cache.{LruEntry, IndexLruCache, oldest, evict, evict_all}
use ruseon_core.Common.Bytes.{Bytes, bytes_discrete}
use ruseon_core.Common.Count.{count, remove, count-remove, length-remove}
use ruseon_core.Common.Dict.{lookup, lookup-erase}
use ruseon_core.Archive.Cache.Recency.{IsIndexed, without-IsIndexed, IsCache, recency_of, recency}

remove_head : (x e : ℕ) (es : List ℕ) → x ≡ e → remove e (x ∷ es) ≡ es
unfolding remove
remove_head x e es s = ground (arith, s)

remove_other : (x e : ℕ) (es : List ℕ) → x ≢ e → remove e (x ∷ es) ≡ x ∷ remove e es
unfolding remove
remove_other x e es d = ground (arith, d)

oldest-some : (es : List ℕ) → 0 < length es → (e : ℕ) × (oldest es ≡ some e)
oldest-some [] h = absurd (omega (arith, h))
oldest-some (x ∷ []) h = (x, refl)
oldest-some (x ∷ y ∷ es) h = oldest-some (y ∷ es) (omega arith)

take_all {ℓ} : {A : Type ℓ} (n : ℕ) (xs : List A) → length xs ≤ n → take n xs ≡ xs
take_all zero [] h = refl
take_all (suc n) [] h = refl
take_all zero (x ∷ xs) h = absurd (omega (arith, h))
take_all (suc n) (x ∷ xs) h = ap (λ l. x ∷ l) (take_all n xs (omega (arith, h)))

module _ {V : Type 0} where
  -- The elements but the last.
  but_last :
      (entries : ℕ → LruEntry V) (n e : ℕ) (es : List ℕ)
      → length es ≡ suc n
      → oldest es ≡ some e
      → ((x : ℕ) → count x es ≤ 1)
      → (0 < count e es) × (recency_of entries (remove e es) ≡ take n (recency_of entries es))
  unfolding count
  but_last entries n e [] k h o = absurd (omega (arith, k))
  but_last entries zero e (x ∷ []) k h o =
      let s = some-injective x e h in
      (ground (arith, s), ap (recency_of entries) (remove_head x e [] s))
  but_last entries (suc m) e (x ∷ []) k h o = absurd (omega (arith, k))
  but_last entries zero e (x ∷ y ∷ es) k h o = absurd (omega (arith, k))
  but_last entries (suc m) e (x ∷ y ∷ es) k h o =
      let (b, r) =
        but_last entries m e (y ∷ es) (omega (arith, k)) h
          (λ z. let q = o z in ground (arith, q)) in
      let other : x ≢ e = λ t. let q = o e in ground (arith, t, q, b) in
      (
        ground (arith, b),
        ap (recency_of entries) (remove_other x e (y ∷ es) other)
            ∙ ap (λ d. ((entries x).key, (entries x).value) ∷ d) r,
      )

  evict-IsIndexed :
      (e : ℕ) (c : IndexLruCache V)
      → IsIndexed c.items c.entries c.evict_list
      → 0 < count e c.evict_list
      → IsIndexed (evict e c).items (evict e c).entries (evict e c).evict_list
  unfolding evict
  evict-IsIndexed e c v b =
      without-IsIndexed (c.entries e).key e c.items c.entries c.evict_list v (v.kept e b) refl

  evicted-IsCache :
      (n e : ℕ) (c : IndexLruCache V)
      → IsCache c
      → length c.evict_list ≡ suc n
      → oldest c.evict_list ≡ some e
      → IsCache (evict e c)
        × (length (evict e c).evict_list ≡ n)
        × (recency (evict e c) ≡ take n (recency c))
  unfolding evict
  evicted-IsCache n e c v k h =
      let (b, r) = but_last c.entries n e c.evict_list k h v.indexed.once in
      let shorter : suc (length (remove e c.evict_list)) ≡ length c.evict_list =
        length-remove e c.evict_list b in
      (
        record {
          roomy = omega (arith, v.roomy, shorter);
          positive = v.positive;
          indexed = evict-IsIndexed e c v.indexed b;
          low = λ x t. v.low x (omega (arith, t, count-remove x e c.evict_list));
        },
        omega (arith, shorter, k),
        r,
      )

  evict_all_done :
      (n : ℕ) (c : IndexLruCache V) → length c.evict_list < c.capacity → evict_all n c ≡ c
  unfolding evict_all
  evict_all_done zero c h = refl
  evict_all_done (suc n) c h = elim (Option-cases (oldest c.evict_list)) [
    | inl o ↦ ground (arith, o)
    | inr (e, o) ↦
        let room : leb c.capacity (length c.evict_list) ≡ false = ground (arith, h) in
        rw (o, evict_all) (rw room refl)
  ]

  evict_all_full :
      (n e : ℕ) (c : IndexLruCache V)
      → c.capacity ≤ length c.evict_list
      → oldest c.evict_list ≡ some e
      → evict_all (suc n) c ≡ evict_all n (evict e c)
  unfolding evict_all
  evict_all_full n e c h o =
      let full : leb c.capacity (length c.evict_list) ≡ true = ground (arith, h) in
      rw (o, evict_all) (rw full refl)

  length-recency_of :
      (entries : ℕ → LruEntry V) (es : List ℕ) → length (recency_of entries es) ≡ length es
  length-recency_of entries [] = refl
  length-recency_of entries (e ∷ es) = ap suc (length-recency_of entries es)

  -- What makes room leaves.
  pub record MakesRoom (k : Bytes) (c c' : IndexLruCache V) : Type 0 where
    pub valid : IsCache c'
    pub room : length c'.evict_list < c'.capacity
    pub newest : recency c' ≡ take (c.capacity - 1) (recency c)
    pub missing : lookup bytes_discrete k c'.items ≡ none

  pub evict_all-MakesRoom :
      (k : Bytes) (c : IndexLruCache V)
      → IsCache c
      → lookup bytes_discrete k c.items ≡ none
      → MakesRoom k c (evict_all (length c.evict_list) c)
  evict_all-MakesRoom k c v h = elim (Bool-cases (leb c.capacity (length c.evict_list))) [
    | inr f ↦
        let short : length c.evict_list < c.capacity = ground (arith, f) in
        subst (MakesRoom k c) (sym (evict_all_done (length c.evict_list) c short)) record {
          valid = v;
          room = short;
          newest = sym (
              take_all (c.capacity - 1) (recency c)
                (omega (arith, short, length-recency_of c.entries c.evict_list)));
          missing = h;
        }
    | inl t ↦
        let full : c.capacity ≤ length c.evict_list = ground (arith, t) in
        let n = c.capacity - 1 in
        let long : length c.evict_list ≡ suc n = omega (arith, full, v.roomy, v.positive) in
        let (e, o) = oldest-some c.evict_list (omega (arith, long)) in
        let (valid, short, r) = evicted-IsCache n e c v long o in
        let room : length (evict e c).evict_list < (evict e c).capacity =
          unfold evict in omega (arith, short, v.positive) in
        subst (MakesRoom k c)
          (sym (
            ap (λ i. evict_all i c) long
            ∙ evict_all_full n e c full o
            ∙ evict_all_done n (evict e c) room))
          record {
            valid = valid;
            room = room;
            newest = r;
            missing =
                unfold evict in
                ground (arith, lookup-erase bytes_discrete (c.entries e).key k c.items, h);
          }
  ]

  pub evict_all-capacity : (n : ℕ) (c : IndexLruCache V) → (evict_all n c).capacity ≡ c.capacity
  unfolding evict_all evict
  evict_all-capacity zero c = refl
  evict_all-capacity (suc n) c = elim (Option-cases (oldest c.evict_list)) [
    | inl o ↦ ground (arith, o)
    | inr (e, o) ↦
        let rest = evict_all-capacity n (evict e c) in
        elim (Bool-cases (leb c.capacity (length c.evict_list))) [
          | inl t ↦ rw (o, evict_all) (rw t rest)
          | inr f ↦ rw (o, evict_all) (rw f refl)
        ]
  ]
