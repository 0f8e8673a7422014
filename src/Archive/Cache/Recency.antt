-- ===== src/Archive/Cache/Recency.antt =====
-- The cache as a dictionary in the order of use, the key that was used last in front.
use native.Mathlib.Omega.{arith}
use mathlib.Core.Option.{none-ne-some, some-injective}
use ruseon_core.Common.{
  ℕ, ◌<◌, ◌≤◌, ◌≡◌, ◌≢◌, refl, sym, ap, ◌∙◌, none, some, List, [], ◌∷◌, length, ◌⊎◌, inl, inr,
  Option-cases,
}
use ruseon_core.Archive.Cache.{LruEntry, IndexLruCache, move_to_front, get, remove_key}
use ruseon_core.Common.Bytes.{Bytes, bytes_discrete}
use ruseon_core.Common.Count.{count, remove, count-remove, length-remove, length-remove-le}
use ruseon_core.Common.Dict.{Dict, lookup, erase, lookup-erase}

count-move :
    (x e : ℕ) (es : List ℕ)
    → 0 < count e es
    → count e es ≤ 1
    → count x (e ∷ remove e es) ≡ count x es
unfolding count
count-move x e es b o = ground (arith, count-remove x e es, b, o)

length-move : (e : ℕ) (es : List ℕ) → 0 < count e es → length (e ∷ remove e es) ≡ length es
length-move e es b = length-remove e es b

module _ {V : Type 0} where
  abbrev pub recency_of : (ℕ → LruEntry V) → List ℕ → Dict Bytes V
  recency_of entries [] = []
  recency_of entries (e ∷ es) = ((entries e).key, (entries e).value) ∷ recency_of entries es

  abbrev pub recency : IndexLruCache V → Dict Bytes V
  recency c = recency_of c.entries c.evict_list

  -- The map knows just the elements of the list, by their keys.
  pub record IsIndexed (items : Dict Bytes ℕ) (entries : ℕ → LruEntry V) (es : List ℕ)
      : Type 0 where
    pub once : (e : ℕ) → count e es ≤ 1
    pub found :
        (k : Bytes) (e : ℕ)
        → lookup bytes_discrete k items ≡ some e
        → (0 < count e es) × ((entries e).key ≡ k)
    pub kept : (e : ℕ) → 0 < count e es → lookup bytes_discrete (entries e).key items ≡ some e

  -- An element of the list with the key of another is that one.
  one_key :
      (items : Dict Bytes ℕ) (entries : ℕ → LruEntry V) (es : List ℕ)
      → IsIndexed items entries es
      → (k : Bytes) (e x : ℕ) → lookup bytes_discrete k items ≡ some e
      → 0 < count x es
      → (entries x).key ≡ k
      → x ≡ e
  one_key items entries es v k e x h c p =
      some-injective x e (sym (v.kept x c) ∙ ap (λ i. lookup bytes_discrete i items) p ∙ h)

  -- Whether the elements have the key, as far as the list goes.
  lookup-recency_none :
      (entries : ℕ → LruEntry V) (k : Bytes) (es : List ℕ)
      → ((x : ℕ) → 0 < count x es → (entries x).key ≢ k)
      → lookup bytes_discrete k (recency_of entries es) ≡ none
  unfolding lookup count
  lookup-recency_none entries k [] h = refl
  lookup-recency_none entries k (x ∷ es) h =
      let d = h x (ground arith) in
      ground (arith, d, lookup-recency_none entries k es (λ y c. h y (ground (arith, c))))

  lookup-recency_some :
      (entries : ℕ → LruEntry V) (k : Bytes) (e : ℕ) (es : List ℕ)
      → (entries e).key ≡ k
      → ((x : ℕ) → 0 < count x es → (entries x).key ≡ k → x ≡ e)
      → 0 < count e es
      → lookup bytes_discrete k (recency_of entries es) ≡ some (entries e).value
  unfolding lookup count
  lookup-recency_some entries k e [] p h c = absurd (omega (arith, c))
  lookup-recency_some entries k e (x ∷ es) p h c = elim (bytes_discrete (entries x).key k) [
    | yes q ↦
        let same : x ≡ e = h x (ground arith) q in
        let shown : (entries x).value ≡ (entries e).value = ap (λ i. (entries i).value) same in
        ground (arith, q, shown)
    | no d ↦
        let other : x ≢ e = λ r. d (ap (λ i. (entries i).key) r ∙ p) in
        let later =
          lookup-recency_some entries k e es p (λ y b. h y (ground (arith, b)))
            (ground (arith, c, other)) in
        ground (arith, d, later)
  ]

  erase-recency_none :
      (entries : ℕ → LruEntry V) (k : Bytes) (es : List ℕ)
      → ((x : ℕ) → 0 < count x es → (entries x).key ≢ k)
      → erase bytes_discrete k (recency_of entries es) ≡ recency_of entries es
  unfolding erase count
  erase-recency_none entries k [] h = refl
  erase-recency_none entries k (x ∷ es) h =
      let d = h x (ground arith) in
      ground (arith, d, erase-recency_none entries k es (λ y c. h y (ground (arith, c))))

  erase-recency_some :
      (entries : ℕ → LruEntry V) (k : Bytes) (e : ℕ) (es : List ℕ)
      → (entries e).key ≡ k
      → ((x : ℕ) → 0 < count x es → (entries x).key ≡ k → x ≡ e)
      → ((x : ℕ) → count x es ≤ 1)
      → erase bytes_discrete k (recency_of entries es) ≡ recency_of entries (remove e es)
  unfolding erase count remove
  erase-recency_some entries k e [] p h o = refl
  erase-recency_some entries k e (x ∷ es) p h o = elim (bytes_discrete (entries x).key k) [
    | yes q ↦
        let same : x ≡ e = h x (ground arith) q in
        let rest : erase bytes_discrete k (recency_of entries es) ≡ recency_of entries es =
          erase-recency_none entries k es (λ y c r.
            let s : y ≡ e = h y (ground (arith, c)) r in
            absurd (ground (arith, o y, c, same, s))) in
        ground (arith, q, rest, same)
    | no d ↦
        let other : x ≢ e = λ r. d (ap (λ i. (entries i).key) r ∙ p) in
        let rest =
          erase-recency_some entries k e es p (λ y c. h y (ground (arith, c)))
            (λ y. ground (arith, o y)) in
        ground (arith, d, other, rest)
  ]

  -- The cache is in order: as many elements as it has room for, and the map to them.
  pub record IsCache (c : IndexLruCache V) : Type 0 where
    pub roomy : length c.evict_list ≤ c.capacity
    pub positive : 0 < c.capacity
    pub indexed : IsIndexed c.items c.entries c.evict_list
    pub low : (e : ℕ) → 0 < count e c.evict_list → e < c.next_element

  hit_other :
      (c : IndexLruCache V) (k : Bytes) (e : ℕ)
      → IsCache c
      → lookup bytes_discrete k c.items ≡ some e
      → (x : ℕ) → 0 < count x c.evict_list
      → (c.entries x).key ≡ k
      → x ≡ e
  hit_other c k e v h x b p = one_key c.items c.entries c.evict_list v.indexed k e x h b p

  pub miss_other :
      (c : IndexLruCache V) (k : Bytes)
      → IsCache c
      → lookup bytes_discrete k c.items ≡ none
      → (x : ℕ) → 0 < count x c.evict_list
      → (c.entries x).key ≢ k
  miss_other c k v h x b p =
      none-ne-some x
        (sym h ∙ ap (λ i. lookup bytes_discrete i c.items) (sym p) ∙ v.indexed.kept x b)

  -- The map and the dictionary agree.
  pub lookup-recency :
      (k : Bytes) (c : IndexLruCache V)
      → IsCache c
      → ((lookup bytes_discrete k c.items ≡ none)
          × (lookup bytes_discrete k (recency c) ≡ none)
          × (erase bytes_discrete k (recency c) ≡ recency c))
        ⊎ ((e : ℕ) × ((lookup bytes_discrete k c.items ≡ some e)
              × ((0 < count e c.evict_list)
                  × ((c.entries e).key ≡ k)
                  × (lookup bytes_discrete k (recency c) ≡ some (c.entries e).value)
                  × (erase bytes_discrete k (recency c)
                      ≡ recency_of c.entries (remove e c.evict_list)))))
  lookup-recency k c v = elim (Option-cases (lookup bytes_discrete k c.items)) [
    | inl h ↦ inl (
      h,
      lookup-recency_none c.entries k c.evict_list (miss_other c k v h),
      erase-recency_none c.entries k c.evict_list (miss_other c k v h),
    )
    | inr (e, h) ↦
        let (b, p) = v.indexed.found k e h in
        inr (
          e,
          (
            h,
            (
              b,
              p,
              lookup-recency_some c.entries k e c.evict_list p (hit_other c k e v h) b,
              erase-recency_some c.entries k e c.evict_list p (hit_other c k e v h) v.indexed.once,
            ),
          ),
        )
  ]

  pub move_to_front-IsCache :
      (e : ℕ) (c : IndexLruCache V)
      → IsCache c
      → 0 < count e c.evict_list
      → IsCache (move_to_front e c)
  move_to_front-IsCache e c v b =
      let same = λ (x : ℕ). count-move x e c.evict_list b (v.indexed.once e) in
      record {
        roomy = omega (arith, v.roomy, length-move e c.evict_list b);
        positive = v.positive;
        indexed = record {
          once = λ x. omega (arith, same x, v.indexed.once x);
          found = λ k x h. let (p, q) = v.indexed.found k x h in (omega (arith, same x, p), q);
          kept = λ x h. v.indexed.kept x (omega (arith, same x, h));
        };
        low = λ x h. v.low x (omega (arith, same x, h));
      }

  -- A lookup brings the key to the front.
  unfoldable pub used : Bytes → Dict Bytes V → Dict Bytes V
  used k d = elim (lookup bytes_discrete k d) [
    | none ↦ d
    | some v ↦ (k, v) ∷ erase bytes_discrete k d
  ]

  -- What a lookup in the dictionary says, and the dictionary afterwards.
  pub get_lem :
      (k : Bytes) (c : IndexLruCache V)
      → IsCache c
      → IsCache (get k c).0
        × ((get k c).1 ≡ lookup bytes_discrete k (recency c))
        × (recency (get k c).0 ≡ used k (recency c))
  unfolding get used
  get_lem k c v = elim (lookup-recency k c v) [
    | inl (h, l, s) ↦ rw (h, get) (rw (l, used) (v, refl, refl))
    | inr (e, (h, (b, p, l, s))) ↦
        rw (h, get)
          (rw (l, used)
            (move_to_front-IsCache e c v b, refl, λ i. (p i, (c.entries e).value) ∷ sym s i))
  ]

  pub without-IsIndexed :
      (k : Bytes) (e : ℕ) (items : Dict Bytes ℕ) (entries : ℕ → LruEntry V) (es : List ℕ)
      → IsIndexed items entries es
      → lookup bytes_discrete k items ≡ some e
      → (entries e).key ≡ k
      → IsIndexed (erase bytes_discrete k items) entries (remove e es)
  without-IsIndexed k e items entries es v h p = record {
    once = λ x. omega (arith, count-remove x e es, v.once x);
    found = λ j x q. elim (bytes_discrete k j) [
      | yes s ↦
          absurd (none-ne-some x (ground (arith, lookup-erase bytes_discrete k j items, q, s)))
      | no d ↦
          let (b, r) = v.found j x (ground (arith, lookup-erase bytes_discrete k j items, q, d)) in
          let other : e ≢ x = λ t. d (sym p ∙ ap (λ i. (entries i).key) t ∙ r) in
          (ground (arith, b, other, count-remove x e es), r)
    ];
    kept = λ x b.
        let there : 0 < count x es = omega (arith, b, count-remove x e es) in
        let other : e ≢ x = λ t. ground (arith, t, b, count-remove x e es, v.once x) in
        let d : k ≢ (entries x).key =
          λ t. other (sym (one_key items entries es v k e x h there (sym t))) in
        ground (arith, lookup-erase bytes_discrete k (entries x).key items, d, v.kept x there);
  }

  -- The key is gone, and the order of the others stays.
  pub remove_key_lem :
      (k : Bytes) (c : IndexLruCache V)
      → IsCache c
      → IsCache (remove_key k c) × (recency (remove_key k c) ≡ erase bytes_discrete k (recency c))
  unfolding remove_key
  remove_key_lem k c v = elim (lookup-recency k c v) [
    | inl (h, l, s) ↦ rw (h, remove_key) (v, sym s)
    | inr (e, (h, (b, p, l, s))) ↦
        rw (h, remove_key)
          (
            record {
              roomy = omega (arith, v.roomy, length-remove-le e c.evict_list);
              positive = v.positive;
              indexed = without-IsIndexed k e c.items c.entries c.evict_list v.indexed h p;
              low = λ x t. v.low x (omega (arith, t, count-remove x e c.evict_list));
            },
            sym s,
          )
  ]
