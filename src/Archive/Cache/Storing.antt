-- ===== src/Archive/Cache/Storing.antt =====
-- Storing in the cache, and every sequence of operations against the dictionary.
use native.Mathlib.Omega.{arith}
use mathlib.Core.Option.{none-ne-some, some-injective}
use ruseon_core.Common.{
  ℕ, zero, suc, ◌-◌, ◌<◌, ◌≡◌, ◌≢◌, refl, sym, ap, ◌∙◌, subst, Option, none, some, List, [], ◌∷◌,
  length, take, ℕ_discrete, inl, inr, Option-cases,
}
use ruseon_core.Archive.Cache.{
  LruEntry, IndexLruCache, move_to_front, get, evict_all, push_front, add, remove_key, clear,
  capacity_of, new_index_lru_cache,
}
use ruseon_core.Common.Bytes.{Bytes, bytes_discrete}
use ruseon_core.Common.Count.{count, remove, count-remove}
use ruseon_core.Common.Dict.{
  Dict, lookup, insert, erase, lookup-insert, lookup-insert_self, lookup-insert_ne,
}
use ruseon_core.Common.Int.{ℤ, pos, negsuc}
use ruseon_core.Common.Heap.{update, update_self, update_ne, update-ap}
use ruseon_core.Archive.Cache.Recency.{
  IsIndexed, IsCache, miss_other, move_to_front-IsCache, recency_of, recency, lookup-recency, used,
  get_lem, remove_key_lem,
}
use ruseon_core.Archive.Cache.Eviction.{evict_all-MakesRoom, evict_all-capacity}

module _ {V : Type 0} where
  recency_of-agree :
      (entries entries' : ℕ → LruEntry V) (es : List ℕ)
      → ((x : ℕ) → 0 < count x es → entries' x ≡ entries x)
      → recency_of entries' es ≡ recency_of entries es
  unfolding count
  recency_of-agree entries entries' [] h = refl
  recency_of-agree entries entries' (x ∷ es) h =
      let p = h x (ground arith) in
      let rest = recency_of-agree entries entries' es (λ y b. h y (ground (arith, b))) in
      λ i. ((p i).key, (p i).value) ∷ rest i

  push_front-IsCache :
      (k : Bytes) (value : V) (c : IndexLruCache V)
      → IsCache c
      → length c.evict_list < c.capacity
      → lookup bytes_discrete k c.items ≡ none
      → IsCache (push_front k value c) × (recency (push_front k value c) ≡ (k, value) ∷ recency c)
  unfolding push_front count
  push_front-IsCache k value c v room h =
      let new = c.next_element in
      let entry : LruEntry V = record { key = k; value = value } in
      let entries = update ℕ_discrete c.entries new entry in
      let newer = λ (x : ℕ) (b : 0 < count x c.evict_list).
        (let d : new ≢ x = λ t. absurd (omega (arith, t, v.low x b)) in d) in
      let same = λ (x : ℕ) (b : 0 < count x c.evict_list).
        update_ne ℕ_discrete c.entries new x entry (newer x b) in
      let self : entries new ≡ entry = update_self ℕ_discrete c.entries new entry in
      (
        record {
          roomy = omega (arith, room);
          positive = v.positive;
          indexed = record {
            once = λ x. ground (arith, v.indexed.once x, v.low x);
            found = λ j x q. elim (bytes_discrete k j) [
              | yes s ↦
                  let t : new ≡ x =
                    some-injective new x
                      (ground (arith, lookup-insert bytes_discrete k j new c.items, q, s)) in
                  (ground (arith, t), ap (λ i. (entries i).key) (sym t) ∙ ap (λ i. i.key) self ∙ s)
              | no d ↦
                  let (b, p) =
                    v.indexed.found j x
                      (ground (arith, lookup-insert bytes_discrete k j new c.items, q, d)) in
                  (ground (arith, b), ap (λ i. i.key) (same x b) ∙ p)
            ];
            kept = λ x b. elim (ℕ_discrete new x) [
              | yes t ↦
                  subst
                    (λ i.
                      lookup bytes_discrete (entries i).key (insert bytes_discrete k new c.items)
                      ≡ some i)
                    t
                    (ap (λ i. lookup bytes_discrete i.key (insert bytes_discrete k new c.items))
                        self
                      ∙ lookup-insert_self bytes_discrete k new c.items)
              | no d ↦
                  let there : 0 < count x c.evict_list = ground (arith, b, d) in
                  ap (λ i. lookup bytes_discrete i.key (insert bytes_discrete k new c.items))
                    (same x there)
                  ∙ lookup-insert_ne bytes_discrete k (c.entries x).key new c.items
                      (λ t. miss_other c k v h x there (sym t))
                  ∙ v.indexed.kept x there
            ];
          };
          low = λ x b. ground (arith, b, v.low x);
        },
        (λ i.
            ((self i).key, (self i).value)
            ∷ recency_of-agree c.entries entries c.evict_list same i),
      )

  -- The same elements under the same keys.
  rekeyed :
      (items : Dict Bytes ℕ) (entries entries' : ℕ → LruEntry V) (es : List ℕ)
      → ((x : ℕ) → (entries' x).key ≡ (entries x).key)
      → IsIndexed items entries es
      → IsIndexed items entries' es
  rekeyed items entries entries' es same v = record {
    once = v.once;
    found = λ k x q. let (b, p) = v.found k x q in (b, same x ∙ p);
    kept = λ x b. ap (λ i. lookup bytes_discrete i items) (same x) ∙ v.kept x b;
  }

  -- A value is stored in front; a new key takes the place of the one that was used last, if there is no room.
  unfoldable pub stored : ℕ → Bytes → V → Dict Bytes V → Dict Bytes V
  stored capacity k value d = elim (lookup bytes_discrete k d) [
    | some old ↦ (k, value) ∷ erase bytes_discrete k d
    | none ↦ (k, value) ∷ take (capacity - 1) d
  ]

  replaced :
      (k : Bytes) (value : V) (e : ℕ) (c : IndexLruCache V)
      → IsCache c
      → 0 < count e c.evict_list
      → (let c' = record (move_to_front e c) {
        entries = update ℕ_discrete c.entries e (record (c.entries e) { value = value });
      } in
          IsCache c'
          × (recency c'
              ≡ ((c.entries e).key, value) ∷ recency_of c.entries (remove e c.evict_list)))
  replaced k value e c v b =
      let moved = move_to_front-IsCache e c v b in
      let entry = record (c.entries e) { value = value } in
      let entries = update ℕ_discrete c.entries e entry in
      let self : entries e ≡ entry = update_self ℕ_discrete c.entries e entry in
      let same = recency_of-agree c.entries entries (remove e c.evict_list) (λ x p.
        update_ne ℕ_discrete c.entries e x entry
          (λ t. absurd (ground (arith, t, p, count-remove x e c.evict_list, v.indexed.once x)))) in
      (
        record {
          roomy = moved.roomy;
          positive = moved.positive;
          indexed =
              rekeyed c.items c.entries entries (e ∷ remove e c.evict_list)
                (λ x. update-ap ℕ_discrete (λ i. i.key) c.entries e x entry refl) moved.indexed;
          low = moved.low;
        },
        (λ i. ((self i).key, (self i).value) ∷ same i),
      )

  add_lem :
      (k : Bytes) (value : V) (c : IndexLruCache V)
      → IsCache c
      → IsCache (add k value c) × (recency (add k value c) ≡ stored c.capacity k value (recency c))
  unfolding add stored
  add_lem k value c v = elim (lookup-recency k c v) [
    | inl (h, l, s) ↦
        let m = evict_all-MakesRoom k c v h in
        let (valid, r) =
          push_front-IsCache k value (evict_all (length c.evict_list) c) m.valid m.room m.missing in
        rw (h, add) (rw (l, stored) (valid, r ∙ ap (λ d. (k, value) ∷ d) m.newest))
    | inr (e, (h, (b, p, l, s))) ↦
        let (valid, r) = replaced k value e c v b in
        rw (h, add) (rw (l, stored) (valid, r ∙ (λ i. (p i, value) ∷ sym s i)))
  ]

  add-capacity :
      (k : Bytes) (value : V) (c : IndexLruCache V) → (add k value c).capacity ≡ c.capacity
  unfolding add push_front
  add-capacity k value c = elim (Option-cases (lookup bytes_discrete k c.items)) [
    | inl h ↦ rw (h, add) (evict_all-capacity (length c.evict_list) c)
    | inr (e, h) ↦ rw (h, add) refl
  ]

  get-capacity : (k : Bytes) (c : IndexLruCache V) → (get k c).0.capacity ≡ c.capacity
  unfolding get
  get-capacity k c = ground arith

  remove_key-capacity : (k : Bytes) (c : IndexLruCache V) → (remove_key k c).capacity ≡ c.capacity
  unfolding remove_key
  remove_key-capacity k c = ground arith

capacity_of_positive : (n : ℤ) → 0 < capacity_of n
unfolding capacity_of
capacity_of_positive (pos zero) = omega arith
capacity_of_positive (pos (suc n)) = omega arith
capacity_of_positive (negsuc n) = omega arith

-- The methods of the cache, as requests.
pub data CacheOp (V : Type 0) : Type 0 where
  got : Bytes → CacheOp V
  added : Bytes → V → CacheOp V
  removed : Bytes → CacheOp V
  cleared : CacheOp V

module _ {V : Type 0} where
  abbrev pub serve : CacheOp V → IndexLruCache V → IndexLruCache V × Option V
  serve (got k) c = get k c
  serve (added k value) c = (add k value c, none)
  serve (removed k) c = (remove_key k c, none)
  serve cleared c = (clear c, none)

  abbrev pub answers : List (CacheOp V) → IndexLruCache V → List (Option V)
  answers [] c = []
  answers (op ∷ ops) c = (serve op c).1 ∷ answers ops (serve op c).0

  -- A dictionary in the order of use, of at most `capacity` keys.
  abbrev pub spec_serve : ℕ → CacheOp V → Dict Bytes V → Dict Bytes V × Option V
  spec_serve capacity (got k) d = (used k d, lookup bytes_discrete k d)
  spec_serve capacity (added k value) d = (stored capacity k value d, none)
  spec_serve capacity (removed k) d = (erase bytes_discrete k d, none)
  spec_serve capacity cleared d = ([], none)

  abbrev pub spec_answers : ℕ → List (CacheOp V) → Dict Bytes V → List (Option V)
  spec_answers capacity [] d = []
  spec_answers capacity (op ∷ ops) d =
      (spec_serve capacity op d).1 ∷ spec_answers capacity ops (spec_serve capacity op d).0

  abbrev Refines : CacheOp V → IndexLruCache V → Type 0
  Refines op c =
      IsCache (serve op c).0
      × ((serve op c).1 ≡ (spec_serve c.capacity op (recency c)).1)
      × (recency (serve op c).0 ≡ (spec_serve c.capacity op (recency c)).0)
      × ((serve op c).0.capacity ≡ c.capacity)

  serve-Refines : (op : CacheOp V) (c : IndexLruCache V) → IsCache c → Refines op c
  serve-Refines (got k) c v = let (a, b, r) = get_lem k c v in (a, b, r, get-capacity k c)
  serve-Refines (added k value) c v =
      let (a, r) = add_lem k value c v in (a, refl, r, add-capacity k value c)
  serve-Refines (removed k) c v =
      let (a, r) = remove_key_lem k c v in (a, refl, r, remove_key-capacity k c)
  serve-Refines cleared c v =
      unfold clear in
      (
        record {
          roomy = omega arith;
          positive = v.positive;
          indexed = record {
            once = λ e. unfold count in omega arith;
            found = λ k e h. absurd (none-ne-some e (unfold lookup in h));
            kept = λ e b. absurd (unfold count in omega (arith, b));
          };
          low = λ e b. absurd (unfold count in omega (arith, b));
        },
        refl,
        refl,
        refl,
      )

  answers_lem :
      (ops : List (CacheOp V)) (c : IndexLruCache V)
      → IsCache c
      → answers ops c ≡ spec_answers c.capacity ops (recency c)
  answers_lem [] c v = refl
  answers_lem (op ∷ ops) c v =
      let (valid, answer, r, cap) = serve-Refines op c v in
      let rest = answers_lem ops (serve op c).0 valid in
      λ i. answer i ∷ (rest ∙ (λ j. spec_answers (cap j) ops (r j))) i

  new_index_lru_cache-IsCache :
      (n : ℤ) (unused : ℕ → LruEntry V) → IsCache (new_index_lru_cache n unused)
  unfolding new_index_lru_cache
  new_index_lru_cache-IsCache n unused = record {
    roomy = omega arith;
    positive = capacity_of_positive n;
    indexed = record {
      once = λ e. unfold count in omega arith;
      found = λ k e h. absurd (none-ne-some e (unfold lookup in h));
      kept = λ e b. absurd (unfold count in omega (arith, b));
    };
    low = λ e b. absurd (unfold count in omega (arith, b));
  }

  -- Any sequence of lookups, stores, removals and clearings gets from a new cache the answers of an empty dictionary
  -- in the order of use: a lookup answers what was stored last under the key and brings the key to the front, a value
  -- is stored in front, and a new key beyond the capacity drops the key that has not been used for longest.
  pub answers-new_index_lru_cache :
      (ops : List (CacheOp V)) (n : ℤ) (unused : ℕ → LruEntry V)
      → answers ops (new_index_lru_cache n unused) ≡ spec_answers (capacity_of n) ops []
  unfolding new_index_lru_cache
  answers-new_index_lru_cache ops n unused =
      answers_lem ops (new_index_lru_cache n unused) (new_index_lru_cache-IsCache n unused)
