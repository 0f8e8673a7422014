-- ===== src/Archive/Cache.antt =====
-- `IndexLRUCache` of internal/archive/hls.go: a map to the elements of a list, whose front was used last.
-- Elements stand for pointers; `container/list` is the list of them, its front first.
pub mod Recency
pub mod Eviction
pub mod Storing
use ruseon_core.Common.{
  ℕ, zero, suc, ◌+◌, Bool, Option, none, some, List, [], ◌∷◌, if◌then◌else◌, leb, length,
  ℕ_discrete,
}
use ruseon_core.Common.Bytes.{Bytes, bytes_discrete}
use ruseon_core.Common.Count.{remove}
use ruseon_core.Common.Dict.{Dict, lookup, insert, erase}
use ruseon_core.Common.Heap.{update}
use ruseon_core.Common.Int.{ℤ, pos, negsuc}

pub record LruEntry {ℓ} (V : Type ℓ) : Type ℓ where
  pub key : Bytes
  pub value : V

pub record IndexLruCache {ℓ} (V : Type ℓ) : Type ℓ where
  pub capacity : ℕ
  pub items : Dict Bytes ℕ
  pub evict_list : List ℕ
  pub entries : ℕ → LruEntry V
  pub next_element : ℕ

abbrev pub default_cache_capacity : ℕ
default_cache_capacity = 2000

unfoldable pub capacity_of : ℤ → ℕ
capacity_of (pos zero) = default_cache_capacity
capacity_of (pos (suc n)) = suc n
capacity_of (negsuc n) = default_cache_capacity

abbrev pub oldest : List ℕ → Option ℕ
oldest [] = none
oldest (e ∷ []) = some e
oldest (e ∷ f ∷ rest) = oldest (f ∷ rest)

module _ {V : Type 0} where
  unfoldable pub new_index_lru_cache : ℤ → (ℕ → LruEntry V) → IndexLruCache V
  new_index_lru_cache capacity unused = record {
    capacity = capacity_of capacity;
    items = [];
    evict_list = [];
    entries = unused;
    next_element = 0;
  }

  abbrev pub move_to_front : ℕ → IndexLruCache V → IndexLruCache V
  move_to_front e c = record c { evict_list = e ∷ remove e c.evict_list }

  unfoldable pub get : Bytes → IndexLruCache V → IndexLruCache V × Option V
  get key c = elim (lookup bytes_discrete key c.items) [
    | none ↦ (c, none)
    | some e ↦ (move_to_front e c, some (c.entries e).value)
  ]

  unfoldable pub evict : ℕ → IndexLruCache V → IndexLruCache V
  evict e c = record c {
    items = erase bytes_discrete (c.entries e).key c.items;
    evict_list = remove e c.evict_list;
  }

  -- As long as there is no room. Each round takes an element, so that their number is fuel enough.
  unfoldable pub evict_all : ℕ → IndexLruCache V → IndexLruCache V
  evict_all zero c = c
  evict_all (suc n) c = elim (oldest c.evict_list) [
    | none ↦ c
    | some e ↦
        let rest = evict_all n (evict e c) in
        if leb c.capacity (length c.evict_list) then rest else c
  ]

  unfoldable pub push_front : Bytes → V → IndexLruCache V → IndexLruCache V
  push_front key value c = record c {
    items = insert bytes_discrete key c.next_element c.items;
    evict_list = c.next_element ∷ c.evict_list;
    entries = update ℕ_discrete c.entries c.next_element record { key = key; value = value };
    next_element = c.next_element + 1;
  }

  unfoldable pub add : Bytes → V → IndexLruCache V → IndexLruCache V
  add key value c = elim (lookup bytes_discrete key c.items) [
    | some e ↦ record (move_to_front e c) {
      entries = update ℕ_discrete c.entries e (record (c.entries e) { value = value });
    }
    | none ↦ push_front key value (evict_all (length c.evict_list) c)
  ]

  unfoldable pub remove_key : Bytes → IndexLruCache V → IndexLruCache V
  remove_key key c = elim (lookup bytes_discrete key c.items) [
    | none ↦ c
    | some e ↦ record c {
      items = erase bytes_discrete key c.items;
      evict_list = remove e c.evict_list;
    }
  ]

  unfoldable pub clear : IndexLruCache V → IndexLruCache V
  clear c = record c { items = []; evict_list = [] }

  unfoldable pub len : IndexLruCache V → ℕ
  len c = length c.evict_list
