-- ===== src/Hls/Muxer/Lookup.antt =====
-- Where readers find segments by name, in the index and in the window.
use native.Mathlib.Omega.{arith}
use mathlib.Core.Option.{none-ne-some, some-injective}
use ruseon_core.Common.{
  ℕ, ◌<◌, ◌≡◌, ◌≢◌, refl, sym, ap, ◌∙◌, subst, none, some, List, [], ◌∷◌, if◌then◌else◌, ite, ◌⊎◌,
  inl, inr, Option-cases,
}
use ruseon_core.Common.Bytes.{Bytes, bytes_discrete, bytes_eq, codes}
use ruseon_core.Common.Count.{count}
use ruseon_core.Common.Dict.{Dict, insert, lookup, lookup-insert}
use ruseon_core.Hls.Muxer.{
  Muxer, index_all, find_named, find_segment, acquire_segment, is_vtt, ts_name_of,
}
use ruseon_core.Hls.Muxer.Window.{HasWindow}
use ruseon_core.Hls.Segments.{Store, retain}

-- Of a name there is a segment of the list.
abbrev pub IsNamed : Store → List ℕ → Bytes → ℕ → Type 0
IsNamed st segs name a = (0 < count a segs) × ((st.heap a).name ≡ name)

IsNamed-behind :
    (st : Store) (b : ℕ) (segs : List ℕ) (name : Bytes) (a : ℕ)
    → IsNamed st segs name a
    → IsNamed st (b ∷ segs) name a
unfolding count
IsNamed-behind st b segs name a (h, e) = (omega (arith, h), e)

IsNamed-head :
    (st : Store) (b : ℕ) (segs : List ℕ) (name : Bytes) (a : ℕ)
    → (st.heap b).name ≡ name
    → some b ≡ some a
    → IsNamed st (b ∷ segs) name a
unfolding count
IsNamed-head st b segs name a p e =
    let q : b ≡ a = some-injective b a e in
    (ground (arith, q), ap (λ i. (st.heap i).name) (sym q) ∙ p)

index_all_sound :
    (st : Store) (segs : List ℕ) (index : Dict Bytes ℕ) (name : Bytes) (a : ℕ)
    → lookup bytes_discrete name (index_all st segs index) ≡ some a
    → IsNamed st segs name a ⊎ (lookup bytes_discrete name index ≡ some a)
unfolding index_all
index_all_sound st [] index name a h = inr h
index_all_sound st (b ∷ segs) index name a h =
    elim (index_all_sound st segs (insert bytes_discrete (st.heap b).name b index) name a h) [
      | inl n ↦ inl (IsNamed-behind st b segs name a n)
      | inr e ↦ inserted (sym (lookup-insert bytes_discrete (st.heap b).name name b index) ∙ e)
    ]
  where
    inserted :
        ite (bytes_discrete (st.heap b).name name) (some b) (lookup bytes_discrete name index)
          ≡ some a
        → IsNamed st (b ∷ segs) name a ⊎ (lookup bytes_discrete name index ≡ some a)
    inserted e = elim (bytes_discrete (st.heap b).name name) [
      | yes p ↦ inl (IsNamed-head st b segs name a p (ground (arith, e, p)))
      | no d ↦ inr (ground (arith, e, d))
    ]

find_named_sound :
    (st : Store) (name : Bytes) (segs : List ℕ) (a : ℕ)
    → find_named st name segs ≡ some a
    → IsNamed st segs name a
unfolding find_named bytes_eq
find_named_sound st name [] a h = absurd (none-ne-some a h)
find_named_sound st name (b ∷ segs) a h = elim (bytes_discrete (st.heap b).name name) [
  | yes p ↦ IsNamed-head st b segs name a p (ground (arith, h, p))
  | no d ↦ IsNamed-behind st b segs name a (find_named_sound st name segs a (ground (arith, h, d)))
]

-- What is found is in the window and has the name.
pub find_segment_sound :
    (name : Bytes) (m : Muxer) (a : ℕ)
    → HasWindow m
    → find_segment name m ≡ some a
    → IsNamed m.store m.segments name a
unfolding find_segment
find_segment_sound name m a w h = elim (Option-cases (lookup bytes_discrete name m.seg_index)) [
  | inl e ↦ find_named_sound m.store name m.segments a (ground (arith, h, e))
  | inr (b, e) ↦
      let q : lookup bytes_discrete name m.seg_index ≡ some a = ground (arith, h, e) in
      elim (index_all_sound m.store m.segments [] name a
        (subst (λ i. lookup bytes_discrete name i ≡ some a) w.indexed q)) [
          | inl n ↦ n
          | inr z ↦ absurd (none-ne-some a (unfold lookup in z))
        ]
]

-- A segment of the window is found by its name, and the name decides which.
pub find_named_complete :
    (st : Store) (name : Bytes) (segs : List ℕ) (a : ℕ)
    → IsNamed st segs name a
    → find_named st name segs ≢ none
unfolding find_named bytes_eq count
find_named_complete st name [] a (h, e) z = absurd (omega (arith, h))
find_named_complete st name (b ∷ segs) a (h, e) z = elim (bytes_discrete (st.heap b).name name) [
  | yes p ↦ absurd (none-ne-some b (ground (arith, z, p)))
  | no d ↦
      let other : b ≢ a = λ p. d (ap (λ i. (st.heap i).name) p ∙ e) in
      find_named_complete st name segs a (ground (arith, h, other), e) (ground (arith, z, d))
]

pub acquire_miss :
    (name : Bytes) (m : Muxer)
    → find_segment (ts_name_of name) m ≡ none
    → acquire_segment name m ≡ (m, none)
unfolding acquire_segment
acquire_miss name m e = ground (arith, e)

pub acquire_hit :
    (name : Bytes) (m : Muxer) (a : ℕ)
    → find_segment (ts_name_of name) m ≡ some a
    → acquire_segment name m ≡ (
      record m { store = retain a m.store },
      some (a, if is_vtt name then codes "text/vtt" else codes "video/mp2t"),
    )
unfolding acquire_segment
acquire_hit name m a e = rw (e, acquire_segment) refl
