-- ===== src/Hls/Muxer/Serving.antt =====
-- Which segments readers can acquire.
use native.Mathlib.Omega.{arith}
use mathlib.Core.Option.{none-ne-some}
use ruseon_core.Common.{
  ℕ, zero, suc, ◌+◌, ◌-◌, ◌<◌, ◌≤◌, ◌≡◌, ◌≢◌, sym, ap, ◌∙◌, subst, none, some, List, [], ◌∷◌,
  length, if◌then◌else◌, ◌⊎◌, inl, inr, Option-cases, ℕ_discrete, dec_lt, dec_le,
}
use ruseon_core.Common.Bytes.{Bytes, bytes_discrete, codes}
use ruseon_core.Common.Count.{count}
use ruseon_core.Common.Dict.{lookup}
use ruseon_core.Hls.Muxer.{Muxer, find_segment, acquire_segment, is_vtt, ts_name_of}
use ruseon_core.Hls.Muxer.Lookup.{
  IsNamed, find_segment_sound, find_named_complete, acquire_hit, acquire_miss,
}
use ruseon_core.Hls.Muxer.Names.{
  vtt_name, ts_name_injective, ts_name-is_vtt, vtt_name-is_vtt, ts_name_of-ts_name,
  ts_name_of-vtt_name,
}
use ruseon_core.Hls.Muxer.Window.{HasWindow, names, consecutive}
use ruseon_core.Hls.Playlist.{ts_name}
use ruseon_core.Hls.Segments.{Store, retain}

heads : (x y : Bytes) (xs ys : List Bytes) → x ∷ xs ≡ y ∷ ys → (x ≡ y) × (xs ≡ ys)
heads x y xs ys e = (cc, cc)

-- The segments of a numbered list, one by one.
at_number :
    (st : Store) (start i : ℕ) (segs : List ℕ)
    → names st segs ≡ consecutive start (length segs)
    → i < length segs
    → (a : ℕ) × IsNamed st segs (ts_name (start + i)) a
unfolding count
at_number st start i [] e h = absurd (omega (arith, h))
at_number st start zero (a ∷ rest) e h = (
  a,
  (
    ground arith,
    (heads (st.heap a).name (ts_name start) (names st rest) (consecutive (suc start) (length rest))
          e).0
        ∙ ap ts_name (omega arith),
  ),
)
at_number st start (suc i) (a ∷ rest) e h =
    let (b, (k, n)) =
      at_number st (suc start) i rest
        (heads (st.heap a).name (ts_name start) (names st rest)
          (consecutive (suc start) (length rest)) e).1
        (omega (arith, h)) in
    (b, (omega (arith, k), n ∙ ap ts_name (omega arith)))

number_of :
    (st : Store) (start : ℕ) (segs : List ℕ) (a : ℕ)
    → names st segs ≡ consecutive start (length segs)
    → 0 < count a segs
    → (n : ℕ) × ((start ≤ n) × (n < start + length segs) × ((st.heap a).name ≡ ts_name n))
unfolding count
number_of st start [] a e h = absurd (omega (arith, h))
number_of st start (b ∷ rest) a e h =
    let (p, ps) =
      heads (st.heap b).name (ts_name start) (names st rest) (consecutive (suc start) (length rest))
        e in
    elim (ℕ_discrete b a) [
      | yes q ↦ (start, (omega arith, omega arith, ap (λ i. (st.heap i).name) (sym q) ∙ p))
      | no d ↦
          let (n, (l, u, r)) = number_of st (suc start) rest a ps (ground (arith, h, d)) in
          (n, (omega (arith, l), omega (arith, u), r))
    ]

-- The number of a segment of the window.
abbrev pub InWindow : ℕ → Muxer → Type 0
InWindow n m = (m.seq_count < n + length m.segments) × (n ≤ m.seq_count)

in_window : (n : ℕ) (m : Muxer) → Dec (InWindow n m)
in_window n m = elim (dec_lt m.seq_count (n + length m.segments)) [
  | no h ↦ no (λ i. h i.0)
  | yes h ↦ elim (dec_le n m.seq_count) [ yes k ↦ yes (h, k) | no k ↦ no (λ i. k i.1) ]
]

find_segment_complete :
    (name : Bytes) (m : Muxer) (a : ℕ)
    → IsNamed m.store m.segments name a
    → find_segment name m ≢ none
unfolding find_segment
find_segment_complete name m a h z = elim (Option-cases (lookup bytes_discrete name m.seg_index)) [
  | inl e ↦ find_named_complete m.store name m.segments a h (ground (arith, z, e))
  | inr (b, e) ↦ none-ne-some b (ground (arith, z, e))
]

found_in :
    (n : ℕ) (m : Muxer)
    → HasWindow m
    → InWindow n m
    → (a : ℕ) × ((find_segment (ts_name n) m ≡ some a) × IsNamed m.store m.segments (ts_name n) a)
found_in n m w (h, k) =
    let start = suc m.seq_count - length m.segments in
    let (b, named) =
      at_number m.store start (n - start) m.segments w.numbered (omega (arith, h, k, w.counted)) in
    let named' =
      subst (λ i. IsNamed m.store m.segments (ts_name i) b) (omega (arith, h, w.counted)) named in
    elim (Option-cases (find_segment (ts_name n) m)) [
      | inl z ↦ absurd (find_segment_complete (ts_name n) m b named' z)
      | inr (a, e) ↦ (a, (e, find_segment_sound (ts_name n) m a w e))
    ]

missing_out : (n : ℕ) (m : Muxer) → HasWindow m → ¬ InWindow n m → find_segment (ts_name n) m ≡ none
missing_out n m w out = elim (Option-cases (find_segment (ts_name n) m)) [
  | inl z ↦ z
  | inr (a, e) ↦
      let (c, named) = find_segment_sound (ts_name n) m a w e in
      let (k, (l, u, r)) =
        number_of m.store (suc m.seq_count - length m.segments) m.segments a w.numbered c in
      let same : k ≡ n = ts_name_injective k n (sym r ∙ named) in
      absurd (out (omega (arith, l, same, w.counted), omega (arith, u, same, w.counted)))
]

-- What a request for a number gets.
abbrev pub Served : ℕ → Bytes → Bytes → Muxer → Type 0
Served n name mime m =
    (InWindow n m
      × ((a : ℕ) × ((0 < count a m.segments)
            × ((m.store.heap a).name ≡ ts_name n)
            × (acquire_segment name m ≡ (record m { store = retain a m.store }, some (a, mime))))))
    ⊎ ((¬ InWindow n m) × (acquire_segment name m ≡ (m, none)))

answer_to :
    (n : ℕ) (name mime : Bytes) (m : Muxer)
    → HasWindow m
    → ts_name_of name ≡ ts_name n
    → (if is_vtt name then codes "text/vtt" else codes "video/mp2t") ≡ mime
    → Served n name mime m
answer_to n name mime m w e kind = elim (in_window n m) [
  | yes i ↦
      let (a, (f, (c, named))) = found_in n m w i in
      inl (
        i,
        (
          a,
          (
            c,
            named,
            acquire_hit name m a (ap (λ t. find_segment t m) e ∙ f)
                ∙ ap (λ k. (record m { store = retain a m.store }, some (a, k))) kind,
          ),
        ),
      )
  | no out ↦ inr (out, acquire_miss name m (ap (λ t. find_segment t m) e ∙ missing_out n m w out))
]

-- For a muxer whose window is in order (`HasWindow`): a request for `stream_n.ts` gets the segment with that name, as video, and one more reference to it, if `n` is
-- one of the numbers of the window, which are the last ones up to the count; otherwise it gets nothing and
-- changes nothing. A request for `stream_n.vtt` gets the same segment, as subtitles.
pub acquire_segment-InWindow :
    (n : ℕ) (m : Muxer)
    → HasWindow m
    → Served n (ts_name n) (codes "video/mp2t") m × Served n (vtt_name n) (codes "text/vtt") m
acquire_segment-InWindow n m w = (
  answer_to n (ts_name n) (codes "video/mp2t") m w (ts_name_of-ts_name n)
      (ground (arith, ts_name-is_vtt n)),
  answer_to n (vtt_name n) (codes "text/vtt") m w (ts_name_of-vtt_name n)
      (ground (arith, vtt_name-is_vtt n)),
)
