-- ===== src/Hls/Muxer/Window.antt =====
-- The window of a muxer: which segments it has, what they are called, and where the index finds them.
use native.Mathlib.Omega.{arith}
use ruseon_core.Common.{
  ℕ, zero, suc, ◌+◌, ◌-◌, ◌<◌, ◌≤◌, ◌≡◌, refl, sym, ap, ◌∙◌, subst, true, List, [], ◌∷◌, ◌++◌,
  length, length-append, ltb, Bool-cases, Option-cases, inl, inr, ℕ_discrete, ◌==◌,
}
use ruseon_core.Common.Bytes.{Bytes, bytes_discrete}
use ruseon_core.Common.Count.{count}
use ruseon_core.Common.Dict.{Dict, insert}
use ruseon_core.Common.Go.{add64, two64}
use ruseon_core.Common.Heap.{update_ne, update_self, update-ap}
use ruseon_core.Common.Int.{ℤ}
use ruseon_core.Hls.Muxer.{
  Muxer, index_all, rebuild_playlists_locked, trim, push_segment, bridge, check_watchdog, stop,
}
use ruseon_core.Hls.Muxer.Safety.{List-cases, trim_over, trim_within, watchdog-cases}
use ruseon_core.Hls.Playlist.{ts_name}
use ruseon_core.Hls.Segments.{Segment, Store, write_segment, retain, release, new_segment}
use ruseon_core.Hls.Segments.Arc.{left, recount, emptied, release_last, release_copy, release_more}

-- The names of `k` segments from the `n`th on.
abbrev pub consecutive : ℕ → ℕ → List Bytes
consecutive n zero = []
consecutive n (suc k) = ts_name n ∷ consecutive (suc n) k

abbrev pub names : Store → List ℕ → List Bytes
names st [] = []
names st (a ∷ rest) = (st.heap a).name ∷ names st rest

-- The segments are the last ones up to the count, no more than the limit, and the index is theirs.
pub record IsWindow (st : Store) (max : ℕ) (segs : List ℕ) (seq : ℕ) (index : Dict Bytes ℕ)
    : Type 0 where
  pub few : length segs ≤ max
  pub counted : length segs ≤ seq
  pub numbered : names st segs ≡ consecutive (suc seq - length segs) (length segs)
  pub indexed : index ≡ index_all st segs []

abbrev pub HasWindow : Muxer → Type 0
HasWindow m = IsWindow m.store m.max_segments m.segments m.seq_count m.seg_index

-- Names do not change.
unfoldable pub SameNames : Store → Store → Type 0
SameNames st st' = (a : ℕ) → (st'.heap a).name ≡ (st.heap a).name

pub retain-SameNames : (a : ℕ) (st : Store) → SameNames st (retain a st)
unfolding SameNames retain write_segment
retain-SameNames a st x =
    update-ap ℕ_discrete (λ seg. seg.name) st.heap a x (record (st.heap a) { ref_count = _ }) refl

pub release-SameNames : (a : ℕ) (st : Store) → SameNames st (release a st)
unfolding SameNames
release-SameNames a st x = elim (Bool-cases (left a st == 0)) [
  | inr more ↦ ap (λ st'. (st'.heap x).name) (release_more a st more) ∙ recounted
  | inl last ↦ elim (Option-cases (st.heap a).buf) [
    | inl e ↦ ap (λ st'. (st'.heap x).name) (release_copy a st last e) ∙ recounted
    | inr (b, e) ↦
        ap (λ st'. (st'.heap x).name) (release_last a b st last e)
        ∙ update-ap ℕ_discrete (λ seg. seg.name) st.heap a x (emptied a st) refl
  ]
]
  where
    recounted : ((recount a (left a st) st).heap x).name ≡ (st.heap x).name
    recounted =
        update-ap ℕ_discrete (λ seg. seg.name) st.heap a x
          (record (st.heap a) { ref_count = left a st }) refl

names-agree :
    (st st' : Store) (segs : List ℕ)
    → ((a : ℕ) → 0 < count a segs → (st'.heap a).name ≡ (st.heap a).name)
    → names st' segs ≡ names st segs
unfolding count
names-agree st st' [] h = refl
names-agree st st' (a ∷ rest) h =
    let e : (st'.heap a).name ≡ (st.heap a).name = h a (ground arith) in
    let es : names st' rest ≡ names st rest =
      names-agree st st' rest (λ x k. h x (ground (arith, k))) in
    cc

index_all-agree :
    (st st' : Store) (segs : List ℕ) (index : Dict Bytes ℕ)
    → SameNames st st'
    → index_all st' segs index ≡ index_all st segs index
unfolding index_all SameNames
index_all-agree st st' [] index h = refl
index_all-agree st st' (a ∷ rest) index h =
    ap (λ n. index_all st' rest (insert bytes_discrete n a index)) (h a)
    ∙ index_all-agree st st' rest (insert bytes_discrete (st.heap a).name a index) h

-- A window stays one when names stay.
pub renamed :
    (st st' : Store) (max : ℕ) (segs : List ℕ) (seq : ℕ) (index : Dict Bytes ℕ)
    → SameNames st st'
    → IsWindow st max segs seq index
    → IsWindow st' max segs seq index
unfolding SameNames
renamed st st' max segs seq index h w = record {
  few = w.few;
  counted = w.counted;
  numbered = names-agree st st' segs (λ a k. h a) ∙ w.numbered;
  indexed = w.indexed ∙ sym (index_all-agree st st' segs [] h);
}

names-append : (st : Store) (xs ys : List ℕ) → names st (xs ++ ys) ≡ names st xs ++ names st ys
names-append st [] ys = refl
names-append st (a ∷ xs) ys = ap (λ ns. (st.heap a).name ∷ ns) (names-append st xs ys)

consecutive_last : (n k : ℕ) → consecutive n (suc k) ≡ consecutive n k ++ (ts_name (n + k) ∷ [])
consecutive_last n zero = ap (λ i. ts_name i ∷ []) (omega arith)
consecutive_last n (suc k) =
    ap (λ ns. ts_name n ∷ ns)
      (consecutive_last (suc n) k
        ∙ ap (λ i. consecutive (suc n) k ++ (ts_name i ∷ [])) (omega arith))

-- The numbering alone.
abbrev IsNumbered : Store → List ℕ → ℕ → Type 0
IsNumbered st segs seq =
    (length segs ≤ seq) × (names st segs ≡ consecutive (suc seq - length segs) (length segs))

extends_numbers :
    (st st' : Store) (a : ℕ) (segs : List ℕ) (seq : ℕ)
    → IsNumbered st segs seq
    → ((x : ℕ) → 0 < count x segs → (st'.heap x).name ≡ (st.heap x).name)
    → (st'.heap a).name ≡ ts_name (suc seq)
    → IsNumbered st' (segs ++ (a ∷ [])) (suc seq)
extends_numbers st st' a segs seq (counted, numbered) same named =
    let k = length segs in
    let n : length (segs ++ (a ∷ [])) ≡ suc k = omega (arith, length-append segs (a ∷ [])) in
    let start : suc seq - k + k ≡ suc seq = omega (arith, counted) in
    (
      omega (arith, n, counted),
      names-append st' segs (a ∷ [])
          ∙ ap (λ ns. ns ++ ((st'.heap a).name ∷ [])) (names-agree st st' segs same ∙ numbered)
          ∙ ap (λ i. consecutive (suc seq - k) k ++ (i ∷ [])) (named ∙ ap ts_name (sym start))
          ∙ sym (consecutive_last (suc seq - k) k)
          ∙ ap (λ i. consecutive i (suc k)) (omega arith)
          ∙ ap (λ i. consecutive (suc (suc seq) - i) i) (sym n),
    )

tail_eq : (x y : Bytes) (xs ys : List Bytes) → x ∷ xs ≡ y ∷ ys → xs ≡ ys
tail_eq x y xs ys e = cc

drops_number :
    (st : Store) (a : ℕ) (rest : List ℕ) (seq : ℕ)
    → IsNumbered st (a ∷ rest) seq
    → IsNumbered (release a st) rest seq
drops_number st a rest seq (counted, numbered) =
    let k = length rest in
    (
      omega (arith, counted),
      names-agree st (release a st) rest (λ x h. unfold SameNames in release-SameNames a st x)
          ∙ tail_eq (st.heap a).name (ts_name (suc seq - suc k)) (names st rest)
              (consecutive (suc (suc seq - suc k)) k) numbered
          ∙ ap (λ i. consecutive i k) (omega (arith, counted)),
    )

module _ (append_float : ℤ → Bytes) where
  -- What the steps make of the window: still one, of a muxer with the same limit, and the count is at most `k` higher.
  pub record Advances (k : ℕ) (m m' : Muxer) : Type 0 where
    pub window : HasWindow m'
    pub slow : m'.seq_count ≤ k + m.seq_count
    pub same_max : m'.max_segments ≡ m.max_segments

  trim-Advances :
      (m : Muxer)
      → length m.segments ≤ suc m.max_segments
      → IsNumbered m.store m.segments m.seq_count
      → Advances 0 m (rebuild_playlists_locked append_float (trim m))
  unfolding rebuild_playlists_locked
  trim-Advances m few n = elim (Bool-cases (ltb m.max_segments (length m.segments))) [
    | inr f ↦ subst P (sym (trim_within m f)) record {
      window = record { few = ground (arith, f); counted = n.0; numbered = n.1; indexed = refl };
      slow = omega arith;
      same_max = refl;
    }
    | inl t ↦ elim (List-cases m.segments) [
      | inl e ↦ let z : length m.segments ≡ 0 = ap length e in absurd (ground (arith, t, z))
      | inr (a, rest, e) ↦
          let (counted, numbered) =
            drops_number m.store a rest m.seq_count
              (subst (λ xs. IsNumbered m.store xs m.seq_count) e n) in
          let z : length m.segments ≡ suc (length rest) = ap length e in
          subst P (sym (trim_over a rest m e t)) record {
            window = record {
              few = omega (arith, few, z);
              counted = counted;
              numbered = numbered;
              indexed = refl;
            };
            slow = omega arith;
            same_max = refl;
          }
    ]
  ]
    where
      P : Muxer → Type 0
      P m' = Advances 0 m (rebuild_playlists_locked append_float m')

  -- For a count that has just gone up.
  pub push_segment-Advances :
      (seg : Segment) (n : ℕ) (m : Muxer)
      → IsWindow m.store m.max_segments m.segments n m.seg_index
      → ((x : ℕ) → m.store.next_segment ≤ x → count x m.segments ≡ 0)
      → m.seq_count ≡ suc n
      → seg.name ≡ ts_name (suc n)
      → Advances 0 m (push_segment append_float seg m)
  unfolding push_segment new_segment write_segment
  push_segment-Advances seg n m w fresh e named =
      let a = m.store.next_segment in
      let st' = (new_segment seg m.store).0 in
      let m' = record m {
        store = st';
        segments = m.segments ++ (a ∷ []);
        first_seg_ready = true;
      } in
      let r = trim-Advances m' (omega (arith, w.few, length-append m.segments (a ∷ []))) (
        subst (IsNumbered st' (m.segments ++ (a ∷ []))) (sym e) (
          extends_numbers m.store st' a m.segments n (w.counted, w.numbered)
            (λ x h.
              ap (λ s. s.name)
                (update_ne ℕ_discrete m.store.heap a x (record seg { ref_count = 1 })
                  (λ p. absurd (omega (arith, h, fresh x (omega (arith, p)))))))
            (ap (λ s. s.name) (update_self ℕ_discrete m.store.heap a (record seg { ref_count = 1 }))
              ∙ named))) in
      record { window = r.window; slow = r.slow; same_max = r.same_max }

  pub next_count : (m : Muxer) → suc m.seq_count < two64 → add64 m.seq_count 1 ≡ suc m.seq_count
  next_count m h = omega (arith, h)

  pub check_watchdog-Advances :
      (now : ℤ) (m : Muxer)
      → HasWindow m
      → ((x : ℕ) → m.store.next_segment ≤ x → count x m.segments ≡ 0)
      → suc m.seq_count < two64
      → Advances 1 m (check_watchdog append_float now m)
  unfolding bridge
  check_watchdog-Advances now m w fresh small = elim (watchdog-cases append_float [] now m) [
    | inl e ↦
        subst (Advances 1 m) (sym e) record { window = w; slow = omega arith; same_max = refl }
    | inr (a, l, e) ↦
        let r =
          push_segment-Advances (bridge a m) m.seq_count
            (record m { seq_count = add64 m.seq_count 1 }) w fresh (next_count m small)
            (ap ts_name (next_count m small)) in
        subst (Advances 1 m) (sym e) record {
          window = r.window;
          slow = omega (arith, r.slow, next_count m small);
          same_max = r.same_max;
        }
  ]

  pub stop-Advances : (m : Muxer) → Advances 0 m (stop m)
  unfolding stop
  stop-Advances m = record {
    window = record {
      few = omega arith;
      counted = omega arith;
      numbered = refl;
      indexed = unfold index_all in refl;
    };
    slow = omega arith;
    same_max = refl;
  }
