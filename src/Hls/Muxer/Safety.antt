-- ===== src/Hls/Muxer/Safety.antt =====
-- The operations of a muxer on the segments that it shares with readers.
use native.Mathlib.Omega.{arith}
use mathlib.Core.Option.{none-ne-some}
use ruseon_core.Common.{
  ℕ, suc, ◌<◌, ◌≡◌, ◌≢◌, refl, sym, ap, ◌∙◌, subst, true, false, Option, none, some, List, [], ◌∷◌,
  ◌++◌, ◌&&◌, length, length-append, ltb, Bool-cases, Option-cases, ◌⊎◌, inl, inr,
}
use ruseon_core.Common.Bytes.{Bytes}
use ruseon_core.Common.Count.{count, count-append}
use ruseon_core.Common.Go.{add64}
use ruseon_core.Common.Int.{ℤ, pos, ltb_ℤ, ◌-ℤ◌}
use ruseon_core.Hls.Muxer.{
  Muxer, rebuild_playlists_locked, trim, push_segment, bridge, last, check_watchdog, silence,
}
use ruseon_core.Hls.Segments.{
  two32, write_segment, in_buffer, copied, Segment, Store, data_of, release, new_segment,
}
use ruseon_core.Hls.Segments.Arc.{IsValid, Keeps, IsSafe, recounted-IsValid, release-IsSafe}
use ruseon_core.Hls.Segments.Pool.{new_segment-IsSafe}

-- The references to segments are those of the window and those of the readers.
abbrev pub IsShared : Muxer → List ℕ → Option ℕ → Type 0
IsShared m held cur = IsValid m.store (m.segments ++ held) cur

-- From one store to another with what the readers hold kept.
abbrev pub KeepsHeld : List ℕ → Muxer → Muxer → Type 0
KeepsHeld held m m' = Keeps held m.store m'.store

pub Keeps-trans : (cs : List ℕ) (a b c : Store) → Keeps cs a b → Keeps cs b c → Keeps cs a c
unfolding Keeps
Keeps-trans cs a b c h k x l = k x l ∙ h x l

pub Keeps-refl : (cs : List ℕ) (a : Store) → Keeps cs a a
unfolding Keeps
Keeps-refl cs a x l = refl

-- Fewer references, fewer duties.
pub Keeps-part : (cs held : List ℕ) (a b : Store) → Keeps (cs ++ held) a b → Keeps held a b
unfolding Keeps
Keeps-part cs held a b h x l = h x (omega (arith, count-append x cs held, l))

pub List-cases : (xs : List ℕ) → (xs ≡ []) ⊎ ((a : ℕ) × (rest : List ℕ) × (xs ≡ a ∷ rest))
List-cases [] = inl refl
List-cases (a ∷ rest) = inr (a, rest, refl)

pub trim_over :
    (a : ℕ) (rest : List ℕ) (m : Muxer)
    → m.segments ≡ a ∷ rest
    → ltb m.max_segments (length m.segments) ≡ true
    → trim m ≡ record m { store = release a m.store; segments = rest }
unfolding trim
trim_over a rest m e t = rw t (rw (e, trim) refl)

pub trim_within : (m : Muxer) → ltb m.max_segments (length m.segments) ≡ false → trim m ≡ m
unfolding trim
trim_within m t = rw t refl

-- A muxer that can follow another.
unfoldable pub IsSafeFor : List ℕ → Option ℕ → Muxer → Muxer → Type 0
IsSafeFor held cur m m' = IsShared m' held cur × KeepsHeld held m m'

trim-IsSafe :
    (held : List ℕ) (cur : Option ℕ) (m : Muxer)
    → IsShared m held cur
    → IsSafeFor held cur m (trim m)
unfolding IsSafe IsSafeFor
trim-IsSafe held cur m v = elim (Bool-cases (ltb m.max_segments (length m.segments))) [
  | inr f ↦ subst (IsSafeFor held cur m) (sym (trim_within m f)) (v, Keeps-refl held m.store)
  | inl t ↦ elim (List-cases m.segments) [
    | inl e ↦ let z : length m.segments ≡ 0 = ap length e in absurd (ground (arith, t, z))
    | inr (a, rest, e) ↦
        let (valid, kept) =
          release-IsSafe a (rest ++ held) cur m.store
            (subst (λ xs. IsValid m.store (xs ++ held) cur) e v) in
        subst (IsSafeFor held cur m) (sym (trim_over a rest m e t))
          (valid, Keeps-part rest held m.store (release a m.store) kept)
  ]
]

count_behind :
    (a x : ℕ) (xs held : List ℕ) → count x ((xs ++ (a ∷ [])) ++ held) ≡ count x (a ∷ (xs ++ held))
unfolding count
count_behind a x xs held = omega (
  arith,
  count-append x (xs ++ (a ∷ [])) held,
  count-append x xs (a ∷ []),
  count-append x xs held,
)

length_behind :
    (a : ℕ) (xs held : List ℕ) → length ((xs ++ (a ∷ [])) ++ held) ≡ suc (length (xs ++ held))
length_behind a xs held =
    omega
      (arith, length-append (xs ++ (a ∷ [])) held, length-append xs (a ∷ []), length-append xs held)

copied-ne-in_buffer : (bs : Bytes) (b n : ℕ) → copied bs ≢ in_buffer b n
copied-ne-in_buffer bs b n e = cc

-- A segment that takes over the current buffer, or that has none.
pub record IsReady (seg : Segment) (cur cur' : Option ℕ) : Type 0 where
  pub owner : (b : ℕ) → seg.buf ≡ some b → (cur ≡ some b) × (cur' ≡ none)
  pub current : (b : ℕ) → cur' ≡ some b → cur ≡ some b
  pub slice : (b n : ℕ) → seg.bytes ≡ in_buffer b n → seg.buf ≡ some b

module _ (append_float : ℤ → Bytes) (held : List ℕ) where
  pub push_segment-IsSafe :
      (seg : Segment) (cur cur' : Option ℕ) (m : Muxer)
      → IsShared m held cur
      → suc (length (m.segments ++ held)) < two32
      → IsReady seg cur cur'
      → IsSafeFor held cur' m (push_segment append_float seg m)
  unfolding push_segment rebuild_playlists_locked IsSafeFor new_segment write_segment
  push_segment-IsSafe seg cur cur' m v small r =
      let (grown, kept) =
        new_segment-IsSafe seg m.store (m.segments ++ held) cur cur' v small r.owner r.current
          r.slice in
      let a = m.store.next_segment in
      let m' = record m {
        store = (new_segment seg m.store).0;
        segments = m.segments ++ (a ∷ []);
        first_seg_ready = true;
      } in
      let valid =
        recounted-IsValid (a ∷ (m.segments ++ held)) ((m.segments ++ (a ∷ [])) ++ held) cur'
          m'.store grown (length_behind a m.segments held)
          (λ x. count_behind a x m.segments held) in
      let (trimmed, kept') = trim-IsSafe held cur' m' valid in
      (
        trimmed,
        Keeps-trans held m.store m'.store (trim m').store
            (Keeps-part m.segments held m.store m'.store kept) kept',
      )

  -- The watchdog does nothing, or it bridges an interruption behind the last segment.
  abbrev bridged : ℤ → ℕ → Muxer → Muxer
  bridged now a m =
      record (push_segment append_float (bridge a m)
        (record m { seq_count = add64 m.seq_count 1 })) {
          last_frame_time = now;
          needs_discontinuity = true;
        }

  pub watchdog-cases :
      (now : ℤ) (m : Muxer)
      → (check_watchdog append_float now m ≡ m)
        ⊎ ((a : ℕ) × (last m.segments ≡ some a)
            × (check_watchdog append_float now m ≡ bridged now a m))
  unfolding check_watchdog
  watchdog-cases now m =
      elim (Bool-cases
        (ltb_ℤ (pos 0) m.last_frame_time && ltb_ℤ (silence) (now -ℤ m.last_frame_time))) [
          | inr f ↦ inl (rw f refl)
          | inl t ↦ elim (Option-cases (last m.segments)) [
            | inl e ↦ inl (rw t (rw e refl))
            | inr (a, e) ↦ inr (a, e, rw t (rw e refl))
          ]
        ]

  pub check_watchdog-IsSafe :
      (now : ℤ) (cur : Option ℕ) (m : Muxer)
      → IsShared m held cur
      → suc (length (m.segments ++ held)) < two32
      → IsSafeFor held cur m (check_watchdog append_float now m)
  unfolding IsSafeFor bridge
  check_watchdog-IsSafe now cur m v small = elim (watchdog-cases now m) [
    | inl e ↦ subst (IsSafeFor held cur m) (sym e) (v, Keeps-refl held m.store)
    | inr (a, l, e) ↦ subst (IsSafeFor held cur m) (sym e) (
        push_segment-IsSafe (bridge a m) cur cur (record m { seq_count = add64 m.seq_count 1 }) v
          small
          record {
            owner = λ b h. absurd (none-ne-some b h);
            current = λ b h. h;
            slice = λ b n h. absurd (copied-ne-in_buffer (data_of m.store a) b n h);
          })
  ]
