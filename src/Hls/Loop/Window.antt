-- ===== src/Hls/Loop/Window.antt =====
-- The steps of the loop on the window.
use native.Mathlib.Omega.{arith}
use ruseon_core.Common.{
  ℕ, suc, ◌<◌, ◌≤◌, ◌≡◌, refl, sym, ap, subst, Bool, Option, none, some, [], false, ltb, inl, inr,
  Bool-cases,
}
use ruseon_core.Buffer.{Frame, CodecParams}
use ruseon_core.Common.Bytes.{Bytes}
use ruseon_core.Common.Count.{count}
use ruseon_core.Common.Go.{add64, two64}
use ruseon_core.Common.Int.{ℤ}
use ruseon_core.Hls.Loop.{
  TsWriter, Locals, note_time, note_params, close_segment, open_buffer, write_frame, on_frame,
  finished, publish, refresh,
}
use ruseon_core.Hls.Loop.Cases.{
  close-cases, open-cases, opened, write-cases, written, note_time-cases,
}
use ruseon_core.Hls.Muxer.{Muxer}
use ruseon_core.Hls.Muxer.Window.{
  HasWindow, SameNames, renamed, Advances, push_segment-Advances, next_count,
}
use ruseon_core.Hls.Playlist.{ts_name}
use ruseon_core.Hls.Segments.{Store, get_buffer, append_to}

get_buffer-SameNames : (choice : Option ℕ) (st : Store) → SameNames st (get_buffer choice st).0
unfolding SameNames get_buffer
get_buffer-SameNames none st a = refl
get_buffer-SameNames (some b) st a = elim (Bool-cases (ltb 0 (count b st.pool))) [
  | inl t ↦ rw t refl
  | inr f ↦ rw f refl
]

module _ (ts : TsWriter) (append_float : ℤ → Bytes) (f : Frame) where
  publish-Advances :
      (b : ℕ) (start : ℤ) (m : Muxer)
      → HasWindow m
      → ((x : ℕ) → m.store.next_segment ≤ x → count x m.segments ≡ 0)
      → suc m.seq_count < two64
      → Advances append_float 1 m (publish append_float b f start m)
  unfolding publish finished
  publish-Advances b start m w fresh small =
      let r =
        push_segment-Advances append_float (finished b f start m) m.seq_count
          (record m {
            seq_count = add64 m.seq_count 1;
            current_meta = [];
            needs_discontinuity = false;
          })
          w fresh (next_count append_float m small)
          (ap ts_name (next_count append_float m small)) in
      record {
        window = r.window;
        slow = omega (arith, r.slow, next_count append_float m small);
        same_max = r.same_max;
      }

  close_segment-Advances :
      (l : Locals ts.Writer) (m : Muxer)
      → HasWindow m
      → ((x : ℕ) → m.store.next_segment ≤ x → count x m.segments ≡ 0)
      → suc m.seq_count < two64
      → Advances append_float 1 m (close_segment ts append_float f l m).1
  close_segment-Advances l m w fresh small = elim (close-cases ts append_float f l m) [
    | inl e ↦
        subst (λ r. Advances append_float 1 m r.1) (sym e)
          record { window = w; slow = omega arith; same_max = refl }
    | inr (b, e, due, r) ↦
        subst (λ r. Advances append_float 1 m r.1) (sym r)
          (publish-Advances b l.segment_start m w fresh small)
  ]

  open_buffer-Advances :
      (choice : Option ℕ) (l : Locals ts.Writer) (m0 m : Muxer)
      → Advances append_float 1 m0 m
      → Advances append_float 1 m0 (open_buffer ts append_float choice f l m).1
  open_buffer-Advances choice l m0 m r = elim (open-cases ts append_float f l m choice) [
    | inl e ↦ subst (λ q. Advances append_float 1 m0 q.1) (sym e) r
    | inr (e, q) ↦
        subst (λ q. Advances append_float 1 m0 q.1) (sym q)
          record {
            window =
                renamed m.store ((opened ts append_float f l m choice).1).store m.max_segments
                  m.segments m.seq_count m.seg_index
                  (unfold SameNames append_to in
                    λ a. unfold SameNames in get_buffer-SameNames choice m.store a)
                  r.window;
            slow = r.slow;
            same_max = r.same_max;
          }
  ]

  write_frame-Advances :
      (l : Locals ts.Writer) (m0 m : Muxer)
      → Advances append_float 1 m0 m
      → Advances append_float 1 m0 (write_frame ts append_float f l m).1
  write_frame-Advances l m0 m r = elim (write-cases ts append_float f l m) [
    | inl e ↦ subst (λ q. Advances append_float 1 m0 q.1) (sym e) r
    | inr (b, w, e, q) ↦
        subst (λ q. Advances append_float 1 m0 q.1) (sym q)
          record {
            window =
                renamed m.store ((written ts append_float f l m b w).1).store m.max_segments
                  m.segments m.seq_count m.seg_index (unfold SameNames append_to in λ a. refl)
                  r.window;
            slow = r.slow;
            same_max = r.same_max;
          }
  ]

  -- What a frame changes before the end of a segment.
  noted_muxer :
      (p : Option CodecParams) (now : ℤ) (l : Locals ts.Writer) (m : Muxer)
      → (t : ℤ) × (d : Bool) × ((note_params ts append_float f p
            (note_time ts append_float f now l m).0
            (note_time ts append_float f now l m).1).1
          ≡ record m { last_frame_time = t; needs_discontinuity = d })
  unfolding note_params
  noted_muxer p now l m = elim (note_time-cases ts append_float f l m now) [
    | inl e ↦ (now, _, ap (λ r. (note_params ts append_float f p r.0 r.1).1) e)
    | inr e ↦ (m.last_frame_time, _, ap (λ r. (note_params ts append_float f p r.0 r.1).1) e)
  ]

  pub on_frame-Advances :
      (first second : Option CodecParams) (now : ℤ) (choice : Option ℕ) (l : Locals ts.Writer)
      (m : Muxer)
      → HasWindow m
      → ((x : ℕ) → m.store.next_segment ≤ x → count x m.segments ≡ 0)
      → suc m.seq_count < two64
      → Advances append_float 1 m (on_frame ts append_float first second now choice f l m).1
  unfolding on_frame
  on_frame-Advances first second now choice l m w fresh small =
      let l0 = record l { codec = refresh first l.codec } in
      let r1 = note_time ts append_float f now l0 m in
      let r2 = note_params ts append_float f second r1.0 r1.1 in
      let r3 = close_segment ts append_float f r2.0 r2.1 in
      let r4 = open_buffer ts append_float choice f r3.0 r3.1 in
      let (t, d, e) = noted_muxer second now l0 m in
      let m2 = record m { last_frame_time = t; needs_discontinuity = d } in
      let s = close_segment-Advances r2.0 m2 w fresh small in
      write_frame-Advances r4.0 m r4.1 (
        open_buffer-Advances choice r3.0 m r3.1 (
          subst (λ k. Advances append_float 1 m (close_segment ts append_float f r2.0 k).1) (sym e)
            record { window = s.window; slow = s.slow; same_max = s.same_max }))
