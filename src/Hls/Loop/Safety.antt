-- ===== src/Hls/Loop/Safety.antt =====
-- The steps of the loop on the segments that the muxer shares with readers.
use native.Mathlib.Omega.{arith}
use mathlib.Core.Option.{none-ne-some}
use ruseon_core.Common.{
  ℕ, suc, ◌<◌, ◌≡◌, refl, sym, ap, subst, false, Option, none, some, List, [], ◌++◌, length, inl,
  inr,
}
use ruseon_core.Buffer.{Frame, CodecParams}
use ruseon_core.Common.Bytes.{Bytes}
use ruseon_core.Common.Go.{add64}
use ruseon_core.Common.Int.{ℤ}
use ruseon_core.Hls.Loop.{
  TsWriter, Locals, note_time, note_params, close_segment, open_buffer, write_frame, on_frame,
  finished, publish, refresh, is_some, with_params,
}
use ruseon_core.Hls.Loop.Cases.{
  close-cases, open-cases, opened, write-cases, note_time-cases, written,
}
use ruseon_core.Hls.Muxer.{Muxer}
use ruseon_core.Hls.Muxer.Safety.{
  IsShared, IsSafeFor, Keeps-trans, Keeps-refl, Keeps-part, push_segment-IsSafe,
}
use ruseon_core.Hls.Segments.{two32, in_buffer, get_buffer}
use ruseon_core.Hls.Segments.Arc.{IsSafe}
use ruseon_core.Rtsp.Timestamp.{duration_to90k}
use ruseon_core.Hls.Segments.Pool.{get_buffer-IsSafe, append_to-IsSafe}

in_buffer-injective : (b c k n : ℕ) → in_buffer b k ≡ in_buffer c n → b ≡ c
in_buffer-injective b c k n e = cc

module _ (ts : TsWriter) (append_float : ℤ → Bytes) (held : List ℕ) where
  -- A step from a muxer to the locals and the muxer that it returns.
  abbrev pub StepsTo : Muxer → Locals ts.Writer × Muxer → Type 0
  StepsTo m r = IsSafeFor held (r.0).current_buf m r.1

  stays : (l : Locals ts.Writer) (m : Muxer) → IsShared m held l.current_buf → StepsTo m (l, m)
  unfolding IsSafeFor
  stays l m v = (v, Keeps-refl held m.store)

  StepsTo-trans :
      (a b c : Muxer) (l l' : Locals ts.Writer)
      → StepsTo a (l, b)
      → StepsTo b (l', c)
      → StepsTo a (l', c)
  unfolding IsSafeFor
  StepsTo-trans a b c l l' (v, k) (v', k') = (v', Keeps-trans held a.store b.store c.store k k')

  publish-IsSafe :
      (b : ℕ) (f : Frame) (start : ℤ) (m : Muxer)
      → IsShared m held (some b)
      → suc (length (m.segments ++ held)) < two32
      → IsSafeFor held none m (publish append_float b f start m)
  unfolding publish finished IsSafeFor
  publish-IsSafe b f start m v small =
      push_segment-IsSafe append_float held (finished b f start m) (some b) none
        (record m {
          seq_count = add64 m.seq_count 1;
          current_meta = [];
          needs_discontinuity = false;
        })
        v small
        record {
          owner = λ c h. (h, refl);
          current = λ c h. absurd (none-ne-some c h);
          slice = λ c n h. ap some (in_buffer-injective b c (length (m.store.buffers b)) n h);
        }

  close_segment-IsSafe :
      (f : Frame) (l : Locals ts.Writer) (m : Muxer)
      → IsShared m held l.current_buf
      → suc (length (m.segments ++ held)) < two32
      → StepsTo m (close_segment ts append_float f l m)
  close_segment-IsSafe f l m v small = elim (close-cases ts append_float f l m) [
    | inl e ↦ subst (StepsTo m) (sym e) (stays l m v)
    | inr (b, e, due, r) ↦
        subst (StepsTo m) (sym r)
          (publish-IsSafe b f l.segment_start m (subst (IsShared m held) e v) small)
  ]

  open_buffer-IsSafe :
      (choice : Option ℕ) (f : Frame) (l : Locals ts.Writer) (m : Muxer)
      → IsShared m held l.current_buf
      → StepsTo m (open_buffer ts append_float choice f l m)
  unfolding IsSafe IsSafeFor
  open_buffer-IsSafe choice f l m v = elim (open-cases ts append_float f l m choice) [
    | inl e ↦ subst (StepsTo m) (sym e) (stays l m v)
    | inr (e, r) ↦
        let out = get_buffer choice m.store in
        let head = ((opened ts append_float f l m choice).1).store in
        let (v1, k1) =
          get_buffer-IsSafe choice (m.segments ++ held) m.store (subst (IsShared m held) e v) in
        let (v2, k2) =
          append_to-IsSafe out.1 (ts.new_writer (is_some l.codec.vps)).1 (m.segments ++ held) out.0
            v1 in
        subst (StepsTo m) (sym r) (
          v2,
          Keeps-part m.segments held m.store head
              (Keeps-trans (m.segments ++ held) m.store out.0 head k1 k2),
        )
  ]

  write_frame-IsSafe :
      (f : Frame) (l : Locals ts.Writer) (m : Muxer)
      → IsShared m held l.current_buf
      → StepsTo m (write_frame ts append_float f l m)
  unfolding IsSafe IsSafeFor
  write_frame-IsSafe f l m v = elim (write-cases ts append_float f l m) [
    | inl e ↦ subst (StepsTo m) (sym e) (stays l m v)
    | inr (b, w, e, r) ↦
        let out = written ts append_float f l m b w in
        let pts = duration_to90k f.timestamp in
        let bs =
          (ts.write_h26x pts pts f.is_key_frame (with_params l.codec f.is_key_frame f.nalus) w).1 in
        let (v1, k1) =
          append_to-IsSafe b bs (m.segments ++ held) m.store (subst (IsShared m held) e v) in
        subst (StepsTo m) (sym r) (v1, Keeps-part m.segments held m.store (out.1).store k1)
  ]

  note_time-IsSafe :
      (f : Frame) (now : ℤ) (l : Locals ts.Writer) (m : Muxer)
      → IsShared m held l.current_buf
      → StepsTo m (note_time ts append_float f now l m)
  unfolding IsSafeFor
  note_time-IsSafe f now l m v = elim (note_time-cases ts append_float f l m now) [
    | inl e ↦ subst (StepsTo m) (sym e) (v, Keeps-refl held m.store)
    | inr e ↦ subst (StepsTo m) (sym e) (v, Keeps-refl held m.store)
  ]

  note_params-IsSafe :
      (f : Frame) (p : Option CodecParams) (l : Locals ts.Writer) (m : Muxer)
      → IsShared m held l.current_buf
      → StepsTo m (note_params ts append_float f p l m)
  unfolding IsSafeFor note_params
  note_params-IsSafe f p l m v = (v, Keeps-refl held m.store)

  shared :
      (m : Muxer) (r : Locals ts.Writer × Muxer) → StepsTo m r → IsShared r.1 held (r.0).current_buf
  unfolding IsSafeFor
  shared m r (v, k) = v

  -- A step before the end of a segment leaves the window as it is.
  noted-segments :
      (f : Frame) (p : Option CodecParams) (now : ℤ) (l : Locals ts.Writer) (m : Muxer)
      → (let (l1, m1) = note_time ts append_float f now l m in
          (note_params ts append_float f p l1 m1).1.segments ≡ m.segments)
  unfolding note_params note_time
  noted-segments f p now l m = ground arith

  pub on_frame-IsSafe :
      (first second : Option CodecParams) (now : ℤ) (choice : Option ℕ) (f : Frame)
      (l : Locals ts.Writer) (m : Muxer)
      → IsShared m held l.current_buf
      → suc (length (m.segments ++ held)) < two32
      → StepsTo m (on_frame ts append_float first second now choice f l m)
  unfolding on_frame
  on_frame-IsSafe first second now choice f l m v small =
      let l0 = record l { codec = refresh first l.codec } in
      let r1 = note_time ts append_float f now l0 m in
      let r2 = note_params ts append_float f second r1.0 r1.1 in
      let r3 = close_segment ts append_float f r2.0 r2.1 in
      let r4 = open_buffer ts append_float choice f r3.0 r3.1 in
      let r5 = write_frame ts append_float f r4.0 r4.1 in
      let s1 = note_time-IsSafe f now l0 m v in
      let s2 = note_params-IsSafe f second r1.0 r1.1 (shared m r1 s1) in
      let small2 =
        subst (λ xs. suc (length (xs ++ held)) < two32) (sym (noted-segments f second now l0 m))
          small in
      let s3 = close_segment-IsSafe f r2.0 r2.1 (shared r1.1 r2 s2) small2 in
      let s4 = open_buffer-IsSafe choice f r3.0 r3.1 (shared r2.1 r3 s3) in
      let s5 = write_frame-IsSafe f r4.0 r4.1 (shared r3.1 r4 s4) in
      StepsTo-trans m r1.1 r5.1 r1.0 r5.0 s1 (
        StepsTo-trans r1.1 r2.1 r5.1 r2.0 r5.0 s2 (
          StepsTo-trans r2.1 r3.1 r5.1 r3.0 r5.0 s3 (StepsTo-trans r3.1 r4.1 r5.1 r4.0 r5.0 s4 s5)))
