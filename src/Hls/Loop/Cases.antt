-- ===== src/Hls/Loop/Cases.antt =====
-- The branches of the steps of the loop, each with the condition that leads to it.
use native.Mathlib.Omega.{arith}
use ruseon_core.Common.{
  ℕ, ◌+◌, ◌≡◌, refl, ap, true, ◌||◌, Option, none, some, leb, Bool-cases, Option-cases, ◌⊎◌, inl,
  inr,
}
use ruseon_core.Buffer.{Frame}
use ruseon_core.Common.Bytes.{Bytes}
use ruseon_core.Common.Int.{ℤ}
use ruseon_core.Hls.Loop.{
  TsWriter, Locals, note_time, close_segment, open_buffer, write_frame, is_due, publish, is_some,
  with_params,
}
use ruseon_core.Hls.Muxer.{Muxer}
use ruseon_core.Hls.Segments.{get_buffer, append_to}
use ruseon_core.Rtsp.Timestamp.{duration_to90k}

module _ (ts : TsWriter) (append_float : ℤ → Bytes) (f : Frame) (l : Locals ts.Writer)
    (m : Muxer) where
  abbrev pub closed : ℕ → Locals ts.Writer × Muxer
  closed b = (record l { current_buf = none }, publish append_float b f l.segment_start m)

  pub close-cases :
      (close_segment ts append_float f l m ≡ (l, m))
      ⊎ ((b : ℕ) × (l.current_buf ≡ some b)
          × (is_due f l.segment_start m ≡ true)
          × (close_segment ts append_float f l m ≡ closed b))
  unfolding close_segment
  close-cases = elim (Option-cases l.current_buf) [
    | inl e ↦ inl (ground arith)
    | inr (b, e) ↦ elim (Bool-cases (is_due f l.segment_start m)) [
      | inr n ↦ inl (ground arith)
      | inl t ↦ inr (b, e, t, rw (e, close_segment) (rw t refl))
    ]
  ]

  abbrev pub opened : Option ℕ → Locals ts.Writer × Muxer
  opened choice = (
    record l {
      current_buf = some (get_buffer choice m.store).1;
      ts_writer = some (ts.new_writer (is_some l.codec.vps)).0;
      segment_start = f.timestamp;
    },
    record m {
      store =
          append_to (get_buffer choice m.store).1 (ts.new_writer (is_some l.codec.vps)).1
            (get_buffer choice m.store).0;
    },
  )

  pub open-cases :
      (choice : Option ℕ)
      → (open_buffer ts append_float choice f l m ≡ (l, m))
        ⊎ ((l.current_buf ≡ none) × (open_buffer ts append_float choice f l m ≡ opened choice))
  unfolding open_buffer
  open-cases choice = elim (Option-cases l.current_buf) [
    | inr (b, e) ↦ inl (ground arith)
    | inl e ↦ elim (Bool-cases f.is_key_frame) [
      | inr n ↦ inl (ground arith)
      | inl t ↦ inr (e, rw (e, open_buffer) (rw t refl))
    ]
  ]

  abbrev pub written : ℕ → ts.Writer → Locals ts.Writer × Muxer
  written b w =
      let pts = duration_to90k f.timestamp in
      let out =
        ts.write_h26x pts pts f.is_key_frame (with_params l.codec f.is_key_frame f.nalus) w in
      (
        record l { current_buf = some b; ts_writer = some out.0 },
        record m { store = append_to b out.1 m.store },
      )

  pub write-cases :
      (write_frame ts append_float f l m ≡ (l, m))
      ⊎ ((b : ℕ) × (w : ts.Writer) × (l.current_buf ≡ some b)
          × (write_frame ts append_float f l m ≡ written b w))
  unfolding write_frame
  write-cases = elim (Option-cases l.current_buf) [
    | inl e ↦ inl (ground arith)
    | inr (b, e) ↦ elim (Option-cases l.ts_writer) [
      | inl n ↦ inl (ground arith)
      | inr (w, t) ↦ inr (
        b,
        w,
        e,
        rw (e, write_frame)
            (rw (t, write_frame)
              (ap (λ o. (record (written b w).0 { current_buf = o }, (written b w).1)) e)),
      )
    ]
  ]

  abbrev pub noted : ℤ → Locals ts.Writer × Muxer
  noted now = (record l { frame_count = 0 }, record m { last_frame_time = now })

  pub note_time-cases :
      (now : ℤ)
      → (note_time ts append_float f now l m ≡ noted now)
        ⊎ (note_time ts append_float f now l m ≡ (record l { frame_count = l.frame_count + 1 }, m))
  unfolding note_time
  note_time-cases now = elim (Bool-cases (f.is_key_frame || leb 25 (l.frame_count + 1))) [
    | inl t ↦ inl (rw t refl)
    | inr n ↦ inr (rw n refl)
  ]
