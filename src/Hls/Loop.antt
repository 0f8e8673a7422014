-- ===== src/Hls/Loop.antt =====
-- The run loop of a muxer, `run` of internal/hls/muxer.go, one frame at a time: parameters of the codec, the
-- end of a segment, a new buffer, the frame's units into it. The TS writer is a parameter.
pub mod Cases
pub mod Safety
pub mod Window
pub mod Sessions
pub mod Holding
pub mod Runs
use ruseon_core.Common.{
  ℕ, suc, ◌+◌, ◌/◌, ◌%◌, ◌≡◌, refl, Bool, true, false, not, ◌&&◌, ◌||◌, Option, none, some, List,
  [], ◌∷◌, ◌++◌, ltb, leb, ◌==◌, if◌then◌else◌, length,
}
use ruseon_core.Buffer.{Frame, CodecParams}
use ruseon_core.Common.Bytes.{Bytes, bytes_eq}
use ruseon_core.Common.Go.{add64}
use ruseon_core.Common.Int.{ℤ, pos, negsuc, pos_part, neg_part, ltb_ℤ, ◌-ℤ◌}
use ruseon_core.Hls.Cue.{MetadataRequest, vtt_of}
use ruseon_core.Hls.Muxer.{Muxer, push_segment}
use ruseon_core.Hls.Playlist.{ts_name}
use ruseon_core.Hls.Segments.{Segment, in_buffer, get_buffer, append_to}
use ruseon_core.Rtsp.Timestamp.{duration_to90k}

-- `mpegts.Writer`: what a new writer writes, for H265 or H264, and what it writes for a frame.
pub record TsWriter : Type 1 where
  pub Writer : Type 0
  pub new_writer : Bool → Writer × Bytes
  pub write_h26x : ℤ → ℤ → Bool → List Bytes → Writer → Writer × Bytes

-- The local variables of `run`. A writer and the start of its segment come with a buffer.
pub record Locals (W : Type 0) : Type 0 where
  pub codec : CodecParams
  pub frame_count : ℕ
  pub current_buf : Option ℕ
  pub ts_writer : Option W
  pub segment_start : ℤ

abbrev pub is_some : Option Bytes → Bool
is_some none = false
is_some (some x) = true

abbrev or_empty : Option Bytes → Bytes
or_empty none = []
or_empty (some x) = x

-- Parameters are read again as long as one of the two that are needed is missing.
unfoldable pub refresh : Option CodecParams → CodecParams → CodecParams
refresh none codec = codec
refresh (some p) codec = if not (is_some codec.sps) || not (is_some codec.pps) then p else codec

-- `bytes.Equal`, for which nil is empty.
unfoldable pub same_params : CodecParams → CodecParams → Bool
same_params a b =
    bytes_eq (or_empty a.sps) (or_empty b.sps)
    && bytes_eq (or_empty a.pps) (or_empty b.pps)
    && bytes_eq (or_empty a.vps) (or_empty b.vps)

-- A key frame takes over other parameters.
unfoldable pub is_changed : Bool → Option CodecParams → CodecParams → Bool
is_changed key none codec = false
is_changed key (some p) codec = key && is_some p.sps && not (same_params codec p)

unfoldable pub changed : Bool → Option CodecParams → CodecParams → CodecParams
changed key none codec = codec
changed key (some p) codec = if is_changed key (some p) codec then p else codec

abbrev is_param : Bool → Bytes → Bool
is_param h265 [] = false
is_param true (b ∷ bs) = let typ = b / 2 % 64 in typ == 32 || typ == 33 || typ == 34
is_param false (b ∷ bs) = let typ = b % 32 in typ == 7 || typ == 8

unfoldable pub has_params : Bool → List Bytes → Bool
has_params h265 [] = false
has_params h265 (n ∷ nalus) = is_param h265 n || has_params h265 nalus

abbrev in_front : Option Bytes → List Bytes → List Bytes
in_front none nalus = nalus
in_front (some n) nalus = n ∷ nalus

-- The parameters go in front of a key frame that does not bring its own.
unfoldable pub with_params : CodecParams → Bool → List Bytes → List Bytes
with_params codec key nalus =
    if key && is_some codec.sps && is_some codec.pps && not (has_params (is_some codec.vps) nalus)
    then in_front codec.vps (in_front codec.sps (in_front codec.pps nalus))
    else nalus

-- A key frame ends a segment that is long enough.
unfoldable pub is_due : Frame → ℤ → Muxer → Bool
is_due f start m = f.is_key_frame && not (ltb_ℤ (f.timestamp -ℤ start) m.target_duration)

-- The segment of the buffer that was filled.
unfoldable pub finished : ℕ → Frame → ℤ → Muxer → Segment
finished b f start m = record {
  name = ts_name (add64 m.seq_count 1);
  duration = f.timestamp -ℤ start;
  bytes = in_buffer b (length (m.store.buffers b));
  buf = some b;
  ref_count = 1;
  is_discontinuity = m.needs_discontinuity;
  vtt_data = vtt_of (duration_to90k start) m.current_meta;
}

unfoldable pub publish : (ℤ → Bytes) → ℕ → Frame → ℤ → Muxer → Muxer
publish append_float b f start m =
    push_segment append_float (finished b f start m)
      (record m { seq_count = add64 m.seq_count 1; current_meta = []; needs_discontinuity = false })

module _ (ts : TsWriter) (append_float : ℤ → Bytes) where
  abbrev pub Local : Type 0
  Local = Locals ts.Writer

  abbrev pub initial : Option CodecParams → Local
  initial p = record {
    codec = elim p [ none ↦ record { vps = none; sps = none; pps = none } | some c ↦ c ];
    frame_count = 0;
    current_buf = none;
    ts_writer = none;
    segment_start = pos 0;
  }

  -- Every 25th frame and every key frame is seen by the watchdog.
  unfoldable pub note_time : Frame → ℤ → Local → Muxer → Local × Muxer
  note_time f now l m =
      if f.is_key_frame || leb 25 (l.frame_count + 1)
      then (record l { frame_count = 0 }, record m { last_frame_time = now })
      else (record l { frame_count = l.frame_count + 1 }, m)

  unfoldable pub note_params : Frame → Option CodecParams → Local → Muxer → Local × Muxer
  note_params f p l m = (
    record l { codec = changed f.is_key_frame p l.codec },
    record m { needs_discontinuity = m.needs_discontinuity || is_changed f.is_key_frame p l.codec },
  )

  unfoldable pub close_segment : Frame → Local → Muxer → Local × Muxer
  close_segment f l m = elim l.current_buf [
    | none ↦ (l, m)
    | some b ↦
        if is_due f l.segment_start m
        then (record l { current_buf = none }, publish append_float b f l.segment_start m)
        else (l, m)
  ]

  -- A new buffer, whose first bytes the new writer writes.
  unfoldable pub open_buffer : Option ℕ → Frame → Local → Muxer → Local × Muxer
  open_buffer choice f l m = elim l.current_buf [
    | some b ↦ (l, m)
    | none ↦
        if f.is_key_frame
        then (let (st, b) = get_buffer choice m.store in
            let (w, head) = ts.new_writer (is_some l.codec.vps) in
            (
              record l { current_buf = some b; ts_writer = some w; segment_start = f.timestamp },
              record m { store = append_to b head st },
            ))
        else (l, m)
  ]

  -- Without a buffer the frame is passed over.
  unfoldable pub write_frame : Frame → Local → Muxer → Local × Muxer
  write_frame f l m = elim l.current_buf [
    | none ↦ (l, m)
    | some b ↦ elim l.ts_writer [
      | none ↦ (l, m)
      | some w ↦
          let pts = duration_to90k f.timestamp in
          let (w', bs) =
            ts.write_h26x pts pts f.is_key_frame (with_params l.codec f.is_key_frame f.nalus) w in
          (record l { ts_writer = some w' }, record m { store = append_to b bs m.store })
    ]
  ]

  -- A frame that the loop receives. `first` and `second` are what `GetCodecParams` returns at its two calls, `choice`
  -- is the buffer that the pool hands out.
  unfoldable pub on_frame :
      Option CodecParams → Option CodecParams → ℤ → Option ℕ → Frame → Local → Muxer → Local × Muxer
  on_frame first second now choice f l m =
      let (l1, m1) = note_time f now (record l { codec = refresh first l.codec }) m in
      let (l2, m2) = note_params f second l1 m1 in
      let (l3, m3) = close_segment f l2 m2 in
      let (l4, m4) = open_buffer choice f l3 m3 in write_frame f l4 m4

  -- Metadata waits for the end of the segment.
  unfoldable pub on_meta :
      Option CodecParams → Option MetadataRequest → Local → Muxer → Local × Muxer
  on_meta first none l m = (record l { codec = refresh first l.codec }, m)
  on_meta first (some req) l m = (
    record l { codec = refresh first l.codec },
    record m { current_meta = m.current_meta ++ (req ∷ []) },
  )
