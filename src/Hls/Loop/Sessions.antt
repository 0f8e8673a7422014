-- ===== src/Hls/Loop/Sessions.antt =====
-- A muxer at work: its loop, the readers of its segments, the watchdog, and the other users of the pool, in any
-- order. A reader gives back what it acquired, and only that.
use ruseon_core.Common.{ℕ, Option, none, some, List, [], ◌∷◌, ltb, if◌then◌else◌}
use ruseon_core.Buffer.{Frame, CodecParams}
use ruseon_core.Common.Bytes.{Bytes}
use ruseon_core.Common.Count.{count, remove}
use ruseon_core.Common.Int.{ℤ}
use ruseon_core.Hls.Cue.{MetadataRequest}
use ruseon_core.Hls.Loop.{TsWriter, Locals, on_frame, on_meta}
use ruseon_core.Hls.Muxer.{Muxer, check_watchdog, acquire_segment, release_segment, stop}
use ruseon_core.Hls.Segments.{scribble}

-- What happens, with what the code reads of its surroundings at that time.
pub data Event : Type 0 where
  frame_came : Option CodecParams → Option CodecParams → ℤ → Option ℕ → Frame → Event
  meta_came : Option CodecParams → Option MetadataRequest → Event
  reader_closed : Event
  watched : ℤ → Event
  acquired : Bytes → Event
  released : ℕ → Event
  reused : ℕ → Bytes → Event
  stopped : Event

-- The loop has ended where there are no locals; `held` lists what readers have acquired.
pub record Session (W : Type 0) : Type 0 where
  pub muxer : Muxer
  pub locals : Option (Locals W)
  pub held : List ℕ

-- A reader holds what it got.
abbrev pub served : {W : Type 0} → Session W → Muxer × Option (ℕ × Bytes) → Session W
served s (m', none) = record s { muxer = m' }
served s (m', some (a, mime)) = record s { muxer = m'; held = a ∷ s.held }

module _ (ts : TsWriter) (append_float : ℤ → Bytes) where
  unfoldable pub step : Event → Session ts.Writer → Session ts.Writer
  step (frame_came first second now choice f) s = elim s.locals [
    | none ↦ s
    | some l ↦
        let (l', m') = on_frame ts append_float first second now choice f l s.muxer in
        record s { muxer = m'; locals = some l' }
  ]
  step (meta_came first req) s = elim s.locals [
    | none ↦ s
    | some l ↦
        let (l', m') = on_meta ts append_float first req l s.muxer in
        record s { muxer = m'; locals = some l' }
  ]
  step reader_closed s = record s { locals = none }
  step (watched now) s = record s { muxer = check_watchdog append_float now s.muxer }
  step (acquired name) s = served s (acquire_segment name s.muxer)
  step (released a) s =
      if ltb 0 (count a s.held)
      then record s { muxer = release_segment a s.muxer; held = remove a s.held }
      else s
  step (reused b bs) s = record s { muxer = record s.muxer { store = scribble b bs s.muxer.store } }
  step stopped s = record s { muxer = stop s.muxer; locals = none }

  unfoldable pub run : List Event → Session ts.Writer → Session ts.Writer
  run [] s = s
  run (e ∷ es) s = run es (step e s)
