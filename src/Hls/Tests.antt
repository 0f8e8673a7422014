-- ===== src/Hls/Tests.antt =====
-- A muxer at work on a short stream: two key frames two seconds apart, a reader, an interruption.
use native.Mathlib.Omega.{arith}
use mathlib.Core.Option.{none-ne-some}
use ruseon_core.Common.{
  ℕ, suc, ◌+◌, ◌/◌, ◌<◌, ◌≡◌, refl, ap, ◌++◌, true, false, none, some, List, [], ◌∷◌, length,
  ℕ_discrete,
}
use ruseon_core.Buffer.{Frame}
use ruseon_core.Common.Bytes.{codes, bytes_discrete}
use ruseon_core.Common.Count.{count}
use ruseon_core.Common.Decimal.{decimal}
use ruseon_core.Common.Dict.{insert, lookup}
use ruseon_core.Common.Heap.{update}
use ruseon_core.Common.Int.{pos, ◌-ℤ◌}
use ruseon_core.Hls.Cue.{cue_times, cue_start, cue_end, total_ms}
use ruseon_core.Hls.Loop.{
  TsWriter, on_frame, write_frame, open_buffer, close_segment, note_params, note_time, is_due,
  publish, changed, finished, has_params, is_changed, refresh, same_params, with_params,
}
use ruseon_core.Hls.Cue.{vtt_of}
use ruseon_core.Hls.Playlist.{ts_name}
use ruseon_core.Hls.Loop.Holding.{IsGood}
use ruseon_core.Hls.Loop.Runs.{
  all_releases, started, started-HasWindow, started-IsGood, RoomFor, run-IsGood, held_data_kept,
}
use ruseon_core.Hls.Loop.Sessions.{
  Event, frame_came, acquired, watched, reused, stopped, Session, run, step,
}
use ruseon_core.Hls.Muxer.{
  acquire_segment, find_segment, new_muxer, push_segment, index_all, segment_limit, find_named,
  is_vtt, rebuild_playlists_locked, trim, ts_name_of,
}
use ruseon_core.Hls.Muxer.Names.{vtt_name}
use ruseon_core.Hls.Muxer.Window.{HasWindow}
use ruseon_core.Hls.Muxer.Serving.{Served, acquire_segment-InWindow}
use ruseon_core.Hls.Segments.{
  Segment, Store, nothing, data_of, append_to, get_buffer, new_segment, retain, write_segment,
}
use ruseon_core.Hls.Segments.Arc.{IsValid, nothing-ne-in_buffer}

abbrev blank : Segment
blank = record {
  name = [];
  duration = pos 0;
  bytes = nothing;
  buf = none;
  ref_count = 0;
  is_discontinuity = false;
  vtt_data = [];
}

-- One buffer waits in the pool.
abbrev idle : Store
idle = record {
  heap = λ a. blank;
  next_segment = 0;
  buffers = λ b. [];
  next_buffer = 1;
  pool = 0 ∷ [];
}

idle-IsValid : IsValid idle [] none
unfolding count
idle-IsValid = record {
  bounded = omega arith;
  counted = λ a. refl;
  unpooled = λ a b e. absurd (none-ne-some b e);
  not_current = λ a b e. absurd (none-ne-some b e);
  low = λ a b e. absurd (none-ne-some b e);
  live = λ a b e. absurd (none-ne-some b e);
  apart = λ a a' b e. absurd (none-ne-some b e);
  slices = λ a b n e. absurd (nothing-ne-in_buffer b n e);
  current_unpooled = λ b e. absurd (none-ne-some b e);
  current_low = λ b e. absurd (none-ne-some b e);
  pooled_once = λ b. ground arith;
  pooled_low = λ b h. ground (arith, h);
  fresh = λ a h. refl;
}

abbrev writer : TsWriter
writer = record {
  Writer = ℕ;
  new_writer = λ h265. (0, 71 ∷ []);
  write_h26x = λ pts dts key nalus n. (suc n, length nalus ∷ []);
}

abbrev key_frame : ℕ → Frame
key_frame t = record { timestamp = pos t; is_key_frame = true; nalus = (101 ∷ []) ∷ [] }

abbrev start : Session ℕ
start = started writer (λ d. []) [] (pos 1) none idle

abbrev first_second : List Event
first_second =
    frame_came none none (pos 1) (some 0) (key_frame 0)
    ∷ frame_came none none (pos 2) none (key_frame 2000000000)
    ∷ acquired (codes "stream_1.ts")
    ∷ []

abbrev held_now : Session ℕ
held_now = run writer (λ d. []) first_second start

held_run :
    (held_now.held ≡ 0 ∷ []) × ((held_now.muxer.max_segments ≡ 3) × (held_now.muxer.seq_count ≡ 1))
unfolding run step acquire_segment find_segment lookup on_frame write_frame open_buffer
    close_segment note_params note_time is_due ◌-ℤ◌ new_muxer publish push_segment index_all
    segment_limit insert ℕ_discrete bytes_discrete count decimal update vtt_of changed finished
    has_params is_changed refresh same_params with_params find_named is_vtt rebuild_playlists_locked
    trim ts_name_of append_to get_buffer new_segment retain write_segment ts_name
held_run = (refl, (refl, refl))

-- The first segment is served while the stream breaks off, goes on, and ends.
abbrev later : List Event
later =
    watched (pos 9000000000)
    ∷ reused 0 (1 ∷ 2 ∷ [])
    ∷ frame_came none none (pos 9000000001) none (key_frame 4000000000)
    ∷ frame_came none none (pos 9000000002) none (key_frame 6000000000)
    ∷ frame_came none none (pos 9000000003) (some 0) (key_frame 8000000000)
    ∷ stopped
    ∷ []

start_room : (n : ℕ) → n < 100 → RoomFor writer (λ d. []) n start
unfolding new_muxer segment_limit
start_room n h = (omega (arith, h), omega (arith, h))

later_room : RoomFor writer (λ d. []) (length later) held_now
later_room = let (h, (m, q)) = held_run in (omega (arith, ap length h, m), omega (arith, q))

once : all_releases 0 later < count 0 held_now.held
unfolding all_releases count
once = omega (arith, ap (count 0) held_run.0)

held_now-IsGood : IsGood held_now
held_now-IsGood =
    run-IsGood writer (λ d. []) first_second start
      (started-IsGood writer (λ d. []) [] (pos 1) none idle idle-IsValid)
      (start_room 3 (omega arith))

held_data_kept_example :
    data_of (run writer (λ d. []) later held_now).muxer.store 0 ≡ data_of held_now.muxer.store 0
held_data_kept_example =
    held_data_kept writer (λ d. []) 0 later held_now held_now-IsGood later_room once

started-HasWindow_example : HasWindow (run writer (λ d. []) (first_second ++ later) start).muxer
started-HasWindow_example =
    started-HasWindow writer (λ d. []) [] (pos 1) none idle (first_second ++ later) idle-IsValid
      (start_room 9 (omega arith))

acquire_segment-InWindow_example :
    Served 1 (ts_name 1) (codes "video/mp2t") held_now.muxer
    × Served 1 (vtt_name 1) (codes "text/vtt") held_now.muxer
acquire_segment-InWindow_example =
    acquire_segment-InWindow 1 held_now.muxer (held_now-IsGood.window)

-- A cue that ends in the next hour.
cue_times_example :
    (total_ms (cue_start 323991000) ≡ 323991000 / 90)
    × (total_ms (cue_end (cue_start 323991000)) ≡ 323991000 / 90 + 300)
    × ((cue_end (cue_start 323991000)).minutes < 60)
    × ((cue_end (cue_start 323991000)).sec < 60)
    × ((cue_end (cue_start 323991000)).ms < 1000)
cue_times_example = cue_times 323991000
