-- ===== src/Hls/Loop/Runs.antt =====
-- A muxer at work, over any sequence of events.
use native.Mathlib.Omega.{arith}
use ruseon_core.Common.{ℕ, suc, ◌+◌, ◌<◌, ◌≡◌, refl, ◌∙◌, Option, none, some, List, [], ◌∷◌, length}
use ruseon_core.Buffer.{CodecParams}
use ruseon_core.Common.Bytes.{Bytes}
use ruseon_core.Common.Count.{count}
use ruseon_core.Common.Go.{two64}
use ruseon_core.Common.Int.{ℤ}
use ruseon_core.Hls.Loop.{TsWriter, initial}
use ruseon_core.Hls.Loop.Sessions.{Event, Session, step, run}
use ruseon_core.Hls.Muxer.{new_muxer, index_all}
use ruseon_core.Hls.Muxer.Window.{HasWindow}
use ruseon_core.Hls.Segments.{two32, Store, data_of}
use ruseon_core.Hls.Segments.Arc.{IsValid}
use ruseon_core.Hls.Loop.Holding.{IsGood, releases, HasRoom, Follows, step-Follows}

unfoldable pub all_releases : ℕ → List Event → ℕ
all_releases a [] = 0
all_releases a (e ∷ es) = releases a e + all_releases a es

module _ (ts : TsWriter) (append_float : ℤ → Bytes) where
  -- Room for a number of events.
  abbrev pub RoomFor : ℕ → Session ts.Writer → Type 0
  RoomFor n s =
      (s.muxer.max_segments + length s.held + n + 2 < two32) × (s.muxer.seq_count + n + 1 < two64)

  room_now : (n : ℕ) (s : Session ts.Writer) → RoomFor n s → HasRoom s
  room_now n s (h, k) = record { references = omega (arith, h); numbers = omega (arith, k) }

  room_later :
      (n : ℕ) (s s' : Session ts.Writer) (e : Event)
      → RoomFor (suc n) s
      → Follows s e s'
      → RoomFor n s'
  room_later n s s' e (h, k) f =
      (omega (arith, h, f.same_max, f.held_slow), omega (arith, k, f.slow))

  pub run-IsGood :
      (es : List Event) (s : Session ts.Writer)
      → IsGood s
      → RoomFor (length es) s
      → IsGood (run ts append_float es s)
  unfolding run
  run-IsGood [] s g r = g
  run-IsGood (e ∷ es) s g r =
      let f = step-Follows ts append_float s g (room_now (suc (length es)) s r) e in
      run-IsGood es (step ts append_float e s) f.good
        (room_later (length es) s (step ts append_float e s) e r f)

  -- In a session whose references and window are in order (`IsGood`): while readers give a segment back less
  -- often than they hold it, whatever else happens in between (frames,
  -- ends of segments, the watchdog, other readers, other users of the pool, the end of the muxer),
  -- its data stays what it was. There must be room in the counters for so many events.
  pub held_data_kept :
      (a : ℕ) (es : List Event) (s : Session ts.Writer)
      → IsGood s
      → RoomFor (length es) s
      → all_releases a es < count a s.held
      → data_of (run ts append_float es s).muxer.store a ≡ data_of s.muxer.store a
  unfolding run all_releases
  held_data_kept a [] s g r h = refl
  held_data_kept a (e ∷ es) s g r h =
      let s' = step ts append_float e s in
      let f = step-Follows ts append_float s g (room_now (suc (length es)) s r) e in
      let more : all_releases a es < count a s'.held = omega (arith, h, f.still a) in
      held_data_kept a es s' f.good (room_later (length es) s s' e r f) more
      ∙ f.kept a (omega (arith, h)) (omega (arith, more))

  -- A muxer that has just been made, over a store in which nothing is in use.
  abbrev pub started : List ℤ → ℤ → Option CodecParams → Store → Session ts.Writer
  started limits now p st = record {
    muxer = new_muxer limits now st;
    locals = some (initial ts append_float p);
    held = [];
  }

  pub started-IsGood :
      (limits : List ℤ) (now : ℤ) (p : Option CodecParams) (st : Store)
      → IsValid st [] none
      → IsGood (started limits now p st)
  unfolding new_muxer
  started-IsGood limits now p st v = record {
    shared = v;
    window = record {
      few = omega arith;
      counted = omega arith;
      numbered = refl;
      indexed = unfold index_all in refl;
    };
  }

  -- A muxer starts over a store in which no segment is referred to and the pool is in order. From then on, after
  -- any events, the muxer has no more segments than its limit; they are the last ones
  -- up to the count, named by consecutive numbers, and the index is the one of just these segments. There
  -- must be room in the counters for so many events.
  pub started-HasWindow :
      (limits : List ℤ) (now : ℤ) (p : Option CodecParams) (st : Store) (es : List Event)
      → IsValid st [] none
      → RoomFor (length es) (started limits now p st)
      → HasWindow (run ts append_float es (started limits now p st)).muxer
  started-HasWindow limits now p st es v r =
      (run-IsGood es (started limits now p st) (started-IsGood limits now p st v) r).window
