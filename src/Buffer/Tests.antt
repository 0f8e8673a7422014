-- ===== src/Buffer/Tests.antt =====
-- Runs of the buffer, and its theorems at concrete states.
use ruseon_core.Common.{
  ℕ, zero, suc, ◌+◌, ◌≤◌, ◌<◌, ◌≡◌, refl, true, false, none, some, List, [], ◌∷◌, ◌++◌, get_elem?,
  arith, if◌then◌else◌,
}
use ruseon_core.Common.Int.{pos}
use ruseon_core.Common.Dict.{lookup}
use ruseon_core.Common.Go.{returns, add64, try_send}
use ruseon_core.Buffer.{
  Frame, Reader, RingBuffer, new_ring_buffer, write, subscribe, close, close_reader,
  find_last_iframe_locked, slot, offer, push_frame, read, read_context,
}
use ruseon_core.Buffer.Receive.{receive}
use ruseon_core.Buffer.Broadcast.{member, count_drops}
use ruseon_core.Buffer.Log.{IsValid, IsLog, write-IsLog}
use ruseon_core.Buffer.Search.{Found, find_last_iframe_locked-Found}
use ruseon_core.Buffer.Subscribe.{Subscribed, subscribe-Subscribed}
use ruseon_core.Buffer.Lifecycle.{Detached, close_reader-Detached, Closes, close-Closes}
use ruseon_core.Buffer.Run.{Call, put, join, leave, run, log_after, run_lem}
use ruseon_core.Buffer.Resync.{Event, offered, taken, Fate, history, Decodable, history-Decodable}

abbrev key_frame : ℕ → Frame
key_frame t = record { timestamp = pos t; is_key_frame = true; nalus = (5 ∷ []) ∷ [] }

abbrev delta_frame : ℕ → Frame
delta_frame t = record { timestamp = pos t; is_key_frame = false; nalus = (1 ∷ []) ∷ [] }

-- A reader whose queue of one is full.
abbrev slow : Reader
slow = record {
  c = record { queue = key_frame 0 ∷ []; cap = 1; closed = false };
  drops = 0;
  needs_iframe = false;
}

-- Capacity 2, three frames written, one slow reader.
abbrev history_of_three : List Frame
history_of_three = key_frame 0 ∷ key_frame 1 ∷ delta_frame 2 ∷ []

abbrev reader_two : Reader
reader_two = record slow { c = record (slow.c) { cap = 2 } }

abbrev busy : RingBuffer
busy = record {
  frames = some (delta_frame 2) ∷ some (key_frame 1) ∷ [];
  capacity = 2;
  head = 3;
  closed = false;
  camera_id = "cam";
  metric_drops = λ _. 0;
  params = none;
  subs = (0, tt) ∷ [];
  subs_slice = 0 ∷ [];
  total_drops = 0;
  readers = λ _. reader_two;
  next_reader = 1;
}

busy-IsValid : IsValid busy
unfolding lookup
busy-IsValid = record {
  positive = omega arith;
  sized = refl;
  counted = omega arith;
  distinct = (refl, tt);
  opened = λ j m. record { is_open = refl; room = refl; fits = omega arith };
  allocated = λ j m. ground arith;
  registered = λ j. ground arith;
  silent = λ e. cc;
}

busy-window : (i : ℕ) → i < 3 → 3 ≤ i + 2 → slot busy i ≡ get_elem? history_of_three i
unfolding slot
busy-window zero h w = absurd (omega arith)
busy-window (suc zero) h w = refl
busy-window (suc (suc zero)) h w = refl
busy-window (suc (suc (suc i))) h w = absurd (omega arith)

busy-IsLog : IsLog busy history_of_three
busy-IsLog = record { written = refl; window = busy-window }

-- The search skips the delta frame at index 2.
find_last_iframe_locked-busy : find_last_iframe_locked busy ≡ (1, true, 3)
unfolding find_last_iframe_locked slot
find_last_iframe_locked-busy = refl

write-IsLog_example :
    (rb' : RingBuffer) × (write (delta_frame 3) busy ≡ returns rb')
    × IsValid rb'
    × IsLog rb' (history_of_three ++ (delta_frame 3 ∷ []))
    × (rb'.closed ≡ false)
    × ((j : ℕ)
        → rb'.readers j
          ≡ (if member j (0 ∷ []) then receive (delta_frame 3) reader_two else reader_two))
    × (rb'.total_drops ≡ add64 0 (count_drops (delta_frame 3) (0 ∷ []) (λ _. reader_two)))
write-IsLog_example =
    write-IsLog (delta_frame 3) busy history_of_three busy-IsValid busy-IsLog refl (omega arith)

find_last_iframe_locked-Found_example : Found history_of_three 1 (find_last_iframe_locked busy)
find_last_iframe_locked-Found_example =
    find_last_iframe_locked-Found busy history_of_three busy-IsLog

subscribe-Subscribed_example :
    (rb' : RingBuffer) × (id : ℕ) × (subscribe busy ≡ returns (rb', id))
    × Subscribed busy history_of_three rb' id
subscribe-Subscribed_example =
    subscribe-Subscribed busy history_of_three busy-IsValid busy-IsLog refl

abbrev calls : List Call
calls = put (key_frame 1) ∷ join ∷ put (delta_frame 2) ∷ leave 0 ∷ leave 7 ∷ put (key_frame 3) ∷ []

run_lem_example :
    (rb : RingBuffer) × (run calls (new_ring_buffer (λ _. 0) (λ _. slow) (pos 0)) ≡ returns rb)
    × IsValid rb
    × IsLog rb (log_after [] calls)
    × (rb.closed ≡ false)
run_lem_example = run_lem (λ _. 0) (λ _. slow) (pos 0) calls (omega arith)

close_reader-Detached_example : Detached 0 busy history_of_three (close_reader 0 busy)
close_reader-Detached_example =
    close_reader-Detached 0 busy history_of_three busy-IsValid busy-IsLog

close-Closes_example : (rb' : RingBuffer) × (close busy ≡ returns rb') × Closes busy rb'
close-Closes_example = close-Closes busy busy-IsValid refl

-- The slow reader misses a frame, is read, skips a delta frame, and comes back on a key frame.
abbrev script : List Event
script = offered (delta_frame 1) ∷ taken ∷ offered (delta_frame 2) ∷ offered (key_frame 3) ∷ []

history-slow :
    history script slow
    ≡ returns (
        (delta_frame 1, Fate.dropped)
        ∷ (delta_frame 2, Fate.skipped)
        ∷ (key_frame 3, Fate.delivered)
        ∷ [])
unfolding history offer push_frame try_send read read_context
history-slow = refl

history-Decodable_example :
    (t : List (Frame × Fate)) × (history script slow ≡ returns t) × Decodable false t
history-Decodable_example =
    history-Decodable script slow (record { is_open = refl; room = refl; fits = omega arith })
