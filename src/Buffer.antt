-- ===== src/Buffer.antt =====
-- internal/buffer/frame.go and internal/buffer/ring.go: the circular frame buffer of a camera and
-- its broadcast to readers. A method takes the state under the mutex and returns the next one.
-- The state holds the heap of `Reader` objects, since the map, the slice and the caller share them.
-- Indices into `frames` are taken modulo the capacity, which is the slice's length.
pub mod Receive
pub mod Broadcast
pub mod Log
pub mod Search
pub mod Subscribe
pub mod Lifecycle
pub mod Resync
pub mod Run
mod Tests
use ruseon_core.Common.{
  ℕ, zero, suc, ◌+◌, ◌-◌, ◌%◌, String, Bool, true, false, not, ◌&&◌, Option, none, some, List, [],
  ◌∷◌, ◌++◌, ltb, ◌==◌, if◌then◌else◌, get_elem?, set, replicate, ℕ_discrete,
}
use ruseon_core.Common.Int.{ℤ, pos, negsuc}
use ruseon_core.Common.Dict.{Dict, lookup, insert, erase, string_discrete}
use ruseon_core.Common.Go.{
  Outcome, returns, panics, blocks, ◌>>=◌, Chan, make_chan, try_send, send, close_chan, add64,
}
use ruseon_core.Common.Heap.{update}

-- A duration is signed; nothing here computes with it.
pub record Frame : Type 0 where
  pub timestamp : ℤ
  pub is_key_frame : Bool
  pub nalus : List (List ℕ)

-- A nil slice is `none`.
pub record CodecParams : Type 0 where
  pub vps : Option (List ℕ)
  pub sps : Option (List ℕ)
  pub pps : Option (List ℕ)

pub record Reader : Type 0 where
  pub c : Chan Frame
  pub drops : ℕ
  pub needs_iframe : Bool

-- A reader's address is a number; `next_reader` is the next free one. `metric_drops` is the vector
-- of Prometheus counters by label, and the buffer holds the label `camera_id`.
pub record RingBuffer : Type 0 where
  pub frames : List (Option Frame)
  pub capacity : ℕ
  pub head : ℕ
  pub closed : Bool
  pub camera_id : String
  pub metric_drops : String → ℕ
  pub params : Option CodecParams
  pub subs : Dict ℕ (Unit {0})
  pub subs_slice : List ℕ
  pub total_drops : ℕ
  pub readers : ℕ → Reader
  pub next_reader : ℕ

abbrev pub effective_capacity : ℤ → ℕ
effective_capacity (pos zero) = 100
effective_capacity (pos (suc n)) = suc n
effective_capacity (negsuc n) = 100

-- The counters and the heap are the process's, which the new buffer joins.
pub new_ring_buffer : (String → ℕ) → (ℕ → Reader) → ℤ → RingBuffer
new_ring_buffer metrics heap capacity = record {
  frames = replicate (effective_capacity capacity) none;
  capacity = effective_capacity capacity;
  head = 0;
  closed = false;
  camera_id = "unknown";
  metric_drops = metrics;
  params = none;
  subs = [];
  subs_slice = [];
  total_drops = 0;
  readers = heap;
  next_reader = 0;
}

pub set_camera_id : String → RingBuffer → RingBuffer
set_camera_id id rb = record rb { camera_id = id }

pub get_total_drops : RingBuffer → ℕ
get_total_drops rb = rb.total_drops

-- `frames[i % capacity]`
pub slot : RingBuffer → ℕ → Option Frame
slot rb i = elim (get_elem? rb.frames (i % rb.capacity)) [ none ↦ none | some f ↦ f ]

-- Step 1 of `Write`: the history.
pub store : Frame → RingBuffer → RingBuffer
store f rb = record rb {
  frames = set rb.frames (rb.head % rb.capacity) (some f);
  head = add64 rb.head 1;
}

-- The non-blocking send to one reader; the flag says that the frame was dropped.
unfoldable pub push_frame : Frame → Reader → Outcome (Reader × Bool)
push_frame f sub = try_send f sub.c >>= λ r.
    if r.1
    then returns (record sub { c = r.0 }, false)
    else returns (record sub { drops = add64 sub.drops 1; needs_iframe = true }, true)

-- The loop's body at one subscriber: a reader out of step waits for a key frame.
unfoldable pub offer : Frame → Reader → Outcome (Reader × Bool)
offer f sub =
    if sub.needs_iframe
    then if f.is_key_frame
      then push_frame f (record sub { needs_iframe = false })
      else returns (sub, false)
    else push_frame f sub

count_drop : Bool → RingBuffer → RingBuffer
count_drop false rb = rb
count_drop true rb = record rb {
  metric_drops =
      update string_discrete rb.metric_drops rb.camera_id (rb.metric_drops rb.camera_id + 1);
  total_drops = add64 rb.total_drops 1;
}

pub dispatch : Frame → ℕ → RingBuffer → Outcome RingBuffer
unfolding count_drop
dispatch f id rb = offer f (rb.readers id) >>= λ r.
    returns (count_drop r.1 (record rb { readers = update ℕ_discrete rb.readers id r.0 }))

-- Step 2 of `Write`: every active subscriber in turn.
pub broadcast : Frame → List ℕ → RingBuffer → Outcome RingBuffer
broadcast f [] rb = returns rb
broadcast f (id ∷ ids) rb = dispatch f id rb >>= broadcast f ids

pub write : Frame → RingBuffer → Outcome RingBuffer
write f rb = if rb.closed then returns rb else broadcast f rb.subs_slice (store f rb)

-- A copy of bytes that nobody mutates is equal to them.
pub clone_bytes : Option (List ℕ) → Option (List ℕ)
clone_bytes none = none
clone_bytes (some b) = some b

pub set_params : Option (List ℕ) → Option (List ℕ) → Option (List ℕ) → RingBuffer → RingBuffer
set_params vps sps pps rb = record rb {
  params = some (record { vps = clone_bytes vps; sps = clone_bytes sps; pps = clone_bytes pps });
}

pub get_codec_params : RingBuffer → Option CodecParams
get_codec_params rb = rb.params

pub get_params : RingBuffer → Option (List ℕ) × Option (List ℕ) × Option (List ℕ)
get_params rb = elim rb.params [
  | none ↦ (none, none, none)
  | some p ↦ (clone_bytes p.vps, clone_bytes p.sps, clone_bytes p.pps)
]

-- `findLastIFrameLocked` after `i` rounds, with `n` left: the index, whether it was found.
pub find_from : ℕ → ℕ → RingBuffer → Option ℕ
find_from zero i rb = none
find_from (suc n) i rb =
    let rest = find_from n (i + 1) rb in
    if ltb rb.head (i + 1) then none else (elim (slot rb (rb.head - (i + 1))) [
      | none ↦ rest
      | some f ↦ if f.is_key_frame then some (rb.head - (i + 1)) else rest
    ])

pub find_last_iframe_locked : RingBuffer → ℕ × Bool × ℕ
unfolding find_from
find_last_iframe_locked rb = elim (find_from rb.capacity 0 rb) [
  | none ↦ (rb.head, false, rb.head)
  | some idx ↦ (idx, true, rb.head)
]

-- The preload loop of `Subscribe` from index `i`, with `n` rounds left.
pub preload : ℕ → ℕ → RingBuffer → Chan Frame → Outcome (Chan Frame)
preload zero i rb c = returns c
preload (suc n) i rb c = elim (slot rb i) [
  | none ↦ preload n (i + 1) rb c
  | some f ↦ send f c >>= preload n (i + 1) rb
]

-- A new reader, registered; the result is its address.
pub register : Reader → RingBuffer → RingBuffer × ℕ
register r rb = (
  record rb {
    readers = update ℕ_discrete rb.readers rb.next_reader r;
    next_reader = rb.next_reader + 1;
    subs = insert ℕ_discrete rb.next_reader tt rb.subs;
    subs_slice = rb.subs_slice ++ (rb.next_reader ∷ []);
  },
  rb.next_reader,
)

-- A reader of a closed buffer is allocated, and its channel closed; it is not registered.
pub subscribe : RingBuffer → Outcome (RingBuffer × ℕ)
unfolding register find_last_iframe_locked
subscribe rb =
    let empty : Chan Frame = make_chan rb.capacity in
    let fresh : Bool → Chan Frame → Reader =
      λ needs c. record { c = c; drops = 0; needs_iframe = needs } in
    let (start_idx, found, head) = find_last_iframe_locked rb in
    if rb.closed
    then (close_chan empty >>= λ c. returns (
      record rb {
        readers = update ℕ_discrete rb.readers rb.next_reader (fresh false c);
        next_reader = rb.next_reader + 1;
      },
      rb.next_reader,
    ))
    else if found
    then (preload (head - start_idx) start_idx rb empty >>= λ c.
        returns (register (fresh false c) rb))
    else returns (register (fresh (ltb 0 head) empty) rb)

-- `NewReader`
pub new_reader : RingBuffer → Outcome (RingBuffer × ℕ)
new_reader rb = subscribe rb

close_each : List ℕ → RingBuffer → Outcome RingBuffer
close_each [] rb = returns rb
close_each (id ∷ ids) rb = close_chan (rb.readers id).c >>= λ c.
    close_each ids
      (record rb { readers = update ℕ_discrete rb.readers id (record (rb.readers id) { c = c }) })

-- `RingBuffer.Close`
pub close : RingBuffer → Outcome RingBuffer
close rb =
    if rb.closed
    then returns rb
    else close_each rb.subs_slice (record rb { closed = true }) >>= λ rb'.
        returns (record rb' { subs = []; subs_slice = [] })

-- The slice without the first occurrence of the reader.
pub cut : ℕ → List ℕ → List ℕ
cut id [] = []
cut id (j ∷ js) = if j == id then js else j ∷ cut id js

-- `Reader.Close`
pub close_reader : ℕ → RingBuffer → RingBuffer
unfolding cut
close_reader id rb = elim (lookup ℕ_discrete id rb.subs) [
  | none ↦ rb
  | some _ ↦ record rb { subs = erase ℕ_discrete id rb.subs; subs_slice = cut id rb.subs_slice }
]

-- What `ReadContext` returns.
pub data ReadResult : Type 0 where
  cancelled eof : ReadResult
  frame : Frame → ReadResult

-- `ReadContext` of a reader: `done` says that the context's channel is the ready one that the
-- runtime's `select` picks. With nothing ready it waits.
unfoldable pub read_context : Bool → Reader → Outcome (ReadResult × Reader)
read_context true r = returns (cancelled, r)
read_context false r = elim r.c.queue [
  | f ∷ fs ↦ returns (frame f, record r { c = record (r.c) { queue = fs } })
  | [] ↦ if r.c.closed then returns (eof, r) else blocks
]

-- `Read`: the background context is never done, and the end of the stream is nil.
unfoldable pub read : Reader → Outcome (Option Frame × Reader)
unfolding read_context
read r = read_context false r >>= λ o. elim o.0 [
  | frame f ↦ returns (some f, o.1)
  | eof ↦ returns (none, o.1)
  | cancelled ↦ returns (none, o.1)
]
