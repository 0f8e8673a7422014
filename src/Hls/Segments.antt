-- ===== src/Hls/Segments.antt =====
-- `Segment` of internal/hls/muxer.go with `Retain` and `Release`, and the pool of buffers that segments
-- and other muxers share. Segments and buffers are objects at addresses. A reference count is the 32
-- bits of an `int32`.
pub mod Arc
pub mod Pool
use ruseon_core.Common.{
  ℕ, zero, suc, ◌+◌, ◌-◌, ◌%◌, ◌^◌, ◌<◌, ◌≡◌, Bool, true, false, Option, none, some, List, [], ◌∷◌,
  ◌++◌, ◌==◌, ltb, if◌then◌else◌, take, length, ℕ_discrete,
}
use ruseon_core.Common.Bytes.{Bytes}
use ruseon_core.Common.Count.{count, remove}
use ruseon_core.Common.Heap.{update}
use ruseon_core.Common.Int.{ℤ}

abbrev pub two32 : ℕ
two32 = 2 ^ 32

-- The slice `Data`: the first bytes of a buffer, or a copy of its own, or nil.
pub data Content : Type 0 where
  in_buffer : ℕ → ℕ → Content
  copied : Bytes → Content
  nothing : Content

pub record Segment : Type 0 where
  pub name : Bytes
  pub duration : ℤ
  pub bytes : Content
  pub buf : Option ℕ
  pub ref_count : ℕ
  pub is_discontinuity : Bool
  pub vtt_data : Bytes

pub record Store : Type 0 where
  pub heap : ℕ → Segment
  pub next_segment : ℕ
  pub buffers : ℕ → Bytes
  pub next_buffer : ℕ
  pub pool : List ℕ

abbrev pub contents : (ℕ → Bytes) → Content → Bytes
contents buffers (in_buffer b n) = take n (buffers b)
contents buffers (copied bs) = bs
contents buffers nothing = []

-- What a reader of the segment sees.
abbrev pub data_of : Store → ℕ → Bytes
data_of st a = contents st.buffers (st.heap a).bytes

unfoldable pub write_segment : ℕ → Segment → Store → Store
write_segment a seg st = record st { heap = update ℕ_discrete st.heap a seg }

unfoldable pub retain : ℕ → Store → Store
unfolding write_segment
retain a st =
    write_segment a (record (st.heap a) { ref_count = ((st.heap a).ref_count + 1) % two32 }) st

-- `bufferPool.Put` of a buffer that was reset.
unfoldable pub put_buffer : ℕ → Store → Store
put_buffer b st = record st { buffers = update ℕ_discrete st.buffers b []; pool = b ∷ st.pool }

unfoldable pub release : ℕ → Store → Store
unfolding write_segment put_buffer
release a st =
    let n = ((st.heap a).ref_count + (two32 - 1)) % two32 in
    let seg = record (st.heap a) { ref_count = n } in
    if n == 0
    then (elim seg.buf [
      | none ↦ write_segment a seg st
      | some b ↦ write_segment a (record seg { buf = none; bytes = nothing }) (put_buffer b st)
    ])
    else write_segment a seg st

-- `bufferPool.Get` and the reset. The pool may hand out any buffer that it holds, or a new one.
unfoldable pub get_buffer : Option ℕ → Store → Store × ℕ
get_buffer none st = (
  record st {
    buffers = update ℕ_discrete st.buffers st.next_buffer [];
    next_buffer = st.next_buffer + 1;
  },
  st.next_buffer,
)
get_buffer (some b) st =
    if ltb 0 (count b st.pool)
    then (record st { buffers = update ℕ_discrete st.buffers b []; pool = remove b st.pool }, b)
    else (
      record st {
        buffers = update ℕ_discrete st.buffers st.next_buffer [];
        next_buffer = st.next_buffer + 1;
      },
      st.next_buffer,
    )

-- The writes of a TS writer go behind what the buffer holds.
unfoldable pub append_to : ℕ → Bytes → Store → Store
append_to b bs st = record st { buffers = update ℕ_discrete st.buffers b (st.buffers b ++ bs) }

-- A new segment, with one reference; the result is its address.
unfoldable pub new_segment : Segment → Store → Store × ℕ
unfolding write_segment
new_segment seg st = (
  record (write_segment st.next_segment (record seg { ref_count = 1 }) st) {
    next_segment = st.next_segment + 1;
  },
  st.next_segment,
)

-- Another user of the pool writes to a buffer that is not in use here.
unfoldable pub scribble : ℕ → Bytes → Store → Store
scribble b bs st =
    if ltb 0 (count b st.pool)
    then record st { buffers = update ℕ_discrete st.buffers b bs }
    else st
