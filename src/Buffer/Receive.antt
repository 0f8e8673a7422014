-- ===== src/Buffer/Receive.antt =====
-- One reader's part of a broadcast: `offer` against a description by cases.
use ruseon_core.Common.{
  ℕ, ◌≤◌, ◌≡◌, Bool, true, false, not, ◌&&◌, [], ◌∷◌, ◌++◌, ltb, if◌then◌else◌, length,
  length-append, arith,
}
use ruseon_core.Common.Go.{returns, try_send, add64}
use ruseon_core.Buffer.{Frame, Reader, push_frame, offer}

-- A channel that a send cannot panic on, within its capacity.
pub record IsOpen (cap : ℕ) (r : Reader) : Type 0 where
  pub is_open : r.c.closed ≡ false
  pub room : r.c.cap ≡ cap
  pub fits : length r.c.queue ≤ cap

-- The reader takes part: it is in step, or the frame puts it back in step.
abbrev pub accepts : Frame → Reader → Bool
accepts f r = if r.needs_iframe then f.is_key_frame else true

abbrev pub has_room : Reader → Bool
has_room r = ltb (length r.c.queue) r.c.cap

-- What the broadcast promises to a reader: the frame at the end of its queue, or a counted drop
-- after which only a key frame will do, or nothing at all for one that waits for a key frame.
abbrev pub receive : Frame → Reader → Reader
receive f r =
    if accepts f r
    then if has_room r
      then record r { c = record (r.c) { queue = r.c.queue ++ (f ∷ []) }; needs_iframe = false }
      else record r { drops = add64 r.drops 1; needs_iframe = true }
    else r

abbrev pub drops_frame : Frame → Reader → Bool
drops_frame f r = accepts f r && not (has_room r)

pub offer-receive :
    (f : Frame) (r : Reader)
    → r.c.closed ≡ false
    → offer f r ≡ returns (receive f r, drops_frame f r)
unfolding offer push_frame try_send
offer-receive f r h = ground arith

pub receive-IsOpen : {cap : ℕ} (f : Frame) {r : Reader} → IsOpen cap r → IsOpen cap (receive f r)
receive-IsOpen f {r} v = ground (arith, length-append r.c.queue (f ∷ []))
