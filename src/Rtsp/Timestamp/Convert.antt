-- ===== src/Rtsp/Timestamp/Convert.antt =====
-- Conversion between 90 kHz ticks and nanoseconds.
use ruseon_core.Common.{ℕ, ◌+◌, ◌-◌, ◌*◌, ◌/◌, ◌%◌, ◌^◌, ◌≤◌, ◌<◌, ◌≡◌, arith, ap}
use ruseon_core.Common.Int.{pos, negsuc}
use ruseon_core.Common.Go.{two64}
use ruseon_core.Rtsp.Timestamp.{rtp90k_to_duration, duration_to90k, ticks, second, max_sec}

-- A tick count whose duration, rounded down to a nanosecond, fits in an `int64` is converted to that duration.
pub rtp90k_to_duration_exact :
    (ts : ℕ)
    → ts * 1000000000 / 90000 < 2 ^ 63
    → rtp90k_to_duration ts ≡ pos (ts * 1000000000 / 90000)
unfolding rtp90k_to_duration
rtp90k_to_duration_exact ts h = ground arith

-- In the last whole second that is not clamped, from 76930 ticks on, the sum passes the largest
-- `int64`: the result is negative, not clamped.
pub rtp90k_to_duration_wraps :
    (ts : ℕ)
    → ts / 90000 ≡ max_sec
    → 76930 ≤ ts % 90000
    → (n : ℕ) × (rtp90k_to_duration ts ≡ negsuc n)
unfolding rtp90k_to_duration
rtp90k_to_duration_wraps ts h r =
    (two64 - (max_sec * second + ts % 90000 * second / 90000) - 1, ground arith)

-- Seconds and the rest converted apart are the whole converted at once.
ticks-eq : (d : ℕ) → ticks d ≡ d * 90000 / second
unfolding ticks
ticks-eq d = omega arith

tick_bounds :
    (ts : ℕ)
    → (ts * second / 90000 * 90000 / second ≤ ts) × (ts ≤ ts * second / 90000 * 90000 / second + 1)
tick_bounds ts = omega arith

-- A tick count below the last second that fits in `int64`, converted to a duration and back, loses
-- at most one tick.
pub duration_to90k-rtp90k_to_duration :
    (ts : ℕ)
    → ts / 90000 < max_sec
    → (back : ℕ) × (duration_to90k (rtp90k_to_duration ts) ≡ pos back)
      × (back ≤ ts)
      × (ts ≤ back + 1)
unfolding duration_to90k
duration_to90k-rtp90k_to_duration ts h = (
  ticks (ts * second / 90000),
  ap duration_to90k (rtp90k_to_duration_exact ts (omega arith)),
  rw (ticks-eq (ts * second / 90000)) (tick_bounds ts).0,
  rw (ticks-eq (ts * second / 90000)) (tick_bounds ts).1,
)
