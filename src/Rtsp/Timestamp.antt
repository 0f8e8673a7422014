-- ===== src/Rtsp/Timestamp.antt =====
-- internal/rtsp/timestamp.go: 32-bit RTP timestamps on a 64-bit timeline, and their conversion to
-- and from durations. `uint32`, `uint64` and `int64` wrap as they do in Go.
pub mod Unwrap
pub mod Convert
mod Tests
use ruseon_core.Common.{
  ℕ, zero, suc, ◌+◌, ◌-◌, ◌*◌, ◌/◌, ◌%◌, ◌^◌, Bool, true, false, ltb, leb, ◌&&◌, List, [], ◌∷◌,
  if◌then◌else◌,
}
use ruseon_core.Common.Int.{ℤ, pos, negsuc}
use ruseon_core.Common.Go.{two64, add64}

abbrev pub two32 : ℕ
two32 = 2 ^ 32

abbrev pub half_range : ℕ
half_range = 0x80000000

pub record TimestampUnwrapper : Type 0 where
  pub last_ts : ℕ
  pub epoch : ℕ
  pub initialized : Bool

pub new_timestamp_unwrapper : TimestampUnwrapper
new_timestamp_unwrapper = record { last_ts = 0; epoch = 0; initialized = false }

-- The epoch after a timestamp. Both differences are taken where they do not wrap.
pub next_epoch : TimestampUnwrapper → ℕ → ℕ
next_epoch u ts =
    if ltb ts u.last_ts && ltb half_range (u.last_ts - ts)
    then add64 u.epoch two32
    else if ltb u.last_ts ts && ltb half_range (ts - u.last_ts)
    then if leb two32 u.epoch then u.epoch - two32 else u.epoch
    else u.epoch

pub unwrap : ℕ → TimestampUnwrapper → ℕ × TimestampUnwrapper
unfolding next_epoch
unwrap ts u =
    if u.initialized
    then (add64 (next_epoch u ts) ts, record u { last_ts = ts; epoch = next_epoch u ts })
    else (ts, record { last_ts = ts; epoch = 0; initialized = true })

-- The timestamps of a stream, one call after the other.
pub unwrap_all : List ℕ → TimestampUnwrapper → List ℕ
unwrap_all [] u = []
unwrap_all (ts ∷ rest) u = (unwrap ts u).0 ∷ unwrap_all rest (unwrap ts u).1

abbrev pub max_int64 : ℕ
max_int64 = 2 ^ 63 - 1

-- The `int64` that has the 64 low bits of a number.
abbrev pub to_int64 : ℕ → ℤ
to_int64 n = if leb (n % two64) max_int64 then pos (n % two64) else negsuc (two64 - n % two64 - 1)

abbrev pub second : ℕ
second = 1000000000

abbrev pub max_sec : ℕ
max_sec = max_int64 / second

pub rtp90k_to_duration : ℕ → ℤ
rtp90k_to_duration ts =
    if ltb max_sec (ts / 90000)
    then pos max_int64
    else to_int64 (ts / 90000 * second + ts % 90000 * second / 90000)

-- Go's `/` and `%` round towards zero, so a negative duration is the mirror image; no product or sum
-- here leaves the range of `int64`.
pub ticks : ℕ → ℕ
ticks d = d / second * 90000 + d % second * 90000 / second

pub duration_to90k : ℤ → ℤ
unfolding ticks
duration_to90k (pos d) = pos (ticks d)
duration_to90k (negsuc d) = if ltb 0 (ticks (suc d)) then negsuc (ticks (suc d) - 1) else pos 0
