-- ===== src/Rtsp/Timestamp/Tests.antt =====
-- Runs of the conversions, and their theorems at concrete inputs.
use ruseon_core.Common.{true, ℕ, ◌+◌, ◌*◌, ◌≤◌, ◌≡◌, refl, [], ◌∷◌, arith}
use ruseon_core.Common.Int.{pos, negsuc}
use ruseon_core.Rtsp.Timestamp.{
  TimestampUnwrapper, unwrap, unwrap_all, new_timestamp_unwrapper, rtp90k_to_duration,
  duration_to90k, max_sec,
}
use ruseon_core.Rtsp.Timestamp.Unwrap.{At, unwrap-At, unwrap_all-map}
use ruseon_core.Rtsp.Timestamp.Convert.{
  rtp90k_to_duration_exact, rtp90k_to_duration_wraps, duration_to90k-rtp90k_to_duration,
}

-- Just before the first rollover.
abbrev late : TimestampUnwrapper
late = record { last_ts = 4294967000; epoch = 0; initialized = true }

unwrap-At_example : ((unwrap 704 late).0 ≡ 4294968000) × At 4294968000 (unwrap 704 late).1
unwrap-At_example =
    unwrap-At 4294967000 4294968000 late (record { started = refl; low = refl; whole = refl })
      (omega arith) (omega arith) (omega arith)

unwrap_all-map_example :
    unwrap_all (4294967000 ∷ 704 ∷ 4294966000 ∷ []) new_timestamp_unwrapper
    ≡ 4294967000 ∷ 4294968000 ∷ 4294966000 ∷ []
unwrap_all-map_example =
    unwrap_all-map 4294967000 (4294968000 ∷ 4294966000 ∷ []) (omega arith) (omega arith)

rtp90k_to_duration_exact_example :
    rtp90k_to_duration (max_sec * 90000 + 76929) ≡ pos 9223372036854766666
rtp90k_to_duration_exact_example = rtp90k_to_duration_exact (max_sec * 90000 + 76929) (omega arith)

rtp90k_to_duration_wraps_example :
    (n : ℕ) × (rtp90k_to_duration (max_sec * 90000 + 89999) ≡ negsuc n)
rtp90k_to_duration_wraps_example =
    rtp90k_to_duration_wraps (max_sec * 90000 + 89999) (omega arith) (omega arith)

duration_to90k-rtp90k_to_duration_example :
    (back : ℕ) × (duration_to90k (rtp90k_to_duration 90001) ≡ pos back)
    × (back ≤ 90001)
    × (90001 ≤ back + 1)
duration_to90k-rtp90k_to_duration_example = duration_to90k-rtp90k_to_duration 90001 (omega arith)
