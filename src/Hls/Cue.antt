-- ===== src/Hls/Cue.antt =====
-- The subtitles of a segment, internal/hls/muxer.go: the times of a cue and the WebVTT text. A request
-- of the metadata stream is its `Pts` with its JSON, which is what `json.Marshal` returns for it.
use ruseon_core.Common.{
  ℕ, suc, ◌+◌, ◌-◌, ◌*◌, ◌/◌, ◌%◌, ◌<◌, ◌≡◌, List, [], ◌∷◌, ◌++◌, leb, if◌then◌else◌, length,
  replicate, arith,
}
use ruseon_core.Common.Bytes.{Bytes, codes}
use ruseon_core.Common.Decimal.{decimal}
use ruseon_core.Common.Int.{ℤ, pos, negsuc, pos_part, ltb_ℤ, ◌-ℤ◌}

pub record MetadataRequest : Type 0 where
  pub pts : ℤ
  pub json : Bytes

pub record Clock : Type 0 where
  pub hr : ℕ
  pub minutes : ℕ
  pub sec : ℕ
  pub ms : ℕ

-- Ticks from the start of the segment, 0 for a request from before it.
unfoldable pub local_pts : ℤ → ℤ → ℕ
local_pts start pts = if ltb_ℤ start pts then pos_part (pts -ℤ start) else 0

unfoldable pub cue_start : ℕ → Clock
cue_start t = record {
  hr = t / 90 / 1000 / 60 / 60;
  minutes = t / 90 / 1000 / 60 % 60;
  sec = t / 90 / 1000 % 60;
  ms = t / 90 % 1000;
}

-- 300 ms later, each carry by itself.
unfoldable pub cue_end : Clock → Clock
cue_end c =
    let ms_end = c.ms + 300 in
    let carry_ms = leb 1000 ms_end in
    let sec_end = if carry_ms then c.sec + 1 else c.sec in
    let carry_sec = leb 60 sec_end in
    let min_end = if carry_sec then c.minutes + 1 else c.minutes in
    let carry_min = leb 60 min_end in
    record {
      hr = if carry_min then c.hr + 1 else c.hr;
      minutes = if carry_min then min_end - 60 else min_end;
      sec = if carry_sec then sec_end - 60 else sec_end;
      ms = if carry_ms then ms_end - 1000 else ms_end;
    }

-- `%0nd`
unfoldable pub zero_padded : ℕ → ℕ → Bytes
zero_padded n k = replicate (n - length (decimal k)) 48 ++ decimal k

unfoldable pub clock_text : Clock → Bytes
clock_text c =
    zero_padded 2 c.hr
    ++ codes ":"
    ++ zero_padded 2 c.minutes
    ++ codes ":"
    ++ zero_padded 2 c.sec
    ++ codes "."
    ++ zero_padded 3 c.ms

-- `%d`
unfoldable pub signed_decimal : ℤ → Bytes
signed_decimal (pos n) = decimal n
signed_decimal (negsuc n) = codes "-" ++ decimal (suc n)

unfoldable pub cues : ℤ → List MetadataRequest → Bytes
cues start [] = []
cues start (req ∷ rest) =
    clock_text (cue_start (local_pts start req.pts))
    ++ codes " --> "
    ++ clock_text (cue_end (cue_start (local_pts start req.pts)))
    ++ codes "\n"
    ++ req.json
    ++ codes "\n\n"
    ++ cues start rest

abbrev pub empty_vtt_data : Bytes
empty_vtt_data = codes "WEBVTT\n\n"

unfoldable pub vtt_of : ℤ → List MetadataRequest → Bytes
vtt_of start [] = empty_vtt_data
vtt_of start (req ∷ rest) =
    codes "WEBVTT\n"
    ++ codes "X-TIMESTAMP-MAP=MPEGTS:"
    ++ signed_decimal start
    ++ codes ",LOCAL:00:00:00.000\n\n"
    ++ cues start (req ∷ rest)

abbrev pub total_ms : Clock → ℕ
total_ms c = ((c.hr * 60 + c.minutes) * 60 + c.sec) * 1000 + c.ms

-- A cue starts at the millisecond of its ticks and ends 300 ms later, and its end is a time of day like
-- its start: minutes and seconds below 60, milliseconds below 1000.
pub cue_times :
    (t : ℕ)
    → (total_ms (cue_start t) ≡ t / 90)
      × (total_ms (cue_end (cue_start t)) ≡ t / 90 + 300)
      × ((cue_end (cue_start t)).minutes < 60)
      × ((cue_end (cue_start t)).sec < 60)
      × ((cue_end (cue_start t)).ms < 1000)
unfolding cue_start cue_end
cue_times t = (omega arith, ground arith, ground arith, ground arith, ground arith)
