-- ===== src/Hls/Playlist.antt =====
-- The text of the two playlists, `rebuildPlaylistsLocked` of internal/hls/muxer.go. `AppendFloat` with
-- three digits is the parameter `append_float`, a function of the duration. Whole seconds are exact, as
-- they are in a float64 for durations of less than fifty days.
use ruseon_core.Common.{
  ℕ, ◌+◌, ◌-◌, ◌/◌, ◌%◌, List, [], ◌∷◌, ◌++◌, ltb, if◌then◌else◌, length, take,
}
use ruseon_core.Common.Bytes.{Bytes, codes}
use ruseon_core.Common.Decimal.{decimal}
use ruseon_core.Common.Go.{two64}
use ruseon_core.Common.Int.{ℤ, pos, negsuc}
use ruseon_core.Hls.Segments.{Segment}

abbrev pub second : ℕ
second = 1000000000

-- The number in the file name of a segment is its place in the stream.
unfoldable pub ts_name : ℕ → Bytes
ts_name n = codes "stream_" ++ decimal n ++ codes ".ts"

-- `int(d.Seconds())` where that is more than the longest so far.
unfoldable pub longer : ℤ → ℕ → ℕ
longer (pos d) longest = if ltb longest (d / second) then d / second else longest
longer (negsuc d) longest = longest

unfoldable pub max_duration : List Segment → ℕ → ℕ
max_duration [] longest = longest
max_duration (seg ∷ segs) longest = max_duration segs (longer seg.duration longest)

-- `m.seqCount - uint64(len(m.segments)) + 1`
unfoldable pub media_sequence : ℕ → ℕ → ℕ
media_sequence seq n = (seq + (two64 - n % two64) + 1) % two64

module _ (append_float : ℤ → Bytes) where
  abbrev pub entry_head : Segment → Bytes
  entry_head seg =
      (if seg.is_discontinuity then codes "#EXT-X-DISCONTINUITY\n" else [])
      ++ codes "#EXTINF:"
      ++ append_float seg.duration
      ++ codes ",\n"

  unfoldable pub ts_entries : List Segment → Bytes
  ts_entries [] = []
  ts_entries (seg ∷ segs) = entry_head seg ++ seg.name ++ codes "\n" ++ ts_entries segs

  unfoldable pub vtt_entries : List Segment → Bytes
  vtt_entries [] = []
  vtt_entries (seg ∷ segs) =
      entry_head seg
      ++ (if ltb 3 (length seg.name) then take (length seg.name - 3) seg.name else [])
      ++ codes ".vtt\n"
      ++ vtt_entries segs

  unfoldable pub playlist_head : ℕ → List Segment → Bytes
  playlist_head seq segs =
      codes "#EXTM3U\n#EXT-X-VERSION:3\n#EXT-X-TARGETDURATION:"
      ++ decimal (max_duration segs 2 + 1)
      ++ codes "\n"
      ++ codes "#EXT-X-MEDIA-SEQUENCE:"
      ++ decimal (media_sequence seq (length segs))
      ++ codes "\n"

  unfoldable pub media_playlist : ℕ → List Segment → Bytes
  media_playlist seq segs = playlist_head seq segs ++ ts_entries segs

  unfoldable pub subs_playlist : ℕ → List Segment → Bytes
  subs_playlist seq segs = playlist_head seq segs ++ vtt_entries segs
