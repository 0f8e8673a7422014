-- ===== src/Archive/Playback.antt =====
-- The playlist and the segments of a recording, `GenerateHLSPlaylist` and `GenerateHLSSegment` of
-- internal/archive/hls.go. The store of recordings, the fMP4 package, the TS writer and `%.3f` are parameters.
pub mod Segments
use ruseon_core.Common.{
  ℕ, zero, suc, ◌+◌, ◌/◌, ◌<◌, Bool, not, Option, none, some, List, [], ◌∷◌, ◌++◌, if◌then◌else◌,
  ltb, take, drop, length, get_elem?,
}
use ruseon_core.Archive.Cache.{IndexLruCache, get, add, remove_key, clear}
use ruseon_core.Archive.Index.{
  PartInfo, FileIndex, Sample, Track, Part, min_box_header_size, has_bad_size, read_box_header,
  index_of,
}
use ruseon_core.Common.Bytes.{Bytes, codes}
use ruseon_core.Common.Decimal.{decimal}
use ruseon_core.Common.Int.{ℤ, pos, negsuc, ◌+ℤ◌}
use ruseon_core.Hls.Loop.{TsWriter}
use ruseon_core.Rtsp.Timestamp.{to_int64}

pub data InitCodec : Type 0 where
  codec_h264 : Bytes → Bytes → InitCodec
  codec_h265 : Bytes → Bytes → Bytes → InitCodec
  other_codec : InitCodec

-- `fmp4.Init.Unmarshal` gives the codecs of the tracks, `fmp4.Parts.Unmarshal` the parts.
pub record Fmp4 : Type 0 where
  pub init : Bytes → Option (List InitCodec)
  pub parts : Bytes → Option (List Part)

-- Names of files under a directory, as `filepath.Join` puts them together.
module _ (open_blob : Bytes → Option Bytes) (fmp4 : Fmp4) where
  unfoldable pub get_file_index :
      Bytes → IndexLruCache FileIndex → IndexLruCache FileIndex × Option FileIndex
  get_file_index path cache =
      let (cache', found) = get path cache in
      elim found [
        | some idx ↦ (cache', some idx)
        | none ↦ elim (open_blob path) [
          | none ↦ (cache', none)
          | some file ↦
              (add path (index_of fmp4.parts file) cache', some (index_of fmp4.parts file))
        ]
      ]

  unfoldable pub target_duration : List PartInfo → ℕ → ℕ
  target_duration [] longest = longest
  target_duration (p ∷ parts) longest =
      let dur = p.duration / 90000 + 1 in
      target_duration parts (if ltb longest dur then dur else longest)

  unfoldable pub segment_lines : (ℕ → Bytes) → Bytes → ℕ → List PartInfo → Bytes
  segment_lines seconds filename i [] = []
  segment_lines seconds filename i (p ∷ parts) =
      codes "#EXTINF:"
      ++ seconds p.duration
      ++ codes ",\n"
      ++ codes "segment.ts?file="
      ++ filename
      ++ codes "&seq="
      ++ decimal i
      ++ codes "\n"
      ++ segment_lines seconds filename (suc i) parts

  unfoldable pub vod_playlist : (ℕ → Bytes) → Bytes → FileIndex → Bytes
  vod_playlist seconds filename idx =
      codes "#EXTM3U\n"
      ++ codes "#EXT-X-VERSION:3\n"
      ++ codes "#EXT-X-PLAYLIST-TYPE:VOD\n"
      ++ codes "#EXT-X-TARGETDURATION:"
      ++ decimal (target_duration idx.parts 2)
      ++ codes "\n"
      ++ codes "#EXT-X-MEDIA-SEQUENCE:0\n"
      ++ segment_lines seconds filename 0 idx.parts
      ++ codes "#EXT-X-ENDLIST\n"

  -- `seconds` prints a number of 90 kHz ticks as seconds with three digits.
  unfoldable pub generate_hls_playlist :
      (ℕ → Bytes) → Bytes → Bytes → IndexLruCache FileIndex → IndexLruCache FileIndex × Option Bytes
  generate_hls_playlist seconds path filename cache =
      let (cache', found) = get_file_index path cache in
      elim found [
        | none ↦ (cache', none)
        | some idx ↦ (cache', some (vod_playlist seconds filename idx))
      ]

  -- A box at the start of what is left, whole.
  unfoldable pub read_box : Bytes → Option (Bytes × Bytes)
  read_box file = elim (read_box_header file) [
    | none ↦ none
    | some (typ, size, rest) ↦
        if has_bad_size size
        then none
        else if ltb (length file) size
        then none
        else some (take size file, drop size file)
  ]

  -- The two boxes of a fragment, one behind the other.
  unfoldable pub read_fragment : Bytes → Option Bytes
  read_fragment file = elim (read_box file) [
    | none ↦ none
    | some (moof, behind) ↦ elim (read_box behind) [
      | none ↦ none
      | some (mdat, rest) ↦ some (moof ++ mdat)
    ]
  ]

  -- The first track of the first part.
  unfoldable pub first_track : Option (List Part) → Option Track
  first_track (some ((t ∷ tracks) ∷ parts)) = some t
  first_track _ = none

  abbrev is_h265 : InitCodec → Option Bool
  is_h265 (codec_h264 sps pps) = some Bool.false
  is_h265 (codec_h265 vps sps pps) = some Bool.true
  is_h265 other_codec = none

  abbrev pub in_front_of : InitCodec → Bool → List Bytes → List Bytes
  in_front_of (codec_h264 sps pps) key nalus = if key then sps ∷ pps ∷ nalus else nalus
  in_front_of (codec_h265 vps sps pps) key nalus = if key then vps ∷ sps ∷ pps ∷ nalus else nalus
  in_front_of other_codec key nalus = []

  module _ (ts : TsWriter) where
    -- A sample whose units cannot be read is passed over, and so is its duration.
    unfoldable pub write_samples : InitCodec → ℤ → List Sample → ts.Writer → Bytes
    write_samples codec pts [] w = []
    write_samples codec pts (s ∷ samples) w = elim s.h26x [
      | none ↦ write_samples codec pts samples w
      | some nalus ↦
          let key = not s.is_non_sync_sample in
          let (w', out) = ts.write_h26x pts pts key (in_front_of codec key nalus) w in
          out ++ write_samples codec (pts +ℤ pos s.duration) samples w'
    ]

    unfoldable pub mux_track : InitCodec → Track → Option Bytes
    mux_track codec track = elim (is_h265 codec) [
      | none ↦ none
      | some h265 ↦
          let (w, head) = ts.new_writer h265 in
          some (head ++ write_samples codec (to_int64 track.base_time) track.samples w)
    ]

    unfoldable pub segment_of : Bytes → FileIndex → ℕ → Option Bytes
    segment_of file idx seq = elim (get_elem? idx.parts seq) [
      | none ↦ none
      | some p ↦ elim (fmp4.init (drop idx.init_offset file)) [
        | none ↦ none
        | some [] ↦ none
        | some (codec ∷ codecs) ↦ elim (read_fragment (drop p.offset file)) [
          | none ↦ none
          | some combined ↦ elim (first_track (fmp4.parts combined)) [
            | none ↦ none
            | some track ↦ mux_track codec track
          ]
        ]
      ]
    ]

    unfoldable pub generate_hls_segment :
        Bytes → ℤ → IndexLruCache FileIndex → IndexLruCache FileIndex × Option Bytes
    generate_hls_segment path seq cache =
        let (cache', found) = get_file_index path cache in
        elim found [
          | none ↦ (cache', none)
          | some idx ↦ elim seq [
            | negsuc n ↦ (cache', none)
            | pos i ↦ elim (open_blob path) [
              | none ↦ (cache', none)
              | some file ↦ (cache', segment_of file idx i)
            ]
          ]
        ]
