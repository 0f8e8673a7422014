-- ===== src/Hls/Muxer.antt =====
-- `Muxer` of internal/hls/muxer.go: its window of segments, the index and the playlists, the watchdog, and what
-- readers call. The run loop is in Loop. `append_float` is the parameter of Playlist.
pub mod Safety
pub mod Readers
pub mod Window
pub mod Lookup
pub mod Names
pub mod Serving
use ruseon_core.Common.{
  ℕ, suc, ◌+◌, ◌-◌, ◌*◌, ◌≡◌, refl, Bool, true, false, ◌&&◌, Option, none, some, List, [], ◌∷◌,
  ◌++◌, map, ltb, leb, if◌then◌else◌, length, take, drop,
}
use ruseon_core.Common.Bytes.{Bytes, bytes_discrete, bytes_eq, codes}
use ruseon_core.Common.Dict.{Dict, insert, lookup}
use ruseon_core.Common.Go.{add64}
use ruseon_core.Common.Int.{ℤ, pos, negsuc, pos_part, neg_part, ltb_ℤ, ◌-ℤ◌}
use ruseon_core.Hls.Cue.{MetadataRequest}
use ruseon_core.Hls.Playlist.{second, ts_name, media_playlist, subs_playlist}
use ruseon_core.Hls.Segments.{copied, Segment, Store, data_of, retain, release, new_segment}

-- Segments stand for pointers, so they are addresses in the store. `first_seg_ready` is the closed
-- channel.
pub record Muxer : Type 0 where
  pub store : Store
  pub target_duration : ℤ
  pub max_segments : ℕ
  pub segments : List ℕ
  pub seg_index : Dict Bytes ℕ
  pub seq_count : ℕ
  pub current_meta : List MetadataRequest
  pub last_frame_time : ℤ
  pub needs_discontinuity : Bool
  pub first_seg_ready : Bool
  pub cached_playlist : Option Bytes
  pub cached_subs_playlist : Option Bytes

-- The limit of the optional argument, if it is at least 3.
unfoldable pub segment_limit : List ℤ → ℕ
segment_limit [] = 3
segment_limit (pos n ∷ rest) = if leb 3 n then n else 3
segment_limit (negsuc n ∷ rest) = 3

unfoldable pub new_muxer : List ℤ → ℤ → Store → Muxer
new_muxer limits now st = record {
  store = st;
  target_duration = pos (2000000000);
  max_segments = segment_limit limits;
  segments = [];
  seg_index = [];
  seq_count = 0;
  current_meta = [];
  last_frame_time = now;
  needs_discontinuity = false;
  first_seg_ready = false;
  cached_playlist = none;
  cached_subs_playlist = none;
}

unfoldable pub index_all : Store → List ℕ → Dict Bytes ℕ → Dict Bytes ℕ
index_all st [] index = index
index_all st (a ∷ rest) index = index_all st rest (insert bytes_discrete (st.heap a).name a index)

-- More than the limit: the oldest segment goes.
unfoldable pub trim : Muxer → Muxer
trim m =
    if ltb m.max_segments (length m.segments)
    then (elim m.segments [
      | [] ↦ m
      | a ∷ rest ↦ record m { store = release a m.store; segments = rest }
    ])
    else m

abbrev pub last : List ℕ → Option ℕ
last [] = none
last (a ∷ []) = some a
last (a ∷ b ∷ rest) = last (b ∷ rest)

-- The copy of the last segment that bridges an interruption.
unfoldable pub bridge : ℕ → Muxer → Segment
bridge a m = record {
  name = ts_name (add64 m.seq_count 1);
  duration = (m.store.heap a).duration;
  bytes = copied (data_of m.store a);
  buf = none;
  ref_count = 1;
  is_discontinuity = true;
  vtt_data = [];
}

abbrev pub silence : ℤ
silence = pos (5 * second)

module _ (append_float : ℤ → Bytes) where
  -- With no segment the playlists stay.
  abbrev unless_empty : List ℕ → Option Bytes → Option Bytes → Option Bytes
  unless_empty [] old new = old
  unless_empty (a ∷ rest) old new = new

  unfoldable pub rebuild_playlists_locked : Muxer → Muxer
  rebuild_playlists_locked m = record m {
    seg_index = index_all m.store m.segments [];
    cached_playlist =
        unless_empty m.segments m.cached_playlist
          (some (media_playlist append_float m.seq_count (map m.store.heap m.segments)));
    cached_subs_playlist =
        unless_empty m.segments m.cached_subs_playlist
          (some (subs_playlist append_float m.seq_count (map m.store.heap m.segments)));
  }

  -- What publishing and the watchdog do with a new segment.
  unfoldable pub push_segment : Segment → Muxer → Muxer
  unfolding rebuild_playlists_locked trim
  push_segment seg m =
      let (st, a) = new_segment seg m.store in
      rebuild_playlists_locked
        (trim (record m { store = st; segments = m.segments ++ (a ∷ []); first_seg_ready = true }))

  unfoldable pub check_watchdog : ℤ → Muxer → Muxer
  check_watchdog now m =
      if ltb_ℤ (pos 0) m.last_frame_time && ltb_ℤ silence (now -ℤ m.last_frame_time)
      then (elim (last m.segments) [
        | none ↦ m
        | some a ↦
            let m' = push_segment (bridge a m) (record m { seq_count = add64 m.seq_count 1 }) in
            record m' { last_frame_time = now; needs_discontinuity = true }
      ])
      else m

  -- `GetPlaylist`. `later` is the muxer when the first segment is ready, or none if a context ends first.
  unfoldable pub rendered : Muxer → Muxer × Option Bytes
  rendered m = elim m.cached_playlist [
    | some p ↦ (m, some p)
    | none ↦ elim m.segments [
      | [] ↦ (m, none)
      | a ∷ rest ↦ let m' = rebuild_playlists_locked m in (m', m'.cached_playlist)
    ]
  ]

  unfoldable pub get_playlist : Option Muxer → Muxer → Muxer × Option Bytes
  get_playlist later m = elim m.cached_playlist [
    | some p ↦ (m, some p)
    | none ↦ elim m.segments [
      | [] ↦ elim later [ none ↦ (m, none) | some m' ↦ rendered m' ]
      | a ∷ rest ↦ rendered m
    ]
  ]

  unfoldable pub get_subs_playlist : Muxer → Muxer × Bytes
  get_subs_playlist m = elim m.cached_subs_playlist [
    | some p ↦ (m, p)
    | none ↦ elim m.segments [
      | [] ↦ (m, [])
      | a ∷ rest ↦
          let m' = rebuild_playlists_locked m in
          (m', elim m'.cached_subs_playlist [ none ↦ [] | some p ↦ p ])
    ]
  ]

unfoldable pub find_named : Store → Bytes → List ℕ → Option ℕ
find_named st name [] = none
find_named st name (a ∷ rest) =
    if bytes_eq (st.heap a).name name then some a else find_named st name rest

unfoldable pub is_vtt : Bytes → Bool
is_vtt name = ltb 4 (length name) && bytes_eq (drop (length name - 4) name) (codes ".vtt")

unfoldable pub ts_name_of : Bytes → Bytes
ts_name_of name = if is_vtt name then take (length name - 4) name ++ codes ".ts" else name

-- The index first, then the window.
unfoldable pub find_segment : Bytes → Muxer → Option ℕ
find_segment name m = elim (lookup bytes_discrete name m.seg_index) [
  | some a ↦ some a
  | none ↦ find_named m.store name m.segments
]

unfoldable pub acquire_segment : Bytes → Muxer → Muxer × Option (ℕ × Bytes)
acquire_segment name m = elim (find_segment (ts_name_of name) m) [
  | none ↦ (m, none)
  | some a ↦ (
    record m { store = retain a m.store },
    some (a, if is_vtt name then codes "text/vtt" else codes "video/mp2t"),
  )
]

unfoldable pub release_segment : ℕ → Muxer → Muxer
release_segment a m = record m { store = release a m.store }

unfoldable pub get_segment : Bytes → Muxer → Muxer × Option (Bytes × Bytes)
get_segment name m =
    let (m', found) = acquire_segment name m in
    elim found [
      | none ↦ (m', none)
      | some (a, mime) ↦ (
        release_segment a m',
        some (
          (if bytes_eq mime (codes "text/vtt")
              then (m'.store.heap a).vtt_data
              else data_of m'.store a),
          mime,
        ),
      )
    ]

unfoldable pub release_all : List ℕ → Store → Store
release_all [] st = st
release_all (a ∷ rest) st = release_all rest (release a st)

-- `Stop`, once the loop has ended.
unfoldable pub stop : Muxer → Muxer
stop m = record m {
  store = release_all m.segments m.store;
  segments = [];
  seg_index = [];
  first_seg_ready = true;
}
