-- ===== src/Stream.antt =====
-- internal/stream/manager.go, with the parts of internal/stream/stream.go that it asks: a stream's
-- configuration and its counters. Each method is one step, as its mutex makes it. What a stream's
-- goroutines do is not modelled: its counters are state, and the streams on which `Stop` was called
-- are listed in the order of the calls.
pub mod Totals
pub mod Sync
pub mod Billing
pub mod Metadata
mod Tests
use ruseon_core.Common.{
  ℕ, ◌≡◌, Bool, true, false, not, ◌&&◌, Option, none, some, List, [], ◌∷◌, ◌++◌, if◌then◌else◌, map,
}
use ruseon_core.Common.Bytes.{Bytes, bytes_discrete, bytes_eq}
use ruseon_core.Common.Dict.{Dict, lookup, insert, erase}
use ruseon_core.Common.Go.{add64}
use ruseon_core.Storage.{CameraConfig, Result, ok, err, Error}

-- `PipelineConfig`
pub record PipelineConfig : Type 0 where
  pub url : Bytes
  pub record_archive : Bool
  pub lazy_hls : Bool
  pub transport : Bytes
  pub token_auth : Bool

-- The counters that `GetCumulativeStats` reads.
pub record Stats : Type 0 where
  pub frames : ℕ
  pub bytes_received : ℕ
  pub bytes_sent : ℕ
  pub drops : ℕ
  pub reconnects : ℕ

abbrev pub zero_stats : Stats
zero_stats = record { frames = 0; bytes_received = 0; bytes_sent = 0; drops = 0; reconnects = 0 }

-- The counters are `uint64`.
unfoldable pub add_stats : Stats → Stats → Stats
add_stats s t = record {
  frames = add64 s.frames t.frames;
  bytes_received = add64 s.bytes_received t.bytes_received;
  bytes_sent = add64 s.bytes_sent t.bytes_sent;
  drops = add64 s.drops t.drops;
  reconnects = add64 s.reconnects t.reconnects;
}

-- `mp4_recorder` says whether there is a recorder.
pub record Stream : Type 0 where
  pub id : Bytes
  pub url : Bytes
  pub transport : Bytes
  pub token_auth : Bool
  pub lazy_hls : Bool
  pub mp4_recorder : Bool
  pub stats : Stats

abbrev pub new_stream : Bytes → PipelineConfig → Stream
new_stream id cfg = record {
  id = id;
  url = cfg.url;
  transport = cfg.transport;
  token_auth = cfg.token_auth;
  lazy_hls = cfg.lazy_hls;
  mp4_recorder = cfg.record_archive;
  stats = zero_stats;
}

abbrev pub bool_eq : Bool → Bool → Bool
bool_eq true b = b
bool_eq false b = not b

unfoldable pub matches_config : PipelineConfig → Stream → Bool
matches_config cfg s =
    bytes_eq s.url cfg.url
    && bytes_eq s.transport cfg.transport
    && bool_eq s.lazy_hls cfg.lazy_hls
    && bool_eq s.token_auth cfg.token_auth
    && bool_eq s.mp4_recorder cfg.record_archive

pub record Manager : Type 0 where
  pub streams : Dict Bytes Stream
  pub cumulative : Stats
  pub stopped : List Stream

abbrev pub new_manager : Manager
new_manager = record { streams = []; cumulative = zero_stats; stopped = [] }

abbrev pub get_stream : Bytes → Manager → Option Stream
get_stream id m = lookup bytes_discrete id m.streams

-- True is an error: the stream exists.
pub add_stream : Bytes → PipelineConfig → Manager → Manager × Bool
add_stream id cfg m = elim (get_stream id m) [
  | some st ↦ (m, true)
  | none ↦ (record m { streams = insert bytes_discrete id (new_stream id cfg) m.streams }, false)
]

pub remove_stream : Bytes → Manager → Manager
remove_stream id m = elim (get_stream id m) [
  | none ↦ m
  | some st ↦ record {
    streams = erase bytes_discrete id m.streams;
    cumulative = add_stats m.cumulative st.stats;
    stopped = m.stopped ++ (st ∷ []);
  }
]

-- The loop of `GetCumulativeStats`, from the manager's own counters.
unfoldable pub sum_stats : Stats → Dict Bytes Stream → Stats
sum_stats s [] = s
sum_stats s ((id, st) ∷ streams) = sum_stats (add_stats s st.stats) streams

pub get_cumulative_stats : Manager → Stats
get_cumulative_stats m = sum_stats m.cumulative m.streams

-- The last argument is `disabled`.
pub upsert_stream : Bytes → PipelineConfig → Bool → Manager → Manager
upsert_stream id cfg true m = elim (get_stream id m) [
  | none ↦ m
  | some st ↦ record m {
    streams = erase bytes_discrete id m.streams;
    stopped = m.stopped ++ (st ∷ []);
  }
]
upsert_stream id cfg false m = elim (get_stream id m) [
  | none ↦ record m { streams = insert bytes_discrete id (new_stream id cfg) m.streams }
  | some st ↦ if matches_config cfg st then m else record m {
    streams = insert bytes_discrete id (new_stream id cfg) m.streams;
    stopped = m.stopped ++ (st ∷ []);
  }
]

abbrev pub pipeline_of : CameraConfig → PipelineConfig
pipeline_of cam = record {
  url = cam.url;
  record_archive = cam.record_archive;
  lazy_hls = cam.lazy_hls;
  transport = cam.transport;
  token_auth = cam.token_auth;
}

-- One round of the first loop of `SyncWithStorage`; `stopped` collects `toStop`.
unfoldable pub sync_camera : CameraConfig → Manager → Manager
sync_camera cam m = if cam.disabled then m else upsert_stream cam.id (pipeline_of cam) false m

unfoldable pub sync_cameras : List CameraConfig → Manager → Manager
sync_cameras [] m = m
sync_cameras (cam ∷ cams) m = sync_cameras cams (sync_camera cam m)

-- `activeIDs`
unfoldable pub is_active : Bytes → List CameraConfig → Bool
is_active id [] = false
is_active id (cam ∷ cams) =
    let rest = is_active id cams in if not cam.disabled && bytes_eq cam.id id then true else rest

-- The second loop of `SyncWithStorage`: what stays, and what is stopped.
unfoldable pub keep_active : List CameraConfig → Dict Bytes Stream → Dict Bytes Stream
keep_active cams [] = []
keep_active cams ((id, st) ∷ streams) =
    let rest = keep_active cams streams in if is_active id cams then (id, st) ∷ rest else rest

unfoldable pub obsolete : List CameraConfig → Dict Bytes Stream → List Stream
obsolete cams [] = []
obsolete cams ((id, st) ∷ streams) =
    let rest = obsolete cams streams in if is_active id cams then rest else st ∷ rest

pub sync_with_storage : Result (List CameraConfig) → Manager → Manager × Option Error
sync_with_storage (err e) m = (m, some e)
sync_with_storage (ok cams) m =
    let m' = sync_cameras cams m in
    (
      record m' {
        streams = keep_active cams m'.streams;
        stopped = m'.stopped ++ obsolete cams m'.streams;
      },
      none,
    )

pub close : Manager → Manager
close m = record m { streams = []; stopped = m.stopped ++ map (λ e. e.1) m.streams }
