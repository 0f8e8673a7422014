-- ===== src/Stream/Tests.antt =====
-- The theorems on the manager and on billing at concrete cameras.
use ruseon_core.Common.{ℕ, ◌≡◌, refl, Bool, true, false, none, some, [], ◌∷◌, arith, ◌⊎◌}
use ruseon_core.Common.Int.{pos}
use ruseon_core.Common.Bytes.{Bytes, bytes_discrete}
use ruseon_core.Common.Dict.{lookup}
use ruseon_core.Storage.{CameraConfig, ok}
use ruseon_core.Stream.{
  Stream, Manager, PipelineConfig, new_manager, new_stream, add_stats, get_stream,
  get_cumulative_stats, remove_stream, upsert_stream, sync_with_storage,
}
use ruseon_core.Stream.Totals.{
  IsDistinct, remove_stream-get_cumulative_stats, upsert_stream-get_cumulative_stats,
}
use ruseon_core.Stream.Sync.{Serves, wanted, sync_with_storage_lem}
use ruseon_core.Stream.Billing.{
  Billing, at, Gained, collect_billing_delta, collect_billing_delta_lem,
}
use ruseon_core.Stream.Billing

abbrev plain : PipelineConfig
plain = record {
  url = 9 ∷ [];
  record_archive = true;
  lazy_hls = false;
  transport = [];
  token_auth = false;
}

abbrev busy : Stream
busy = record (new_stream (1 ∷ []) plain) {
  stats = record { frames = 5; bytes_received = 70; bytes_sent = 8; drops = 1; reconnects = 2 };
}

abbrev two_cameras : Manager
two_cameras = record new_manager {
  streams = (1 ∷ [], busy) ∷ (2 ∷ [], new_stream (2 ∷ []) plain) ∷ [];
}

remove_stream-get_cumulative_stats_example :
    get_cumulative_stats (remove_stream (1 ∷ []) two_cameras) ≡ get_cumulative_stats two_cameras
unfolding IsDistinct lookup bytes_discrete
remove_stream-get_cumulative_stats_example =
    remove_stream-get_cumulative_stats (1 ∷ []) two_cameras (refl, (refl, _))

upsert_stream-get_cumulative_stats_example :
    get_cumulative_stats two_cameras
    ≡ add_stats (get_cumulative_stats (upsert_stream (1 ∷ []) plain true two_cameras)) busy.stats
unfolding IsDistinct lookup bytes_discrete
upsert_stream-get_cumulative_stats_example =
    upsert_stream-get_cumulative_stats (1 ∷ []) plain two_cameras busy (refl, (refl, _)) refl

abbrev camera : Bytes → Bool → CameraConfig
camera id disabled = record {
  id = id;
  url = 9 ∷ [];
  record_archive = true;
  retention_days = pos 7;
  tags = [];
  folder_id = [];
  comment = [];
  sim_phone = [];
  sim_iccid = [];
  lazy_hls = true;
  transport = [];
  token_auth = false;
  traffic_limit = 0;
  traffic_used = 0;
  last_reset_month = [];
  disabled = disabled;
  disable_reason = [];
  disable_history = [];
  record_history = [];
}

sync_with_storage_lem_example :
    (let (m', error) =
        sync_with_storage (ok (camera (1 ∷ []) false ∷ camera (2 ∷ []) true ∷ [])) two_cameras in
      (error ≡ none)
      × (((wanted (2 ∷ []) (camera (1 ∷ []) false ∷ camera (2 ∷ []) true ∷ []) ≡ none)
            × (get_stream (2 ∷ []) m' ≡ none))
          ⊎ ((cam : CameraConfig) × (wanted
                  (2 ∷ [])
                  (camera (1 ∷ []) false ∷ camera (2 ∷ []) true ∷ [])
                ≡ some cam)
              × Serves (2 ∷ []) cam m')))
sync_with_storage_lem_example =
    sync_with_storage_lem (2 ∷ []) (camera (1 ∷ []) false ∷ camera (2 ∷ []) true ∷ []) two_cameras

abbrev seen : Billing
seen = record { last_bytes = (1 ∷ [], 70) ∷ []; pending_delta = (1 ∷ [], 30) ∷ [] }

collect_billing_delta_lem_example :
    (let b' = collect_billing_delta ((1 ∷ [], 50) ∷ []) seen in
      ((lookup {V = ℕ} bytes_discrete (1 ∷ []) ((1 ∷ [], 50) ∷ []) ≡ none)
        × (at (1 ∷ []) b'.pending_delta ≡ at (1 ∷ []) seen.pending_delta)
        × (lookup bytes_discrete (1 ∷ []) b'.last_bytes ≡ none))
      ⊎ ((current : ℕ) × (lookup {V = ℕ} bytes_discrete (1 ∷ []) ((1 ∷ [], 50) ∷ []) ≡ some current)
          × Gained
              (at (1 ∷ []) seen.last_bytes)
              current
              (at (1 ∷ []) seen.pending_delta)
              (at (1 ∷ []) b'.pending_delta)
          × (lookup bytes_discrete (1 ∷ []) b'.last_bytes ≡ some current)))
unfolding Billing.IsDistinct lookup bytes_discrete
collect_billing_delta_lem_example =
    collect_billing_delta_lem (1 ∷ []) ((1 ∷ [], 50) ∷ []) seen (refl, _) (omega arith)
