-- ===== src/Stream/Sync.antt =====
-- What `UpsertStream` and `SyncWithStorage` make of the registered streams.
use native.Mathlib.Omega.{arith}
use ruseon_core.Common.{
  ◌≡◌, ◌≢◌, refl, sym, ap, ◌∙◌, subst, Bool, true, false, not, ◌&&◌, Option, none, some, List, [],
  ◌∷◌, ◌⊎◌, inl, inr, Option-cases, Bool-cases, if◌then◌else◌,
}
use ruseon_core.Common.Bytes.{Bytes, bytes_discrete, bytes_eq}
use ruseon_core.Common.Dict.{
  Dict, lookup, insert, lookup-insert_self, lookup-insert_ne, lookup-erase_ne,
}
use ruseon_core.Storage.{CameraConfig, ok}
use ruseon_core.Stream.{
  Stream, Manager, PipelineConfig, get_stream, upsert_stream, matches_config, new_stream, bool_eq,
  pipeline_of, sync_camera, sync_cameras, is_active, keep_active, sync_with_storage,
}

bool_eq_inv : (a b : Bool) → bool_eq a b ≡ true → a ≡ b
bool_eq_inv true true h = refl
bool_eq_inv false false h = refl
bool_eq_inv true false h = cc
bool_eq_inv false true h = cc

-- The stream has the settings of a camera.
pub record Runs (cam : CameraConfig) (st : Stream) : Type 0 where
  pub url : st.url ≡ cam.url
  pub transport : st.transport ≡ cam.transport
  pub token_auth : st.token_auth ≡ cam.token_auth
  pub lazy_hls : st.lazy_hls ≡ cam.lazy_hls
  pub records : st.mp4_recorder ≡ cam.record_archive

both : (a b : Bool) → (a && b) ≡ true → (a ≡ true) × (b ≡ true)
both true b h = (refl, h)
both false b h = cc

bytes_eq_inv : (a b : Bytes) → bytes_eq a b ≡ true → a ≡ b
bytes_eq_inv a b h = elim (bytes_discrete a b) [ yes e ↦ e | no n ↦ ground arith ]

matches_config-Runs :
    (cam : CameraConfig) (st : Stream) → matches_config (pipeline_of cam) st ≡ true → Runs cam st
unfolding matches_config
matches_config-Runs cam st h =
    let url = bytes_eq st.url cam.url in
    let transport = bytes_eq st.transport cam.transport in
    let lazy = bool_eq st.lazy_hls cam.lazy_hls in
    let token = bool_eq st.token_auth cam.token_auth in
    let records = bool_eq st.mp4_recorder cam.record_archive in
    let (front, r) = both (url && transport && lazy && token) records h in
    let (front', t) = both (url && transport && lazy) token front in
    let (front'', l) = both (url && transport) lazy front' in
    let (u, p) = both url transport front'' in
    record {
      url = bytes_eq_inv st.url cam.url u;
      transport = bytes_eq_inv st.transport cam.transport p;
      token_auth = bool_eq_inv st.token_auth cam.token_auth t;
      lazy_hls = bool_eq_inv st.lazy_hls cam.lazy_hls l;
      records = bool_eq_inv st.mp4_recorder cam.record_archive r;
    }

-- Registered under its ID with the settings of a camera.
pub Serves : Bytes → CameraConfig → Manager → Type 0
Serves id cam m = (st : Stream) × (get_stream id m ≡ some st) × Runs cam st

upsert_stream-Serves :
    (id : Bytes) (cam : CameraConfig) (m : Manager)
    → Serves id cam (upsert_stream id (pipeline_of cam) false m)
unfolding Serves upsert_stream
upsert_stream-Serves id cam m = elim (Option-cases (get_stream id m)) [
  | inl e ↦ rw (e, upsert_stream) created
  | inr (st, e) ↦ elim (Bool-cases (matches_config (pipeline_of cam) st)) [
    | inl t ↦ rw (e, upsert_stream) (rw t (st, e, matches_config-Runs cam st t))
    | inr f ↦ rw (e, upsert_stream) (rw f created)
  ]
]
  where
    created :
        (s : Stream) × (lookup bytes_discrete id
            (insert bytes_discrete id (new_stream id (pipeline_of cam)) m.streams)
          ≡ some s)
        × Runs cam s
    created = (
      new_stream id (pipeline_of cam),
      lookup-insert_self bytes_discrete id (new_stream id (pipeline_of cam)) m.streams,
      record { url = refl; transport = refl; token_auth = refl; lazy_hls = refl; records = refl },
    )

upsert_stream_ne :
    (id k : Bytes) (cfg : PipelineConfig) (disabled : Bool) (m : Manager)
    → id ≢ k
    → get_stream k (upsert_stream id cfg disabled m) ≡ get_stream k m
unfolding upsert_stream
upsert_stream_ne id k cfg true m n = ground (arith, lookup-erase_ne bytes_discrete id k m.streams n)
upsert_stream_ne id k cfg false m n =
    ground (arith, lookup-insert_ne bytes_discrete id k (new_stream id cfg) m.streams n)

-- What the store asks of an ID: the last enabled camera that has it.
last_of : Option CameraConfig → Bool → CameraConfig → Option CameraConfig
last_of (some later) enabled cam = some later
last_of none true cam = some cam
last_of none false cam = none

pub wanted : Bytes → List CameraConfig → Option CameraConfig
unfolding last_of
wanted id [] = none
wanted id (cam ∷ cams) = last_of (wanted id cams) (not cam.disabled && bytes_eq cam.id id) cam

-- A stream is as wanted, or as it was if nothing is wanted.
Synced : Bytes → Option CameraConfig → Manager → Manager → Type 0
Synced id none m m' = get_stream id m' ≡ get_stream id m
Synced id (some cam) m m' = Serves id cam m'

sync_camera-Synced :
    (id : Bytes) (cam : CameraConfig) (m : Manager)
    → Synced id (last_of none (not cam.disabled && bytes_eq cam.id id) cam) m (sync_camera cam m)
unfolding Synced last_of sync_camera
sync_camera-Synced id cam m = elim (Bool-cases cam.disabled) [
  | inl off ↦ rw off refl
  | inr on ↦ elim (bytes_discrete cam.id id) [
    | yes same ↦
        let e : (not cam.disabled && bytes_eq cam.id id) ≡ true = ground (arith, on, same) in
        subst (λ b. Synced id (last_of none b cam) m (sync_camera cam m)) (sym e)
          (subst (λ i. Serves i cam (sync_camera cam m)) same
            (subst (Serves cam.id cam) (sym (upserts on)) (upsert_stream-Serves cam.id cam m)))
    | no other ↦
        let e : (not cam.disabled && bytes_eq cam.id id) ≡ false = ground (arith, other) in
        subst (λ b. Synced id (last_of none b cam) m (sync_camera cam m)) (sym e)
          (ap (get_stream id) (upserts on)
            ∙ upsert_stream_ne cam.id id (pipeline_of cam) false m other)
  ]
]
  where
    upserts :
        cam.disabled ≡ false → sync_camera cam m ≡ upsert_stream cam.id (pipeline_of cam) false m
    upserts on = ground (arith, on)

Synced-before :
    (id : Bytes) (o : Option CameraConfig) (enabled : Bool) (cam : CameraConfig)
    (m m' m'' : Manager)
    → Synced id (last_of none enabled cam) m m'
    → Synced id o m' m''
    → Synced id (last_of o enabled cam) m m''
unfolding Synced last_of Serves
Synced-before id (some later) enabled cam m m' m'' first after = after
Synced-before id none true cam m m' m'' (st, e, w) after = (st, after ∙ e, w)
Synced-before id none false cam m m' m'' first after = after ∙ first

sync_cameras-Synced :
    (id : Bytes) (cams : List CameraConfig) (m : Manager)
    → Synced id (wanted id cams) m (sync_cameras cams m)
unfolding sync_cameras wanted Synced
sync_cameras-Synced id [] m = refl
sync_cameras-Synced id (cam ∷ cams) m =
    Synced-before id (wanted id cams) (not cam.disabled && bytes_eq cam.id id) cam m
      (sync_camera cam m) (sync_cameras cams (sync_camera cam m)) (sync_camera-Synced id cam m)
      (sync_cameras-Synced id cams (sync_camera cam m))

-- The cameras that are asked for are those that `activeIDs` holds.
is_active-wanted :
    (id : Bytes) (cams : List CameraConfig)
    → ((wanted id cams ≡ none) × (is_active id cams ≡ false))
      ⊎ ((cam : CameraConfig) × (wanted id cams ≡ some cam) × (is_active id cams ≡ true))
unfolding wanted is_active last_of
is_active-wanted id [] = inl (refl, refl)
is_active-wanted id (cam ∷ cams) = elim (is_active-wanted id cams) [
  | inl (w, a) ↦ elim (Bool-cases (not cam.disabled && bytes_eq cam.id id)) [
    | inl t ↦ rw (w, t) (inr (cam, refl, refl))
    | inr f ↦ rw (w, f, a) (inl (refl, refl))
  ]
  | inr (cfg, w, a) ↦ rw (w, a) (inr (cfg, refl, ground arith))
]

lookup-keep_active :
    (id : Bytes) (cams : List CameraConfig) (m : Dict Bytes Stream)
    → lookup bytes_discrete id (keep_active cams m)
      ≡ (if is_active id cams then lookup bytes_discrete id m else none)
unfolding keep_active lookup
lookup-keep_active id cams [] = ground arith
lookup-keep_active id cams ((k, st) ∷ m) = elim (bytes_discrete k id) [
  | yes same ↦ ground (arith, lookup-keep_active id cams m, same, ap (λ i. is_active i cams) same)
  | no other ↦ ground (arith, lookup-keep_active id cams m, other)
]

-- After `SyncWithStorage` on a list that the store could read, there is no error, an ID is registered exactly if
-- some enabled camera has it, and its stream runs with the URL, transport, token check, lazy HLS and recording of the last such camera.
pub sync_with_storage_lem :
    (id : Bytes) (cams : List CameraConfig) (m : Manager)
    → (let (m', error) = sync_with_storage (ok cams) m in
        (error ≡ none)
        × (((wanted id cams ≡ none) × (get_stream id m' ≡ none))
            ⊎ ((cam : CameraConfig) × (wanted id cams ≡ some cam) × Serves id cam m')))
unfolding sync_with_storage Serves Synced
sync_with_storage_lem id cams m = (
  refl,
  elim (is_active-wanted id cams) [
    | inl (w, a) ↦ inl (w, kept ∙ rw a refl)
    | inr (cfg, w, a) ↦
        let (st, e, t) =
          subst (λ o. Synced id o m (sync_cameras cams m)) w (sync_cameras-Synced id cams m) in
        inr (cfg, w, (st, kept ∙ rw a e, t))
  ],
)
  where
    kept :
        lookup bytes_discrete id (keep_active cams (sync_cameras cams m).streams)
        ≡ (if is_active id cams then get_stream id (sync_cameras cams m) else none)
    kept = lookup-keep_active id cams (sync_cameras cams m).streams
