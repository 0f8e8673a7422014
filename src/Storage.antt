-- ===== src/Storage.antt =====
-- pkg/storage/storage.go, with `CameraConfig` of pkg/config/config.go: records under prefixed keys of
-- BadgerDB, the cache of the camera list, traffic, import and export.
-- BadgerDB and the JSON package are arguments. A transaction that returns an error, or that BadgerDB
-- fails to commit (`Fault`), leaves the database as it was.
pub mod Backend
pub mod Records
pub mod Cache
pub mod Traffic
mod Tests
use Backend.{Database, Codec}
use ruseon_core.Common.{
  ℕ, zero, suc, ◌+◌, ◌*◌, ◌^◌, ◌≡◌, Bool, true, false, not, ◌&&◌, Option, none, some, List, [], ◌∷◌,
  ◌++◌, ◌==◌, if◌then◌else◌, map, take, drop, length,
}
use ruseon_core.Common.Bytes.{Bytes, bytes_discrete, bytes_eq, codes}
use ruseon_core.Common.Dict.{Dict}
use ruseon_core.Common.Go.{add64}
use ruseon_core.Common.Int.{ℤ}
use ruseon_core.Auth.{User}

pub record DisableRecord : Type 0 where
  pub timestamp : Bytes
  pub action : Bytes
  pub reason : Bytes

pub record CameraConfig : Type 0 where
  pub id : Bytes
  pub url : Bytes
  pub record_archive : Bool
  pub retention_days : ℤ
  pub tags : List Bytes
  pub folder_id : Bytes
  pub comment : Bytes
  pub sim_phone : Bytes
  pub sim_iccid : Bytes
  pub lazy_hls : Bool
  pub transport : Bytes
  pub token_auth : Bool
  pub traffic_limit : ℕ
  pub traffic_used : ℕ
  pub last_reset_month : Bytes
  pub disabled : Bool
  pub disable_reason : Bytes
  pub disable_history : List DisableRecord
  pub record_history : List DisableRecord

pub record TagConfig : Type 0 where
  pub id : Bytes
  pub name : Bytes
  pub color : Bytes

pub record FolderConfig : Type 0 where
  pub id : Bytes
  pub name : Bytes

pub data Error : Type 0 where
  key_not_found not_found bad_json fault : Error

pub data Result {ℓ} (A : Type ℓ) : Type ℓ where
  ok : A → Result A
  err : Error → Result A

infixl 5 ◌>>=◌
abbrev pub ◌>>=◌ {ℓ κ} : {A : Type ℓ} {B : Type κ} → Result A → (A → Result B) → Result B
ok a >>= f = f a
err e >>= f = err e

abbrev pub or_fail {ℓ} : {A : Type ℓ} → Option A → Error → Result A
or_fail none e = err e
or_fail (some a) e = ok a

abbrev pub prefix_camera : Bytes
prefix_camera = codes "camera:"

abbrev pub prefix_tag : Bytes
prefix_tag = codes "tag:"

abbrev pub prefix_folder : Bytes
prefix_folder = codes "folder:"

abbrev pub prefix_user : Bytes
prefix_user = codes "user:"

abbrev pub default_limit : ℕ
default_limit = 200 * 1024 * 1024 * 1024

abbrev pub batch_size : ℕ
batch_size = 200

first : List Bool → Bool
first [] = false
first (f ∷ fs) = f

others : List Bool → List Bool
others [] = []
others (f ∷ fs) = fs

-- A missing user is `ErrNotFound`, where the other getters pass BadgerDB's error on.
as_not_found : {U : Type 0} → Result U → Result U
as_not_found (ok u) = ok u
as_not_found (err e) = elim e [ key_not_found ↦ err not_found | other ↦ err other ]

module _ (d : Database) where
  open d use {Db, Value, get, set, remove, scan}

  -- The database and the pointer to the cached list.
  pub record Storage : Type 0 where
    pub db : Db
    pub cached_cameras : Option (List CameraConfig)

module _ (d : Database) where
  open d use {Db, Value, get, set, remove, scan}

  -- `db.Update`: the transaction's result is the database if it and the commit succeed.
  pub update : Bool → Db → Result Db → Db × Option Error
  update failed db (err e) = (db, some e)
  update false db (ok db') = (db', none)
  update true db (ok db') = (db, some fault)

  module _ {T : Type 0} (j : Codec d T) where
    open j use {marshal, unmarshal}

    -- Reading and writing one record under its key: the bodies of `Get…`, `Save…` and of the loops.
    pub fetch : Bytes → Db → Result T
    fetch key db = do v ← or_fail (get key db) key_not_found; or_fail (unmarshal v) bad_json

    pub put : Bytes → T → Db → Result Db
    put key t db = or_fail (marshal t) bad_json >>= λ v. ok (set key v db)

    decode_all : List Value → Result (List T)
    decode_all [] = ok []
    decode_all (v ∷ vs) =
        or_fail (unmarshal v) bad_json >>= λ t. decode_all vs >>= λ ts. ok (t ∷ ts)

    -- The iteration of `List…` over a prefix.
    pub list : Bytes → Db → Result (List T)
    unfolding decode_all
    list prefix db = decode_all (scan prefix db)

    -- The loops of `ImportJSON` and `MigrateFromConfig`: each record under its own key.
    pub put_all : (T → Bytes) → List T → Db → Result Db
    put_all key [] db = ok db
    put_all key (t ∷ ts) db = put (key t) t db >>= put_all key ts

    -- What `SaveTag`, `SaveFolder` and `SaveUser` do, on the database alone.
    pub save_record : Bool → Bytes → T → Db → Db × Option Error
    save_record failed key t db = update failed db (put key t db)

  pub delete_record : Bool → Bytes → Db → Db × Option Error
  delete_record failed key db = update failed db (ok (remove key db))

  module _ (j : Codec d TagConfig) where
    pub save_tag : Bool → TagConfig → Db → Db × Option Error
    save_tag failed tag db = save_record j failed (prefix_tag ++ tag.id) tag db

    pub get_tag : Bytes → Db → Result TagConfig
    get_tag id db = fetch j (prefix_tag ++ id) db

    pub list_tags : Db → Result (List TagConfig)
    list_tags db = list j prefix_tag db

  pub delete_tag : Bool → Bytes → Db → Db × Option Error
  delete_tag failed id db = delete_record failed (prefix_tag ++ id) db

  module _ (j : Codec d FolderConfig) where
    pub save_folder : Bool → FolderConfig → Db → Db × Option Error
    save_folder failed folder db = save_record j failed (prefix_folder ++ folder.id) folder db

    pub get_folder : Bytes → Db → Result FolderConfig
    get_folder id db = fetch j (prefix_folder ++ id) db

    pub list_folders : Db → Result (List FolderConfig)
    list_folders db = list j prefix_folder db

  pub delete_folder : Bool → Bytes → Db → Db × Option Error
  delete_folder failed id db = delete_record failed (prefix_folder ++ id) db

  module _ (j : Codec d User) where
    pub save_user : Bool → User → Db → Db × Option Error
    save_user failed user db = save_record j failed (prefix_user ++ user.username) user db

    pub get_user : Bytes → Db → Result User
    unfolding as_not_found
    get_user name db = as_not_found (fetch j (prefix_user ++ name) db)

    pub list_users : Db → Result (List User)
    list_users db = list j prefix_user db

  pub delete_user : Bool → Bytes → Db → Db × Option Error
  delete_user failed name db = delete_record failed (prefix_user ++ name) db

  -- `HasUsers`
  pub has_users : Db → Bool
  has_users db = elim (scan prefix_user db) [ [] ↦ false | v ∷ vs ↦ true ]

module _ (d : Database) (j : Codec d CameraConfig) where
  open d use {Db, Value, get, set, remove, scan}

  abbrev pub camera_key : Bytes → Bytes
  camera_key id = prefix_camera ++ id

  pub invalidate_camera_cache : Storage d → Storage d
  invalidate_camera_cache s = record s { cached_cameras = none }

  -- The end of an operation: its database in the state, and its error.
  abbrev pub commit : Storage d → Db × Option Error → Storage d × Option Error
  commit s (db, e) = (record s { db = db }, e)

  pub save_camera : Bool → CameraConfig → Storage d → Storage d × Option Error
  unfolding invalidate_camera_cache
  save_camera failed cam s =
      commit (invalidate_camera_cache s)
        (update d failed s.db (put d j (camera_key cam.id) cam s.db))

  pub get_camera : Bytes → Storage d → Result CameraConfig
  get_camera id s = fetch d j (camera_key id) s.db

  pub delete_camera : Bool → Bytes → Storage d → Storage d × Option Error
  unfolding invalidate_camera_cache
  delete_camera failed id s =
      commit (invalidate_camera_cache s) (update d failed s.db (ok (remove (camera_key id) s.db)))

  -- The update function returns the camera as it leaves it, and whether it changed it.
  pub update_camera_tx :
      Bool → Bytes → (CameraConfig → CameraConfig × Bool) → Storage d → Storage d × Option Error
  unfolding invalidate_camera_cache
  update_camera_tx failed id update_fn s = commit (invalidate_camera_cache s) (
      update d failed s.db (
        fetch d j (camera_key id) s.db >>= λ cam.
        let (cam', changed) = update_fn cam in
        if changed then put d j (camera_key id) cam' s.db else ok s.db))

  -- `ListCameras`. A clone is equal to what it is made from.
  pub list_cameras : Storage d → Storage d × Result (List CameraConfig)
  list_cameras s = elim s.cached_cameras [
    | some cams ↦ (s, ok cams)
    | none ↦ elim (list d j prefix_camera s.db) [
      | ok cams ↦ (record s { cached_cameras = some cams }, ok cams)
      | err e ↦ (s, err e)
    ]
  ]

  -- One camera's traffic, in the month.
  pub add_traffic : Bytes → ℕ → CameraConfig → CameraConfig
  add_traffic now_month delta cam = record cam {
    last_reset_month = now_month;
    traffic_limit = if cam.traffic_limit == 0 then default_limit else cam.traffic_limit;
    traffic_used =
        add64 (if bytes_eq cam.last_reset_month now_month then cam.traffic_used else 0) delta;
  }

  -- One entry of a chunk: an unknown camera is passed over.
  pub charge : Bytes → Bytes × ℕ → Db → Result Db
  unfolding add_traffic
  charge now_month (id, delta) db = elim (get (camera_key id) db) [
    | none ↦ ok db
    | some v ↦ or_fail (unmarshal v) bad_json >>= λ cam.
        put d j (camera_key id) (add_traffic now_month delta cam) db
  ]
    where
      open j use {unmarshal}

  pub charge_all : Bytes → List (Bytes × ℕ) → Db → Result Db
  charge_all now_month [] db = ok db
  charge_all now_month (e ∷ es) db = charge now_month e db >>= charge_all now_month es

  -- The transactions of the chunks, one after the other: each has its own fault, and the first error
  -- stops the loop with the chunks before it committed. The fuel bounds the number of chunks.
  unfoldable pub commit_chunks : ℕ → List Bool → Bytes → List (Bytes × ℕ) → Db → Db × Option Error
  unfolding first others
  commit_chunks zero faults now_month entries db = (db, none)
  commit_chunks (suc n) faults now_month [] db = (db, none)
  commit_chunks (suc n) faults now_month (e ∷ es) db =
      let (db', error) =
        update d (first faults) db (charge_all now_month (take batch_size (e ∷ es)) db) in
      let rest = commit_chunks n (others faults) now_month (drop batch_size (e ∷ es)) db' in
      elim error [ some x ↦ (db', some x) | none ↦ rest ]

  -- `BatchUpdateTraffic`, on the entries of the map in the order of its iteration.
  pub batch_update_traffic :
      List Bool → List (Bytes × ℕ) → Bytes → Storage d → Storage d × Option Error
  unfolding invalidate_camera_cache
  batch_update_traffic faults [] now_month s = (s, none)
  batch_update_traffic faults (e ∷ es) now_month s =
      commit (invalidate_camera_cache s)
        (commit_chunks (length (e ∷ es)) faults now_month (e ∷ es) s.db)

-- `BackupData`
pub record BackupData : Type 0 where
  pub cameras : List CameraConfig
  pub tags : List TagConfig
  pub folders : List FolderConfig

module _ (d : Database) (j : Codec d CameraConfig) (jt : Codec d TagConfig)
    (jf : Codec d FolderConfig) where
  open d use {scan}

  -- `ExportJSON`, up to the marshalling of the whole.
  pub export_json : Storage d → Storage d × Result BackupData
  export_json s =
      let (s', cams) = list_cameras d j s in
      (
        s',
        cams >>= λ cs. list_tags d jt s.db >>= λ ts.
            list_folders d jf s.db >>= λ fs. ok (record { cameras = cs; tags = ts; folders = fs }),
      )

  -- `ImportJSON`; `none` is a payload that does not parse.
  pub import_json : Bool → Option BackupData → Storage d → Storage d × Option Error
  import_json failed none s = (s, some bad_json)
  import_json failed (some b) s = commit d j (invalidate_camera_cache d j s) (
      update d failed s.db (
        put_all d j (λ c. prefix_camera ++ c.id) b.cameras s.db >>= λ db.
        put_all d jt (λ t. prefix_tag ++ t.id) b.tags db >>= λ db'.
        put_all d jf (λ f. prefix_folder ++ f.id) b.folders db'))

  none_there : Bytes → Storage d → Bool
  none_there prefix s = elim (scan prefix s.db) [ [] ↦ true | v ∷ vs ↦ false ]

  -- `MigrateFromConfig`, on the cameras and the global tags of the configuration.
  pub migrate_from_config :
      Bool → List CameraConfig → List TagConfig → Storage d → Storage d × Option Error
  unfolding none_there
  migrate_from_config failed cams tags s = commit d j (invalidate_camera_cache d j s) (
      update d failed s.db (
        (if none_there prefix_camera s
          then put_all d j (λ c. prefix_camera ++ c.id) cams s.db
          else ok s.db)
        >>= λ db.
            if none_there prefix_tag s
            then put_all d jt (λ t. prefix_tag ++ t.id) tags db
            else ok db))
