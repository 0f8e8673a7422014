-- ===== src/Storage/Tests.antt =====
-- The storage theorems over a database that is a list of keys with their cameras.
use ruseon_core.Common.{
  ◌++◌, ◌⊎◌, ℕ, ◌≡◌, refl, sym, ap, true, false, Option, none, some, List, [], ◌∷◌, arith, ite,
}
use ruseon_core.Common.Int.{pos}
use ruseon_core.Common.Bytes.{Bytes, bytes_discrete, strip_prefix, codes}
use ruseon_core.Common.Dict.{Dict, lookup, insert, erase, lookup-insert, lookup-erase}
use ruseon_core.Storage.Backend.{Database, Codec}
use ruseon_core.Auth.{User}
use ruseon_core.Storage.{
  err, not_found, prefix_user, get_user, save_user, save_record, CameraConfig, Storage, ok, update,
  get_camera, save_camera, list_cameras, prefix_camera, list, batch_update_traffic, put, camera_key,
}
use ruseon_core.Storage.Records.{get_user-save_user, get_camera-save_camera}
use ruseon_core.Storage.Cache.{
  run, Op, save, delete, list_all, list_cameras_fresh, save_camera_interleaved, lists,
  save_camera_race,
}
use ruseon_core.Storage.Traffic.{IsPrefixOf, batch_update_traffic-IsPrefixOf}

module _ {V : Type 0} where
  keep : Option Bytes → V → List V → List V
  keep none v vs = vs
  keep (some rest) v vs = v ∷ vs

  scan_list : Bytes → Dict Bytes V → List V
  unfolding keep
  scan_list p [] = []
  scan_list p ((k, v) ∷ db) = keep (strip_prefix p k) v (scan_list p db)

  scan_list-insert :
      (p k : Bytes) (v : V) (db : Dict Bytes V)
      → strip_prefix p k ≡ none
      → scan_list p (insert bytes_discrete k v db) ≡ scan_list p db
  unfolding scan_list insert keep
  scan_list-insert p k v [] h = rw h
  scan_list-insert p k v ((i, w) ∷ db) h = elim (bytes_discrete i k) [
    | yes same ↦ ground (arith, h, same, ap (strip_prefix p) same)
    | no other ↦ ground (arith, scan_list-insert p k v db h, other)
  ]

abbrev toy_of : Type 0 → Database
toy_of V = record {
  Db = Dict Bytes V;
  Value = V;
  get = lookup bytes_discrete;
  set = insert bytes_discrete;
  remove = erase bytes_discrete;
  scan = scan_list;
  get-set = λ k i v db. lookup-insert bytes_discrete k i v db;
  get-remove = λ k i db. lookup-erase bytes_discrete k i db;
  scan-set = scan_list-insert;
}

abbrev toy : Database
toy = toy_of CameraConfig

abbrev plain : Codec toy CameraConfig
plain = record { marshal = some; unmarshal = some; unmarshal-marshal = λ t v e. sym e }

abbrev camera : ℕ → CameraConfig
camera i = record {
  id = i ∷ [];
  url = [];
  record_archive = true;
  retention_days = pos 7;
  tags = [];
  folder_id = [];
  comment = [];
  sim_phone = [];
  sim_iccid = [];
  lazy_hls = false;
  transport = [];
  token_auth = false;
  traffic_limit = 0;
  traffic_used = 0;
  last_reset_month = [];
  disabled = false;
  disable_reason = [];
  disable_history = [];
  record_history = [];
}

abbrev empty : Storage toy
empty = record { db = []; cached_cameras = none }

abbrev one : Storage toy
unfolding save_camera
one = (save_camera toy plain false (camera 1) empty).0

get_camera-save_camera_example :
    get_camera toy plain (1 ∷ []) one
    ≡ ite (bytes_discrete (1 ∷ []) (1 ∷ [])) (ok (camera 1)) (get_camera toy plain (1 ∷ []) empty)
unfolding save_camera update put
get_camera-save_camera_example =
    get_camera-save_camera toy plain false (camera 1) (1 ∷ []) empty one refl

abbrev work : List (Op toy plain)
work =
    save false (camera 1) ∷ list_all ∷ save true (camera 2) ∷ delete false (1 ∷ []) ∷ list_all ∷ []

list_cameras_fresh_example :
    ((list_cameras toy plain (run toy plain work empty)).1
      ≡ list toy plain prefix_camera (run toy plain work empty).db)
    × ((list_cameras toy plain (run toy plain work empty)).0.db ≡ (run toy plain work empty).db)
list_cameras_fresh_example = list_cameras_fresh toy plain work empty refl

save_camera_race_example :
    ((save_camera_interleaved toy plain false (lists toy plain) (camera 1) empty).1 ≡ none)
    × (get_camera toy plain
          (1 ∷ [])
          (save_camera_interleaved toy plain false (lists toy plain) (camera 1) empty).0
        ≡ ok (camera 1))
    × ((list_cameras toy plain
          (save_camera_interleaved toy plain false (lists toy plain) (camera 1) empty).0).1
        ≡ ok [])
unfolding put insert scan_list list
save_camera_race_example =
    save_camera_race toy plain (camera 1) [] empty
      (insert bytes_discrete (camera_key toy plain (1 ∷ [])) (camera 1) []) refl refl

batch_update_traffic-IsPrefixOf_example :
    (let (s', error) =
        batch_update_traffic toy plain (true ∷ []) ((1 ∷ [], 10) ∷ []) (codes "2026-07") one in
      IsPrefixOf toy plain (codes "2026-07") ((1 ∷ [], 10) ∷ []) one.db (s'.db, error))
batch_update_traffic-IsPrefixOf_example =
    batch_update_traffic-IsPrefixOf toy plain (codes "2026-07") (true ∷ []) ((1 ∷ [], 10) ∷ []) one

abbrev users : Codec (toy_of User) User
users = record { marshal = some; unmarshal = some; unmarshal-marshal = λ t v e. sym e }

abbrev root : User
root = record { username = codes "root"; password_hash = 1 ∷ []; role = codes "admin" }

get_user-save_user_example :
    (get_user (toy_of User) users (codes "guest") (save_user (toy_of User) users false root []).0
      ≡ ite
          (bytes_discrete (codes "root") (codes "guest"))
          (ok root)
          (get_user (toy_of User) users (codes "guest") []))
    × ((codes "root" ≡ codes "guest")
        ⊎ ((v : User) × ((toy_of User).get (prefix_user ++ codes "guest") [] ≡ some v))
        ⊎ (get_user
              (toy_of User)
              users
              (codes "guest")
              (save_user (toy_of User) users false root []).0
            ≡ err not_found))
unfolding save_user save_record update put
get_user-save_user_example =
    get_user-save_user (toy_of User) users false root (codes "guest") []
      (save_user (toy_of User) users false root []).0 refl
