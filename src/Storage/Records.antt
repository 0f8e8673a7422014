-- ===== src/Storage/Records.antt =====
-- Reading back what was saved: cameras and users of pkg/storage/storage.go.
use ruseon_core.Common.{
  ◌≡◌, sym, ap, ◌∙◌, Bool, true, false, inl, inr, ◌⊎◌, none, some, ◌++◌, ite, if_pos, if_neg, arith,
  Option-cases,
}
use ruseon_core.Common.Bytes.{Bytes, bytes_discrete, append_left_injective}
use ruseon_core.Storage.Backend.{Database, Codec}
use ruseon_core.Auth.{User}
use ruseon_core.Storage.{
  as_not_found, save_user, get_user, save_record, prefix_user, CameraConfig, Storage, key_not_found,
  not_found, Result, ok, err, update, fetch, put, camera_key, prefix_camera, save_camera,
  get_camera, delete_camera,
}

module _ (d : Database) {T : Type 0} (j : Codec d T) where
  put_inv :
      (key : Bytes) (t : T) (db db' : d.Db)
      → put d j key t db ≡ ok db'
      → (v : d.Value) × (j.marshal t ≡ some v) × (d.set key v db ≡ db')
  unfolding put
  put_inv key t db db' h = elim (Option-cases (j.marshal t)) [
    | inl e ↦ ground arith
    | inr (v, e) ↦ (v, e, ground arith)
  ]

  fetch_congr :
      (key : Bytes) (db db' : d.Db)
      → d.get key db' ≡ d.get key db
      → fetch d j key db' ≡ fetch d j key db
  unfolding fetch
  fetch_congr key db db' e = rw (e, fetch)

  fetch-some :
      (key : Bytes) (db : d.Db) (v : d.Value) (t : T)
      → d.get key db ≡ some v
      → j.unmarshal v ≡ some t
      → fetch d j key db ≡ ok t
  unfolding fetch
  fetch-some key db v t e u = ground arith

  fetch-none :
      (key : Bytes) (db : d.Db) → d.get key db ≡ none → fetch d j key db ≡ err key_not_found
  unfolding fetch
  fetch-none key db e = ground arith

  -- One record after a write of another, or of itself.
  pub fetch-put :
      (key k : Bytes) (t : T) (db db' : d.Db)
      → put d j key t db ≡ ok db'
      → fetch d j k db' ≡ ite (bytes_discrete key k) (ok t) (fetch d j k db)
  fetch-put key k t db db' h =
      let (v, m, e) = put_inv key t db db' h in
      elim (bytes_discrete key k) [
        | yes same ↦ rw (if_pos (bytes_discrete key k) same) (
            fetch-some k db' v t
              (ap (d.get k) (sym e)
                ∙ d.get-set key k v db
                ∙ if_pos (bytes_discrete key k) same (some v) (d.get k db))
              (j.unmarshal-marshal t v m))
        | no other ↦ rw (if_neg (bytes_discrete key k) other) (
            fetch_congr k db db' (
              ap (d.get k) (sym e)
              ∙ d.get-set key k v db
              ∙ if_neg (bytes_discrete key k) other (some v) (d.get k db)))
      ]

  pub fetch-remove :
      (key k : Bytes) (db : d.Db)
      → fetch d j k (d.remove key db)
        ≡ ite (bytes_discrete key k) (err key_not_found) (fetch d j k db)
  fetch-remove key k db = elim (bytes_discrete key k) [
    | yes same ↦ rw (if_pos (bytes_discrete key k) same) (
        fetch-none k (d.remove key db)
          (d.get-remove key k db ∙ if_pos (bytes_discrete key k) same none (d.get k db)))
    | no other ↦ rw (if_neg (bytes_discrete key k) other) (
        fetch_congr k db (d.remove key db)
          (d.get-remove key k db ∙ if_neg (bytes_discrete key k) other none (d.get k db)))
  ]

-- Different names have different keys under one prefix.
ite_key {ℓ} :
    {A : Type ℓ} (prefix a b : Bytes) (x y : A)
    → ite (bytes_discrete (prefix ++ a) (prefix ++ b)) x y ≡ ite (bytes_discrete a b) x y
ite_key prefix a b x y = elim (bytes_discrete a b) [
  | yes e ↦
      if_pos (bytes_discrete (prefix ++ a) (prefix ++ b)) (ap (◌++◌ prefix) e) x y
      ∙ sym (if_pos (bytes_discrete a b) e x y)
  | no n ↦
      if_neg (bytes_discrete (prefix ++ a) (prefix ++ b))
        (λ e. n (append_left_injective prefix a b e)) x y
      ∙ sym (if_neg (bytes_discrete a b) n x y)
]

as_not_found-ite :
    {U : Type 0} (a b : Bytes) (x y : Result U)
    → as_not_found (ite (bytes_discrete a b) x y)
      ≡ ite (bytes_discrete a b) (as_not_found x) (as_not_found y)
as_not_found-ite a b x y = ground arith

module _ (d : Database) where
  update_inv :
      (failed : Bool) (db db' : d.Db) (r : Result d.Db)
      → update d failed db r ≡ (db', none)
      → r ≡ ok db'
  unfolding update
  update_inv failed db db' (err e) h = ground arith
  update_inv true db db' (ok x) h = ground arith
  update_inv false db db' (ok x) h = ground arith

module _ (d : Database) (j : Codec d CameraConfig) where
  -- A camera saved without an error is read back as it was saved, under its own ID, and every other
  -- camera reads as before.
  pub get_camera-save_camera :
      (failed : Bool) (cam : CameraConfig) (id : Bytes) (s s' : Storage d)
      → save_camera d j failed cam s ≡ (s', none)
      → get_camera d j id s' ≡ ite (bytes_discrete cam.id id) (ok cam) (get_camera d j id s)
  unfolding save_camera get_camera
  get_camera-save_camera failed cam id s s' h =
      let written : put d j (camera_key d j cam.id) cam s.db ≡ ok s'.db =
        update_inv d failed s.db s'.db _ (ap (λ r. (r.0.db, r.1)) h) in
      fetch-put d j (camera_key d j cam.id) (camera_key d j id) cam s.db s'.db written
      ∙ ite_key prefix_camera cam.id id (ok cam) (fetch d j (camera_key d j id) s.db)

  -- A camera deleted without an error is not found any more, and every other camera reads as before.
  pub get_camera-delete_camera :
      (failed : Bool) (id k : Bytes) (s s' : Storage d)
      → delete_camera d j failed id s ≡ (s', none)
      → get_camera d j k s' ≡ ite (bytes_discrete id k) (err key_not_found) (get_camera d j k s)
  unfolding delete_camera get_camera
  get_camera-delete_camera failed id k s s' h =
      let removed : ok (d.remove (camera_key d j id) s.db) ≡ ok s'.db =
        update_inv d failed s.db s'.db _ (ap (λ r. (r.0.db, r.1)) h) in
      fetch_congr d j (camera_key d j k) (d.remove (camera_key d j id) s.db) s'.db (
        ap (λ (r : Result d.Db). elim r [ ok db ↦ d.get (camera_key d j k) db | err e ↦ none ])
          (sym removed))
      ∙ fetch-remove d j (camera_key d j id) (camera_key d j k) s.db
      ∙ ite_key prefix_camera id k (err key_not_found) (fetch d j (camera_key d j k) s.db)

module _ (d : Database) (j : Codec d User) where
  get_user-put :
      (user : User) (name : Bytes) (db db' : d.Db)
      → put d j (prefix_user ++ user.username) user db ≡ ok db'
      → get_user d j name db'
        ≡ ite (bytes_discrete user.username name) (ok user) (get_user d j name db)
  unfolding get_user
  get_user-put user name db db' written =
      ap as_not_found (
        fetch-put d j (prefix_user ++ user.username) (prefix_user ++ name) user db db' written
        ∙ ite_key prefix_user user.username name (ok user) (fetch d j (prefix_user ++ name) db))
      ∙ as_not_found-ite user.username name (ok user) (fetch d j (prefix_user ++ name) db)

  get_user-missing :
      (name : Bytes) (db : d.Db)
      → d.get (prefix_user ++ name) db ≡ none
      → get_user d j name db ≡ err not_found
  unfolding get_user as_not_found
  get_user-missing name db e = ap as_not_found (fetch-none d j (prefix_user ++ name) db e)

  -- A user saved without an error is read back as it was saved, and every other user reads as before; one of
  -- another name, if the database has no entry for it, is then reported as not found.
  pub get_user-save_user :
      (failed : Bool) (user : User) (name : Bytes) (db db' : d.Db)
      → save_user d j failed user db ≡ (db', none)
      → (get_user d j name db'
          ≡ ite (bytes_discrete user.username name) (ok user) (get_user d j name db))
        × ((user.username ≡ name)
            ⊎ ((v : d.Value) × (d.get (prefix_user ++ name) db ≡ some v))
            ⊎ (get_user d j name db' ≡ err not_found))
  unfolding save_user save_record
  get_user-save_user failed user name db db' h =
      let written : put d j (prefix_user ++ user.username) user db ≡ ok db' =
        update_inv d failed db db' (put d j (prefix_user ++ user.username) user db) h in
      let read = get_user-put user name db db' written in
      (
        read,
        elim (bytes_discrete user.username name) [
          | yes same ↦ inl same
          | no other ↦ inr (elim (Option-cases (d.get (prefix_user ++ name) db)) [
            | inl e ↦ inr (
                read
                ∙ if_neg (bytes_discrete user.username name) other (ok user) (get_user d j name db)
                ∙ get_user-missing name db e)
            | inr found ↦ inl found
          ])
        ],
      )
