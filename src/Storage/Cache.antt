-- ===== src/Storage/Cache.antt =====
-- The cache of the camera list beside the database.
use ruseon_core.Common.{
  ℕ, ◌≡◌, refl, sym, ◌⊎◌, inl, inr, subst, Bool, false, Option, none, some, List, [], ◌∷◌, arith,
  Option-cases,
}
use ruseon_core.Common.Bytes.{Bytes}
use ruseon_core.Storage.Backend.{Database, Codec}
use ruseon_core.Storage.{
  CameraConfig, Storage, Error, Result, ok, err, update, put, list, prefix_camera, camera_key,
  invalidate_camera_cache, save_camera, delete_camera, update_camera_tx, batch_update_traffic,
  list_cameras, get_camera, fetch, commit,
}
use ruseon_core.Storage.Records.{fetch-put}

module _ (d : Database) (j : Codec d CameraConfig) where
  -- The list as it would be read now.
  pub stored : Storage d → Result (List CameraConfig)
  stored s = list d j prefix_camera s.db

  -- A cached list is the list that would be read.
  pub IsCoherent : Storage d → Type 0
  IsCoherent s = (cams : List CameraConfig) → s.cached_cameras ≡ some cams → stored s ≡ ok cams

  Result-cases {ℓ} :
      {A : Type ℓ} (r : Result A) → ((a : A) × (r ≡ ok a)) ⊎ ((e : Error) × (r ≡ err e))
  Result-cases (ok a) = inl (a, refl)
  Result-cases (err e) = inr (e, refl)

  cold : (s : Storage d) → s.cached_cameras ≡ none → IsCoherent s
  unfolding IsCoherent
  cold s e cams h = ground arith

  -- One step on the storage: an operation with its arguments, and whether its commit failed.
  pub data Op : Type 0 where
    save : Bool → CameraConfig → Op
    delete : Bool → Bytes → Op
    update_tx : Bool → Bytes → (CameraConfig → CameraConfig × Bool) → Op
    charge_traffic : List Bool → List (Bytes × ℕ) → Bytes → Op
    list_all : Op

  pub step : Op → Storage d → Storage d
  step (save failed cam) s = (save_camera d j failed cam s).0
  step (delete failed id) s = (delete_camera d j failed id s).0
  step (update_tx failed id f) s = (update_camera_tx d j failed id f s).0
  step (charge_traffic faults entries month) s = (batch_update_traffic d j faults entries month s).0
  step list_all s = (list_cameras d j s).0

  pub run : List Op → Storage d → Storage d
  run [] s = s
  run (o ∷ os) s = run os (step o s)

  list_cached :
      (s : Storage d) (cams : List CameraConfig)
      → s.cached_cameras ≡ some cams
      → list_cameras d j s ≡ (s, ok cams)
  unfolding list_cameras
  list_cached s cams e = ground arith

  list_read :
      (s : Storage d) (cams : List CameraConfig)
      → s.cached_cameras ≡ none
      → list d j prefix_camera s.db ≡ ok cams
      → list_cameras d j s ≡ (record s { cached_cameras = some cams }, ok cams)
  unfolding list_cameras
  list_read s cams e l = ground arith

  list_failed :
      (s : Storage d) (x : Error)
      → s.cached_cameras ≡ none
      → list d j prefix_camera s.db ≡ err x
      → list_cameras d j s ≡ (s, err x)
  unfolding list_cameras
  list_failed s x e l = ground arith

  -- What is asked of a listing.
  IsFresh : Storage d → Storage d × Result (List CameraConfig) → Type 0
  IsFresh s (s', answer) = IsCoherent s' × (answer ≡ stored s) × (s'.db ≡ s.db)

  list_cameras-IsFresh : (s : Storage d) → IsCoherent s → IsFresh s (list_cameras d j s)
  unfolding IsCoherent IsFresh stored
  list_cameras-IsFresh s h = elim (Option-cases s.cached_cameras) [
    | inl e ↦ elim (Result-cases (list d j prefix_camera s.db)) [
      | inl (cams, l) ↦
          subst (IsFresh s) (sym (list_read s cams e l)) ((λ cs k. ground (arith, l)), sym l, refl)
      | inr (x, l) ↦ subst (IsFresh s) (sym (list_failed s x e l)) (h, sym l, refl)
    ]
    | inr (cams, e) ↦ subst (IsFresh s) (sym (list_cached s cams e)) (h, sym (h cams e), refl)
  ]

  step-IsCoherent : (o : Op) (s : Storage d) → IsCoherent s → IsCoherent (step o s)
  unfolding step save_camera delete_camera update_camera_tx batch_update_traffic
      invalidate_camera_cache IsFresh
  step-IsCoherent (save failed cam) s h = cold _ refl
  step-IsCoherent (delete failed id) s h = cold _ refl
  step-IsCoherent (update_tx failed id f) s h = cold _ refl
  step-IsCoherent (charge_traffic faults [] month) s h = h
  step-IsCoherent (charge_traffic faults (e ∷ es) month) s h = cold _ refl
  step-IsCoherent list_all s h = (list_cameras-IsFresh s h).0

  run-IsCoherent : (os : List Op) (s : Storage d) → IsCoherent s → IsCoherent (run os s)
  unfolding run
  run-IsCoherent [] s h = h
  run-IsCoherent (o ∷ os) s h = run-IsCoherent os (step o s) (step-IsCoherent o s h)

  -- After any sequence of saves, deletions, transactional updates, traffic charges and listings, whether
  -- their commits succeed or not, on a storage with an empty cache, `ListCameras` answers what a scan of
  -- the database gives, an error included, and does not change the database.
  pub list_cameras_fresh :
      (os : List Op) (s : Storage d)
      → s.cached_cameras ≡ none
      → ((list_cameras d j (run os s)).1 ≡ list d j prefix_camera (run os s).db)
        × ((list_cameras d j (run os s)).0.db ≡ (run os s).db)
  unfolding stored IsFresh
  list_cameras_fresh os s e =
      let (coherent, answer, same) =
        list_cameras-IsFresh (run os s) (run-IsCoherent os s (cold s e)) in
      (answer, same)

  -- `SaveCamera` is not one step: the cache is emptied, and only then the transaction runs and commits. Here
  -- another goroutine makes a step in between.
  pub save_camera_interleaved :
      Bool → (Storage d → Storage d) → CameraConfig → Storage d → Storage d × Option Error
  unfolding invalidate_camera_cache
  save_camera_interleaved failed between cam s =
      let s' = between (invalidate_camera_cache d j s) in
      commit d j s' (update d failed s'.db (put d j (camera_key d j cam.id) cam s'.db))

  -- With no such step it is `save_camera`.
  save_camera_interleaved_alone :
      (failed : Bool) (cam : CameraConfig) (s : Storage d)
      → save_camera_interleaved failed (λ s'. s') cam s ≡ save_camera d j failed cam s
  unfolding save_camera_interleaved save_camera
  save_camera_interleaved_alone failed cam s = refl

  -- A `ListCameras` as a step.
  abbrev pub lists : Storage d → Storage d
  lists s = (list_cameras d j s).0

  -- If a `ListCameras` runs between the two halves of `SaveCamera`, and the cameras can be listed, the camera
  -- marshalled and the transaction committed, then the save succeeds and the camera reads as it was saved,
  -- but the next `ListCameras` answers the list from before the save.
  pub save_camera_race :
      (cam : CameraConfig) (cams : List CameraConfig) (s : Storage d) (db' : d.Db)
      → list d j prefix_camera s.db ≡ ok cams
      → put d j (camera_key d j cam.id) cam s.db ≡ ok db'
      → ((save_camera_interleaved false lists cam s).1 ≡ none)
        × (get_camera d j cam.id (save_camera_interleaved false lists cam s).0 ≡ ok cam)
        × ((list_cameras d j (save_camera_interleaved false lists cam s).0).1 ≡ ok cams)
  unfolding list_cameras invalidate_camera_cache update save_camera_interleaved get_camera
  save_camera_race cam cams s db' h w = ground (arith, h, w, read_back)
    where
      read_back : fetch d j (camera_key d j cam.id) db' ≡ ok cam
      read_back =
          ground
            (arith, fetch-put d j (camera_key d j cam.id) (camera_key d j cam.id) cam s.db db' w)
