-- ===== src/Storage/Purge.antt =====
-- The scheduled purge (internal/storage/purge.go) of applications that were deleted long ago and of
-- files that nothing refers to; each run is one of an hourly ticker's.
use prappser_spaces.Base.{ℕ, String, List, [], ◌∷◌}
use prappser_spaces.Base.Int.{ℤ, pos, ◌-ℤ◌}
use prappser_spaces.Result.{Result, ok, err}
use prappser_spaces.Storage.Run.{Service, State}
use prappser_spaces.Storage.Service.Cleanup.{cleanup_application_storage, purge_unreferenced}

-- deletedAppPurger, which the repository of applications implements.
pub record DeletedAppPurger (Apps : Type 0) : Type 0 where
  pub get_purgeable_application_ids : ℤ → ℕ → Apps → Result (List String)
  pub purge_application : String → ℤ → Apps → Result (Unit {0}) × Apps

-- 30 and 90 days in seconds, and the most that one run takes.
abbrev pub deleted_app_retention : ℤ
deleted_app_retention = pos 2592000

abbrev pub unreferenced_blob_grace : ℤ
unreferenced_blob_grace = pos 7776000

abbrev pub purge_batch : ℕ
purge_batch = 100

module _ {Disk Apps : Type 0} (o : Service Disk) (apps : DeletedAppPurger Apps) where
  -- The part of the loop behind the cleanup: without it, the application stays.
  purge_cleaned : String → ℤ → Result (Unit {0}) × State Disk → Apps → State Disk × Apps
  purge_cleaned id cutoff (err e, st) a = (st, a)
  purge_cleaned id cutoff (ok u, st) a = (st, (apps.purge_application id cutoff a).1)

  purge_each : List String → ℤ → State Disk → Apps → State Disk × Apps
  unfolding purge_cleaned
  purge_each [] cutoff st a = (st, a)
  purge_each (id ∷ ids) cutoff st a =
      let r = purge_cleaned id cutoff (cleanup_application_storage o id st) a in
      purge_each ids cutoff r.0 r.1

  purge_listed : Result (List String) → ℤ → State Disk → Apps → State Disk × Apps
  unfolding purge_each
  purge_listed (err e) cutoff st a = (st, a)
  purge_listed (ok ids) cutoff st a = purge_each ids cutoff st a

  unfoldable pub purge_deleted_apps : State Disk → Apps → State Disk × Apps
  unfolding purge_listed
  purge_deleted_apps st a =
      let cutoff = o.now -ℤ deleted_app_retention in
      purge_listed (apps.get_purgeable_application_ids cutoff purge_batch a) cutoff st a

  unfoldable pub purge_unreferenced_blobs : State Disk → State Disk
  purge_unreferenced_blobs st =
      (purge_unreferenced o (o.now -ℤ unreferenced_blob_grace) purge_batch st).1

  -- runOnce
  unfoldable pub run_once : State Disk → Apps → State Disk × Apps
  run_once st a = let r = purge_deleted_apps st a in (purge_unreferenced_blobs r.0, r.1)
