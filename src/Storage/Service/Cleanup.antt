-- ===== src/Storage/Service/Cleanup.antt =====
-- Deletions (internal/storage/service.go): of one file, of an application's files, of an uploader's
-- personal files, of what nothing refers to and of uploads that were not completed.
pub mod Keeps
pub mod Complete
pub mod Spares
use prappser_spaces.Base.{
  ℕ, String, Bool, true, false, not, ◌&&◌, ◌||◌, Option, none, some, List, [], ◌∷◌, ◌++◌, ◌==◌,
  if◌then◌else◌,
}
use prappser_spaces.Base.Int.{ℤ, pos, ◌-ℤ◌}
use prappser_spaces.Result.{Result, ok, err, guard, Error}
use prappser_spaces.Storage.{Storage}
use prappser_spaces.Storage.Repository.{
  Table, get_storage_by_id, delete_storage, get_by_application_id, delete_by_application_id,
  get_personal_by_uploader, mark_referenced, delete_unreferenced, delete_stale_pending,
}
use prappser_spaces.Storage.Run.{
  Service, State, Run, ◌>>=◌, ◌>>◌, give, lift, query, change, on_disk, ignored,
}

-- errors.Join: the marks of all, and no error if there is none.
unfoldable pub join : Result (Unit {0}) → Result (Unit {0}) → Result (Unit {0})
join (ok _) r = r
join (err e) (ok _) = err e
join (err e) (err e') = err (e ++ e')

module _ {Disk : Type 0} (o : Service Disk) where
  -- deleteBlobs; the thumbnail is tried when the file's deletion fails, too.
  unfoldable pub delete_blobs : Storage → Disk → Result (Unit {0}) × Disk
  delete_blobs s d =
      let first = o.backend.delete s.storage_path d in
      if s.thumbnail_path == "" then first else (
        join first.0 (o.backend.delete s.thumbnail_path first.1).0,
        (o.backend.delete s.thumbnail_path first.1).1,
      )

  -- The loop over the files of an application or an uploader, which ends at an error.
  unfoldable pub delete_all_blobs : List Storage → Disk → Result (Unit {0}) × Disk
  unfolding delete_blobs
  delete_all_blobs [] d = (ok tt, d)
  delete_all_blobs (s ∷ rest) d =
      let r = delete_blobs s d in
      let next = delete_all_blobs rest r.1 in elim r.0 [ err e ↦ (err e, r.1) | ok _ ↦ next ]

  -- The loop over purged files, which logs an error and goes on.
  unfoldable pub try_all_blobs : List Storage → Disk → Disk
  unfolding delete_blobs
  try_all_blobs [] d = d
  try_all_blobs (s ∷ rest) d = try_all_blobs rest (delete_blobs s d).1

  abbrev tried : List Storage → Run Disk (Unit {0})
  tried l st = (ok tt, record st { disk = try_all_blobs l st.disk })

  -- Delete; the errors of the backend are logged.
  delete_thumbnail : Storage → Run Disk (Unit {0})
  delete_thumbnail s =
      if s.thumbnail_path == ""
      then give tt
      else ignored (on_disk (o.backend.delete s.thumbnail_path))

  unfoldable pub delete_file : String → String → Run Disk (Unit {0})
  unfolding delete_thumbnail
  delete_file id requestor_public_key = do
    s ← query o.faults.on_get (get_storage_by_id id)
    lift (guard (s.uploader_public_key == requestor_public_key) [])
    ignored (on_disk (o.backend.delete s.storage_path))
    delete_thumbnail s
    change o.faults.on_delete (delete_storage id)

  unfoldable pub cleanup_application_storage : String → Run Disk (Unit {0})
  unfolding delete_all_blobs
  cleanup_application_storage app_id = do
    files ← query o.faults.on_list (λ t. ok (get_by_application_id app_id t))
    on_disk (delete_all_blobs files)
    change o.faults.on_delete (λ t. ok (delete_by_application_id app_id t))

  unfoldable pub delete_personal_blobs : String → Run Disk (Unit {0})
  unfolding delete_all_blobs
  delete_personal_blobs key = do
    files ← query o.faults.on_list (λ t. ok (get_personal_by_uploader key t))
    on_disk (delete_all_blobs files)

  abbrev purge_rows : ℤ → ℕ → Option Error → Run Disk (List Storage)
  purge_rows cutoff limit (some e) st = (err e, st)
  purge_rows cutoff limit none st =
      let r = delete_unreferenced o.referenced cutoff limit st.table in
      (ok r.0, record st { table = r.1 })

  unfoldable pub purge_unreferenced : ℤ → ℕ → Run Disk (Unit {0})
  unfolding try_all_blobs
  purge_unreferenced cutoff limit = do
    change o.faults.on_mark (λ t. ok (mark_referenced o.referenced o.now t))
    purged ← purge_rows cutoff limit o.faults.on_purge
    tried purged

  -- CleanupStalePendingUploads
  unfoldable pub cleanup_stale_pending_uploads : Run Disk (Unit {0})
  cleanup_stale_pending_uploads =
      change o.faults.on_stale (λ t. ok (delete_stale_pending (o.now -ℤ pos 3600) t).1)
