-- ===== src/Storage/Service/Cleanup/Keeps.antt =====
-- Deletions keep the quota of an uploader (internal/storage/service.go).
use prappser_spaces.Base.{ℕ, String, Option, none, some, [], ◌==◌}
use prappser_spaces.Base.Int.{ℤ, pos, ◌-ℤ◌}
use prappser_spaces.Result.{ok, guard, Error}
use prappser_spaces.Storage.{Storage}
use prappser_spaces.Storage.Repository.{
  get_storage_by_id, delete_storage, get_by_application_id, delete_by_application_id,
  get_personal_by_uploader, mark_referenced, delete_stale_pending,
}
use prappser_spaces.Storage.Repository.Within.{IsWithin, delete_storage-IsWithin, total-IsWithin}
use prappser_spaces.Storage.Run.{Service, State}
use prappser_spaces.Storage.Run.Hoare.{
  Keeps, OfTable, bind-Hoare, lift-Keeps, query-Keeps, change-Hoare, total-Keeps, ignored-Hoare,
  if-Hoare, on_disk-Keeps, give-Keeps,
}
use prappser_spaces.Storage.Service.Cleanup.{
  delete_file, delete_thumbnail, delete_all_blobs, cleanup_application_storage,
  delete_personal_blobs, purge_rows, purge_unreferenced, cleanup_stale_pending_uploads,
}

module _ {Disk : Type 0} (o : Service Disk) (key : String) (quota : ℤ) where
  abbrev Within : State Disk → Type 0
  Within = OfTable (IsWithin key quota)

  delete_thumbnail-Keeps : (s : Storage) → Keeps Within (delete_thumbnail o s)
  unfolding delete_thumbnail
  delete_thumbnail-Keeps s =
      if-Hoare (s.thumbnail_path == "") (give-Keeps tt)
        (ignored-Hoare (on_disk-Keeps (IsWithin key quota) (o.backend.delete s.thumbnail_path)))

  pub delete_file-Keeps : (id requestor : String) → Keeps Within (delete_file o id requestor)
  unfolding delete_file
  delete_file-Keeps id requestor =
      bind-Hoare (query-Keeps o.faults.on_get (get_storage_by_id id)) (λ s.
        bind-Hoare (lift-Keeps (guard (s.uploader_public_key == requestor) [])) (λ _.
          bind-Hoare
            (ignored-Hoare (on_disk-Keeps (IsWithin key quota) (o.backend.delete s.storage_path)))
            (λ _. bind-Hoare (delete_thumbnail-Keeps s) (λ _.
              change-Hoare o.faults.on_delete (delete_storage id)
                (λ st t p e. delete_storage-IsWithin key quota id st.table t p e)))))

  pub cleanup_application_storage-Keeps :
      (app_id : String) → Keeps Within (cleanup_application_storage o app_id)
  unfolding cleanup_application_storage
  cleanup_application_storage-Keeps app_id =
      bind-Hoare (query-Keeps o.faults.on_list (λ t. ok (get_by_application_id app_id t))) (λ files.
        bind-Hoare (on_disk-Keeps (IsWithin key quota) (delete_all_blobs o files)) (λ _.
          total-Keeps (IsWithin key quota) o.faults.on_delete (delete_by_application_id app_id)
            (λ t w. (total-IsWithin key quota t w).0 app_id)))

  pub delete_personal_blobs-Keeps :
      (uploader : String) → Keeps Within (delete_personal_blobs o uploader)
  unfolding delete_personal_blobs
  delete_personal_blobs-Keeps uploader =
      bind-Hoare (query-Keeps o.faults.on_list (λ t. ok (get_personal_by_uploader uploader t)))
        (λ files. on_disk-Keeps (IsWithin key quota) (delete_all_blobs o files))

  purge_rows-Keeps :
      (cutoff : ℤ) (limit : ℕ) (f : Option Error) → Keeps Within (purge_rows o cutoff limit f)
  purge_rows-Keeps cutoff limit (some e) = record { holds = λ st p. p }
  purge_rows-Keeps cutoff limit none = record {
    holds = λ st p. (total-IsWithin key quota st.table p).3 o.referenced cutoff limit;
  }

  pub purge_unreferenced-Keeps :
      (cutoff : ℤ) (limit : ℕ) → Keeps Within (purge_unreferenced o cutoff limit)
  unfolding purge_unreferenced
  purge_unreferenced-Keeps cutoff limit =
      bind-Hoare
        (total-Keeps (IsWithin key quota) o.faults.on_mark (mark_referenced o.referenced o.now)
          (λ t w. (total-IsWithin key quota t w).2 o.referenced o.now))
        (λ _.
          bind-Hoare (purge_rows-Keeps cutoff limit o.faults.on_purge)
            (λ purged. record { holds = λ st p. p }))

  pub cleanup_stale_pending_uploads-Keeps : Keeps Within (cleanup_stale_pending_uploads o)
  unfolding cleanup_stale_pending_uploads
  cleanup_stale_pending_uploads-Keeps =
      total-Keeps (IsWithin key quota) o.faults.on_stale
        (λ t. (delete_stale_pending (o.now -ℤ pos 3600) t).1)
        (λ t w. (total-IsWithin key quota t w).1 (o.now -ℤ pos 3600))
