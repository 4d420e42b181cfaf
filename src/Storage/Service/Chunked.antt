-- ===== src/Storage/Service/Chunked.antt =====
-- The chunks of an upload and its completion (internal/storage/service.go).
pub mod Keeps
pub mod Joined
use prappser_spaces.Base.{
  ℕ, suc, String, Bool, true, false, not, ◌&&◌, ◌||◌, Option, none, some, List, [], ◌∷◌, ◌++◌, ◌==◌,
  length, if◌then◌else◌,
}
use prappser_spaces.Base.Int.{ℤ, pos, ltb_ℤ, eqb_ℤ}
use prappser_spaces.Result.{Result, ok, err, guard, Error, file_too_large}
use prappser_spaces.Storage.{Bytes, Storage, StorageChunk, is_pending, ready}
use prappser_spaces.Storage.Repository.{
  Table, get_storage_by_id, get_chunks, create_chunk, delete_chunks, update_status,
}
use prappser_spaces.Storage.Run.{
  Service, State, Run, ◌>>=◌, ◌>>◌, give, lift, query, change, on_disk, from_disk, ignored,
}
use prappser_spaces.Storage.Service.{populate_urls, save_image, chunk_path}

module _ {Disk : Type 0} (o : Service Disk) where
  -- UploadChunk
  unfoldable pub upload_chunk : String → ℤ → Result Bytes → Run Disk (Unit {0})
  upload_chunk id index content = do
    s ← query o.faults.on_get (get_storage_by_id id)
    lift (guard (is_pending s.status) [])
    x ← lift content
    on_disk (o.backend.store (chunk_path s.storage_path index) x)
    change o.faults.on_chunk (λ t. ok (
        create_chunk
          (record {
            storage_id = id;
            chunk_index = index;
            chunk_size = pos (length x);
            checksum = o.sha256 x;
            uploaded_at = o.now;
          })
          t))

  -- The loop that reads the chunks, which have to be numbered from `i` on, and joins them.
  unfoldable pub combine : String → ℕ → List StorageChunk → Disk → Result Bytes
  combine path i [] d = ok []
  combine path i (c ∷ cs) d =
      let rest = combine path (suc i) cs d in
      if eqb_ℤ c.chunk_index (pos i)
      then elim (o.backend.fetch (chunk_path path (pos i)) d) [
        | err e ↦ err e
        | ok x ↦ elim rest [ err e ↦ err e | ok y ↦ ok (x ++ y) ]
      ]
      else err []

  -- The loop that deletes the chunks, whose errors are not looked at.
  unfoldable pub drop_chunks : String → List StorageChunk → Disk → Disk
  drop_chunks path [] d = d
  drop_chunks path (c ∷ cs) d =
      drop_chunks path cs (o.backend.delete (chunk_path path c.chunk_index) d).1

  abbrev dropped : String → List StorageChunk → Run Disk (Unit {0})
  dropped path cs st = (ok tt, record st { disk = drop_chunks path cs st.disk })

  -- The part of CompleteChunkedUpload behind its checks.
  unfoldable pub finish : Storage → List StorageChunk → Bytes → String → Run Disk Storage
  unfolding drop_chunks
  finish s chunks x base_url = do
    on_disk (o.backend.store s.storage_path x)
    dropped s.storage_path chunks
    ignored (change o.faults.on_delete_chunks (λ t. ok (delete_chunks s.id t)))
    s' ← save_image o s x
    let done = record s' { size_bytes = pos (length x); status = ready }
    change o.faults.on_update (update_status s.id ready)
    give (populate_urls o done base_url)

  abbrev is_empty : List StorageChunk → Bool
  is_empty [] = true
  is_empty (c ∷ cs) = false

  -- `size > stored.SizeBytes || size > s.maxFileSize`, and the checksum
  unfoldable pub check_whole : Storage → Bytes → Result (Unit {0})
  check_whole s x =
      let size = pos (length x) in
      elim (guard (not (ltb_ℤ s.size_bytes size || ltb_ℤ o.max_file_size size))
        (file_too_large ∷ [])) [
          | err e ↦ err e
          | ok _ ↦ guard (s.checksum == "" || (o.sha256 x == s.checksum)) []
        ]

  -- CompleteChunkedUpload
  unfoldable pub complete_chunked_upload : String → String → Run Disk Storage
  unfolding combine check_whole finish
  complete_chunked_upload id base_url = do
    s ← query o.faults.on_get (get_storage_by_id id)
    lift (guard (is_pending s.status) [])
    chunks ← query o.faults.on_chunks (λ t. ok (get_chunks id t))
    lift (guard (not (is_empty chunks)) [])
    x ← from_disk (combine s.storage_path 0 chunks)
    lift (check_whole s x)
    finish s chunks x base_url
