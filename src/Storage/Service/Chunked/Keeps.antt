-- ===== src/Storage/Service/Chunked/Keeps.antt =====
-- Chunks and their completion keep the quota of an uploader (internal/storage/service.go).
use prappser_spaces.Base.{String, refl, not, [], List, length}
use prappser_spaces.Base.Int.{ℤ, pos}
use prappser_spaces.Result.{Result, ok, guard}
use prappser_spaces.Storage.{Bytes, Storage, StorageChunk, is_pending, ready}
use prappser_spaces.Storage.Repository.{
  Table, get_storage_by_id, get_chunks, create_chunk, delete_chunks, update_status,
}
use prappser_spaces.Storage.Repository.Within.{IsWithin, IsWithin-rows, update_status-IsWithin}
use prappser_spaces.Storage.Run.{Service, State}
use prappser_spaces.Storage.Run.Hoare.{
  Keeps, OfTable, bind-Hoare, lift-Keeps, query-Keeps, change-Hoare, total-Keeps, ignored-Hoare,
  on_disk-Keeps, from_disk-Keeps, give-Keeps,
}
use prappser_spaces.Storage.Service.{populate_urls, chunk_path}
use prappser_spaces.Storage.Service.Images.{save_image-Keeps}
use prappser_spaces.Storage.Service.Upload.Keeps.{images-IsWithin}
use prappser_spaces.Storage.Service.Chunked.{
  upload_chunk, combine, dropped, finish, is_empty, check_whole, complete_chunked_upload,
}

module _ {Disk : Type 0} (o : Service Disk) (key : String) (quota : ℤ) where
  abbrev Within : State Disk → Type 0
  Within = OfTable (IsWithin key quota)

  create_chunk-IsWithin :
      (c : StorageChunk) (t : Table) → IsWithin key quota t → IsWithin key quota (create_chunk c t)
  unfolding create_chunk
  create_chunk-IsWithin c t w = IsWithin-rows key quota t (create_chunk c t) refl w

  delete_chunks-IsWithin :
      (id : String) (t : Table) → IsWithin key quota t → IsWithin key quota (delete_chunks id t)
  unfolding delete_chunks
  delete_chunks-IsWithin id t w = IsWithin-rows key quota t (delete_chunks id t) refl w

  dropped-Keeps :
      (path : String) (chunks : List StorageChunk) → Keeps Within (dropped o path chunks)
  dropped-Keeps path chunks = record { holds = λ st p. p }

  pub upload_chunk-Keeps :
      (id : String) (index : ℤ) (content : Result Bytes)
      → Keeps Within (upload_chunk o id index content)
  unfolding upload_chunk
  upload_chunk-Keeps id index content =
      let chunk_of : Bytes → StorageChunk = λ x. record {
        storage_id = id;
        chunk_index = index;
        chunk_size = pos (length x);
        checksum = o.sha256 x;
        uploaded_at = o.now;
      } in
      bind-Hoare (query-Keeps o.faults.on_get (get_storage_by_id id)) (λ s.
        bind-Hoare (lift-Keeps (guard (is_pending s.status) [])) (λ _.
          bind-Hoare (lift-Keeps content) (λ x.
            bind-Hoare
              (on_disk-Keeps (IsWithin key quota)
                (o.backend.store (chunk_path s.storage_path index) x))
              (λ _.
                total-Keeps (IsWithin key quota) o.faults.on_chunk (create_chunk (chunk_of x))
                  (λ t w. create_chunk-IsWithin (chunk_of x) t w)))))

  finish-Keeps :
      (s : Storage) (chunks : List StorageChunk) (x : Bytes) (base_url : String)
      → Keeps Within (finish o s chunks x base_url)
  unfolding finish
  finish-Keeps s chunks x base_url =
      bind-Hoare (on_disk-Keeps (IsWithin key quota) (o.backend.store s.storage_path x)) (λ _.
        bind-Hoare (dropped-Keeps s.storage_path chunks) (λ _.
          bind-Hoare
            (ignored-Hoare (
              total-Keeps (IsWithin key quota) o.faults.on_delete_chunks (delete_chunks s.id)
                (delete_chunks-IsWithin s.id)))
            (λ _.
              bind-Hoare
                (save_image-Keeps o Within s x (images-IsWithin o s.storage_path key quota))
                (λ s'.
                  bind-Hoare
                    (change-Hoare o.faults.on_update (update_status s.id ready)
                      (λ st t p e. update_status-IsWithin key quota s.id ready st.table t p e))
                    (λ _. give-Keeps (
                      populate_urls o (record s' { size_bytes = pos (length x); status = ready })
                        base_url))))))

  pub complete_chunked_upload-Keeps :
      (id base_url : String) → Keeps Within (complete_chunked_upload o id base_url)
  unfolding complete_chunked_upload
  complete_chunked_upload-Keeps id base_url =
      bind-Hoare (query-Keeps o.faults.on_get (get_storage_by_id id)) (λ s.
        bind-Hoare (lift-Keeps (guard (is_pending s.status) [])) (λ _.
          bind-Hoare (query-Keeps o.faults.on_chunks (λ t. ok (get_chunks id t))) (λ chunks.
            bind-Hoare (lift-Keeps (guard (not (is_empty o chunks)) [])) (λ _.
              bind-Hoare (from_disk-Keeps (combine o s.storage_path 0 chunks)) (λ x.
                bind-Hoare (lift-Keeps (check_whole o s x))
                  (λ _. finish-Keeps s chunks x base_url))))))
