-- ===== src/Storage/Service/Upload/Keeps.antt =====
-- Uploads keep the quota of an uploader (internal/storage/service.go).
use prappser_spaces.Base.{
  String, ◌≡◌, Bool, true, false, not, ◌||◌, [], ◌∷◌, ◌==◌, any, length, arith,
}
use prappser_spaces.Base.Int.{ℤ, pos, ◌≤ℤ◌, ltb_ℤ}
use prappser_spaces.Result.{Result, ok, err, guard, guard-eq-ok, file_too_large, is_pq_unique}
use prappser_spaces.Storage.{Bytes, Storage, UploadRequest, ChunkedUploadInitRequest}
use prappser_spaces.Storage.Paths.{thumbnail_path_of, validate_storage_id, is_valid_content_type}
use prappser_spaces.Storage.Repository.{create_storage, get_storage_by_id}
use prappser_spaces.Storage.Repository.Within.{
  IsWithin, HasRoom, create_storage-IsWithin, update_dimensions-IsWithin, update_thumbnail-IsWithin,
}
use prappser_spaces.Storage.Run.{Service, State, ◌>>◌, lift, change}
use prappser_spaces.Storage.Run.Hoare.{
  Hoare, Keeps, OfTable, bind-Hoare, lift-Hoare, lift-Keeps, query-Keeps, change-Hoare,
  caught-Hoare, given-Hoare, if-Hoare, ignored-Hoare, weaken-Hoare, on_disk-Keeps, give-Keeps,
}
use prappser_spaces.Storage.Service.{check_quota, populate_urls}
use prappser_spaces.Storage.Service.Images.{IsBlindToImages, save_image-Keeps}
use prappser_spaces.Storage.Service.Quota.{IsLimited, check_quota-Hoare}
use prappser_spaces.Storage.Service.Upload.{
  Uploader, check_request, read_content, uploaded, after_insert, save_upload, upload, announced,
  insert_error, init_chunked_upload,
}

pub images-IsWithin :
    {Disk : Type 0} (o : Service Disk) (path key : String) (quota : ℤ)
    → IsBlindToImages o path (OfTable (IsWithin key quota))
images-IsWithin o path key quota = record {
  dimensions = λ id w h st t p e. update_dimensions-IsWithin key quota id w h st.table t p e;
  thumbnail = λ id q st t p e. update_thumbnail-IsWithin key quota id q st.table t p e;
  file = λ x. on_disk-Keeps (IsWithin key quota) (o.backend.store (thumbnail_path_of path) x);
}

module _ {Disk : Type 0} (o : Service Disk) (key : String) (quota : ℤ) where
  -- What follows the insert keeps any bound on the sum.
  pub after_insert-Keeps :
      (s : Storage) (x : Bytes) (base_url : String) (r : Result (Unit {0}))
      → Keeps (OfTable (IsWithin key quota)) (after_insert o s x base_url r)
  unfolding after_insert
  after_insert-Keeps s x base_url (ok u) =
      bind-Hoare
        (save_image-Keeps o (OfTable (IsWithin key quota)) s x
          (images-IsWithin o s.storage_path key quota))
        (λ s'. give-Keeps (populate_urls o s' base_url))
  after_insert-Keeps s x base_url (err e) =
      bind-Hoare
        (ignored-Hoare (on_disk-Keeps (IsWithin key quota) (o.backend.delete s.storage_path)))
        (λ _.
          if-Hoare (any is_pq_unique e)
            (bind-Hoare (query-Keeps o.faults.on_get (get_storage_by_id s.id))
              (λ existing. give-Keeps (populate_urls o existing base_url)))
            (lift-Keeps (err e)))

module _ {Disk : Type 0} (o : Service Disk) (key : String) where
  abbrev Within : State Disk → Type 0
  Within = OfTable (IsWithin key o.account_quota)

  not-true : (b : Bool) → not b ≡ true → b ≡ false
  not-true b h = ground arith

  check_request-Hoare :
      (id content_type : String) (size : ℤ)
      → Hoare Within
          (check_request o id content_type size)
          (λ _ s. Within s × (ltb_ℤ o.max_file_size size ≡ false))
          Within
  unfolding check_request
  check_request-Hoare id content_type size = bind-Hoare (lift-Keeps (validate_storage_id id)) (λ _.
      bind-Hoare (lift-Keeps (guard (is_valid_content_type o.media_type content_type) [])) (λ _.
        weaken-Hoare
          (λ a s h. (
            h.0,
            not-true (ltb_ℤ o.max_file_size size)
                (guard-eq-ok (not (ltb_ℤ o.max_file_size size)) (file_too_large ∷ []) h.1),
          ))
          (λ s h. h) (lift-Hoare (guard (not (ltb_ℤ o.max_file_size size)) (file_too_large ∷ [])))))

  read_content-Hoare :
      (content : Result Bytes)
      → Hoare Within
          (read_content o content)
          (λ x s. Within s × (ltb_ℤ o.max_file_size (pos (length x)) ≡ false))
          Within
  unfolding read_content
  read_content-Hoare content = bind-Hoare (lift-Keeps content) (λ x.
      bind-Hoare
        (lift-Hoare (guard (not (ltb_ℤ o.max_file_size (pos (length x)))) (file_too_large ∷ [])))
        (λ a. record {
          holds = λ s h. (
            h.0,
            not-true (ltb_ℤ o.max_file_size (pos (length x))) (
                guard-eq-ok (not (ltb_ℤ o.max_file_size (pos (length x)))) (file_too_large ∷ [])
                  h.1),
          );
        }))

  inserted-Hoare :
      (s : Storage)
      → pos 0 ≤ℤ s.size_bytes
      → Hoare
          (OfTable (HasRoom key o.account_quota s.uploader_public_key s.size_bytes))
          (change o.faults.on_create (create_storage s))
          (λ _. Within)
          Within
  inserted-Hoare s n =
      weaken-Hoare (λ a st h. h) (λ st h. h.now)
        (change-Hoare o.faults.on_create (create_storage s)
          (λ st t h e. create_storage-IsWithin key o.account_quota s st.table t n h e))

  save_upload-Hoare :
      (s : Storage) (x : Bytes) (base_url : String)
      → pos 0 ≤ℤ s.size_bytes
      → Hoare
          (OfTable (HasRoom key o.account_quota s.uploader_public_key s.size_bytes))
          (save_upload o s x base_url)
          (λ _. Within)
          Within
  unfolding save_upload
  save_upload-Hoare s x base_url n =
      bind-Hoare
        (weaken-Hoare (λ a st h. h) (λ st h. h.now)
          (on_disk-Keeps (HasRoom key o.account_quota s.uploader_public_key s.size_bytes)
            (o.backend.store s.storage_path x)))
        (λ _.
          bind-Hoare (caught-Hoare (inserted-Hoare s n))
            (λ r. after_insert-Keeps o key o.account_quota s x base_url r))

  module _ (l : IsLimited o) where
    checked-Keeps :
        (u : Uploader) (req : UploadRequest) (x : Bytes) (base_url : String)
        → (u.public_key ≡ key → u.quota_exempt ≡ false)
        → ltb_ℤ o.max_file_size (pos (length x)) ≡ false
        → Keeps Within (
            check_quota o u.public_key (pos (length x)) u.quota_exempt
            >> (lift (guard (req.checksum == "" || (o.sha256 x == req.checksum)) [])
                >> save_upload o (uploaded o u req x) x base_url))
    unfolding uploaded
    checked-Keeps u req x base_url h m =
        bind-Hoare
          (check_quota-Hoare o l (pos (length x)) (omega arith) m key u.public_key u.quota_exempt h)
          (λ _.
            bind-Hoare
              (weaken-Hoare (λ a st k. k) (λ st k. k.now)
                (lift-Keeps (guard (req.checksum == "" || (o.sha256 x == req.checksum)) [])))
              (λ _. save_upload-Hoare (uploaded o u req x) x base_url (omega arith)))

    pub upload-Keeps :
        (u : Uploader) (req : UploadRequest) (content : Result Bytes) (base_url : String)
        → (u.public_key ≡ key → u.quota_exempt ≡ false)
        → Keeps Within (upload o u req content base_url)
    unfolding upload
    upload-Keeps u req content base_url h =
        bind-Hoare
          (weaken-Hoare (λ a s p. p.0) (λ s p. p)
            (check_request-Hoare req.id req.content_type req.size_bytes))
          (λ _.
            bind-Hoare (read_content-Hoare content)
              (λ x. given-Hoare (λ m. checked-Keeps u req x base_url h m)))

    pub init_chunked_upload-Keeps :
        (u : Uploader) (req : ChunkedUploadInitRequest)
        → (u.public_key ≡ key → u.quota_exempt ≡ false)
        → pos 0 ≤ℤ req.total_size
        → Keeps Within (init_chunked_upload o u req)
    unfolding init_chunked_upload announced
    init_chunked_upload-Keeps u req h n =
        bind-Hoare (check_request-Hoare req.id req.content_type req.total_size) (λ _.
          given-Hoare (λ m.
            bind-Hoare (check_quota-Hoare o l req.total_size n m key u.public_key u.quota_exempt h)
              (λ _. bind-Hoare (caught-Hoare (inserted-Hoare (announced o u req) n)) (λ r.
                bind-Hoare (lift-Keeps (insert_error o r)) (λ _. give-Keeps (record {
                  storage_id = req.id;
                  uploaded_at = o.now;
                  storage_path = (announced o u req).storage_path;
                }))))))
