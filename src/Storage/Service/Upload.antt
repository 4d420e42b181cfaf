-- ===== src/Storage/Service/Upload.antt =====
-- Upload and the start of an upload in chunks (internal/storage/service.go).
pub mod Keeps
pub mod Again
use prappser_spaces.Base.{
  ℕ, String, Bool, true, false, not, ◌&&◌, ◌||◌, Option, none, some, List, [], ◌∷◌, ◌==◌, any,
  length, if◌then◌else◌,
}
use prappser_spaces.Base.Int.{ℤ, pos, ltb_ℤ}
use prappser_spaces.Result.{Result, ok, err, guard, Error, file_too_large, is_pq_unique}
use prappser_spaces.Storage.{
  Bytes, Storage, UploadRequest, ChunkedUploadInitRequest, ChunkedUploadInitResponse, pending,
  ready,
}
use prappser_spaces.Storage.Paths.{validate_storage_id, is_valid_content_type, build_storage_path}
use prappser_spaces.Storage.Repository.{create_storage, get_storage_by_id}
use prappser_spaces.Storage.Run.{
  Service, State, Run, ◌>>=◌, ◌>>◌, give, lift, query, change, on_disk, caught, ignored,
}
use prappser_spaces.Storage.Service.{check_quota, populate_urls, save_image}

-- Who uploads, and for which application and space.
pub record Uploader : Type 0 where
  pub application_id : Option String
  pub public_key : String
  pub space_id : Option String
  pub quota_exempt : Bool

module _ {Disk : Type 0} (o : Service Disk) where
  -- The refusals that Upload and InitChunkedUpload share.
  unfoldable pub check_request : String → String → ℤ → Run Disk (Unit {0})
  check_request id content_type size = do
    lift (validate_storage_id id)
    lift (guard (is_valid_content_type o.media_type content_type) [])
    lift (guard (not (ltb_ℤ o.max_file_size size)) (file_too_large ∷ []))

  -- The copy of the content, which reads one byte more than a file may have.
  unfoldable pub read_content : Result Bytes → Run Disk Bytes
  read_content content = do
    x ← lift content
    lift (guard (not (ltb_ℤ o.max_file_size (pos (length x)))) (file_too_large ∷ []))
    give x

  unfoldable pub upload_path : Uploader → UploadRequest → String
  upload_path u req =
      build_storage_path o.month u.application_id req.id req.filename req.content_type o.now

  unfoldable pub uploaded : Uploader → UploadRequest → Bytes → Storage
  unfolding upload_path
  uploaded u req x = record {
    id = req.id;
    application_id = u.application_id;
    space_id = u.space_id;
    uploader_public_key = u.public_key;
    filename = req.filename;
    content_type = req.content_type;
    size_bytes = pos (length x);
    storage_path = upload_path u req;
    thumbnail_path = "";
    width = none;
    height = none;
    duration_ms = none;
    checksum = o.sha256 x;
    created_at = o.now;
    status = ready;
    url = "";
    thumbnail_url = "";
  }

  -- What follows the insert: the answer to an id that is taken is the row that has it.
  unfoldable pub after_insert : Storage → Bytes → String → Result (Unit {0}) → Run Disk Storage
  after_insert s x base_url (ok _) = save_image o s x >>= λ s'. give (populate_urls o s' base_url)
  after_insert s x base_url (err e) = do
    ignored (on_disk (o.backend.delete s.storage_path))
    (if any is_pq_unique e
        then (query o.faults.on_get (get_storage_by_id s.id) >>= λ existing.
            give (populate_urls o existing base_url))
        else lift (err e))

  -- The part of Upload behind its checks.
  unfoldable pub save_upload : Storage → Bytes → String → Run Disk Storage
  unfolding after_insert
  save_upload s x base_url = do
    on_disk (o.backend.store s.storage_path x)
    r ← caught (change o.faults.on_create (create_storage s))
    after_insert s x base_url r

  -- Upload, where `content` is what the reader yields.
  unfoldable pub upload : Uploader → UploadRequest → Result Bytes → String → Run Disk Storage
  unfolding check_request read_content uploaded save_upload
  upload u req content base_url = do
    check_request req.id req.content_type req.size_bytes
    x ← read_content content
    check_quota o u.public_key (pos (length x)) u.quota_exempt
    lift (guard (req.checksum == "" || (o.sha256 x == req.checksum)) [])
    save_upload (uploaded u req x) x base_url

  unfoldable pub announced : Uploader → ChunkedUploadInitRequest → Storage
  announced u req = record {
    id = req.id;
    application_id = u.application_id;
    space_id = u.space_id;
    uploader_public_key = u.public_key;
    filename = req.filename;
    content_type = req.content_type;
    size_bytes = req.total_size;
    storage_path =
        build_storage_path o.month u.application_id req.id req.filename req.content_type o.now;
    thumbnail_path = "";
    width = none;
    height = none;
    duration_ms = none;
    checksum = req.checksum;
    created_at = o.now;
    status = pending;
    url = "";
    thumbnail_url = "";
  }

  -- InitChunkedUpload. A taken id makes an error that wraps nothing.
  abbrev insert_error : Result (Unit {0}) → Result (Unit {0})
  insert_error (ok _) = ok tt
  insert_error (err e) = if any is_pq_unique e then err [] else err e

  unfoldable pub init_chunked_upload :
      Uploader → ChunkedUploadInitRequest → Run Disk ChunkedUploadInitResponse
  unfolding check_request announced
  init_chunked_upload u req = do
    check_request req.id req.content_type req.total_size
    check_quota o u.public_key req.total_size u.quota_exempt
    let s = announced u req
    r ← caught (change o.faults.on_create (create_storage s))
    lift (insert_error r)
    give (record { storage_id = req.id; uploaded_at = o.now; storage_path = s.storage_path })
