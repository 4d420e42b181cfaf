-- ===== src/Scenarios/Files.antt =====
-- Stored files (internal/storage): uploads, a taken id, chunks and cleanups on a local disk.
use prappser_spaces.Base.{
  ◌≡◌, refl, true, false, none, some, [], ◌∷◌, arith, filter, All, In, ◌⊎◌, inl,
}
use prappser_spaces.Base.Int.{ℤ, pos}
use prappser_spaces.Result.{ok}
use prappser_spaces.Storage.{
  Bytes, Storage, UploadRequest, StorageChunk, ChunkedUploadInitRequest, pending, ready,
}
use prappser_spaces.Storage.Backend.{IsFaithful, succeeds, is_content}
use prappser_spaces.Storage.Backend.Local.{
  Disk, Broken, resolve, split, local_url, local_storage, local_storage-IsFaithful,
}
use prappser_spaces.Base.Dict.{get, put, remove}
use prappser_spaces.Storage.Paths.{
  validate_storage_id, has_separator, is_valid_content_type, has_control, build_storage_path,
  file_extension, extension, stem,
}
use prappser_spaces.Storage.Service.{check_quota, save_image, populate_urls, chunk_path, decimal}
use prappser_spaces.Storage.Run.{Service, State, no_faults}
use prappser_spaces.Storage.Service.Upload.{Uploader, upload, upload_path}
use prappser_spaces.Storage.Service.Upload.Again.{Repeats, taken_id_loses}
use prappser_spaces.Storage.Service.Chunked.{
  combine, check_whole, finish, drop_chunks, complete_chunked_upload,
}
use prappser_spaces.Storage.Service.Chunked.Joined.{IsJoined, complete-IsJoined}
use prappser_spaces.Storage.Service.Cleanup.{cleanup_application_storage}
use prappser_spaces.Storage.Service.Cleanup.Complete.{IsGone, cleanup_exact}
use prappser_spaces.Storage.History.{whole_file, first_chunk, purge, serve_all, quota_kept}
use prappser_spaces.Storage.Repository.{
  Row, get_used_bytes_by_uploader, create_storage, get_storage_by_id, get_chunks, delete_chunks,
  update, update_status, in_application_row, delete_by_application_id,
}
use prappser_spaces.Storage.Repository.Within.{IsWithin}
use prappser_spaces.Storage.Service.Quota.{IsLimited}

abbrev pub sound : Broken
sound = record {
  on_create = λ p. none;
  on_write = λ p. none;
  on_open = λ p. none;
  on_remove = λ p. none;
}

abbrev pub service : Service Disk
service = record {
  max_file_size = pos 10;
  account_quota = pos 12;
  backend = local_storage sound;
  month = λ t. "2026/01";
  media_type = λ t. true;
  sha256 = λ x. "sum";
  image_size = λ x. none;
  thumbnail = λ x. ok x;
  referenced = λ id. false;
  now = pos 1767225600;
  faults = no_faults;
}

pub service-IsFaithful : IsFaithful service.backend
service-IsFaithful = local_storage-IsFaithful sound (λ p. refl)

abbrev empty : State Disk
empty = record { table = record { rows = []; chunks = [] }; disk = [] }

abbrev pub kim : Uploader
kim = record {
  application_id = some "app";
  public_key = "kim";
  space_id = none;
  quota_exempt = false;
}

abbrev pub note : UploadRequest
note = record {
  id = "f1";
  filename = "note.txt";
  content_type = "text/plain";
  size_bytes = pos 3;
  checksum = "";
}

abbrev long : ChunkedUploadInitRequest
long = record {
  id = "f2";
  filename = "long.txt";
  content_type = "text/plain";
  total_size = pos 4;
  chunk_size = pos 2;
  total_chunks = pos 2;
  checksum = "";
}

abbrev pub text : Bytes
text = 1 ∷ 2 ∷ 3 ∷ []

quota_kept_example :
    IsWithin "kim"
      (pos 12)
      (serve_all
        ((service, whole_file kim note (ok text) "")
          ∷ (service, first_chunk kim long)
          ∷ (service, purge (pos 0) 5)
          ∷ [])
        empty).table
quota_kept_example =
    let limited : IsLimited service = record { quota_on = refl; no_overflow = omega arith } in
    quota_kept "kim" (pos 12)
      ((service, whole_file kim note (ok text) "")
        ∷ (service, first_chunk kim long)
        ∷ (service, purge (pos 0) 5)
        ∷ [])
      empty
      (
        record { same_quota = refl; limited = limited; ordinary = λ e. refl },
        (
          record { same_quota = refl; limited = limited; ordinary = (λ e. refl, omega arith) },
          (record { same_quota = refl; limited = limited; ordinary = tt }, tt),
        ),
      )
      (record { counted = tt; within = omega arith })

-- The same upload again: the answer is the row, and its file is gone.
abbrev pub stored_note : Storage
stored_note = record {
  id = "f1";
  application_id = some "app";
  space_id = none;
  uploader_public_key = "kim";
  filename = "note.txt";
  content_type = "text/plain";
  size_bytes = pos 3;
  storage_path = "app/2026/01/f1.txt";
  thumbnail_path = "";
  width = none;
  height = none;
  duration_ms = none;
  checksum = "sum";
  created_at = pos 1767225600;
  status = ready;
  url = "/storage/f1";
  thumbnail_url = "";
}

abbrev pub stored_note_row : Row
stored_note_row = record { file = stored_note; last_referenced_at = none }

abbrev stored_once : State Disk
stored_once = record {
  table = record { rows = stored_note_row ∷ []; chunks = [] };
  disk = ("app/2026/01/f1.txt", text) ∷ [];
}

again_run : (upload service kim note (ok text) "" stored_once).0 ≡ ok stored_note
unfolding upload upload_path validate_storage_id has_separator is_valid_content_type has_control
    check_quota get_used_bytes_by_uploader local_storage resolve split build_storage_path
    file_extension extension create_storage save_image get_storage_by_id populate_urls local_url get
    put remove stem
again_run = refl

deletes_run :
    (d : Disk) → succeeds ((local_storage sound).delete (upload_path service kim note) d).0 ≡ true
unfolding local_storage resolve split upload_path build_storage_path file_extension extension
deletes_run d = refl

again-Repeats : Repeats service kim note service kim note
again-Repeats = record {
  same_id = refl;
  same_application = refl;
  same_month = refl;
  same_extension = refl;
}

path_run : "app/2026/01/f1.txt" ≡ upload_path service kim note
unfolding upload_path build_storage_path file_extension extension
path_run = refl

taken_id_loses_example :
    (let run = upload service kim note (ok text) "" stored_once in
      (run.1.table ≡ stored_once.table)
      × In stored_note_row run.1.table.rows
      × (is_content (service.backend.fetch "app/2026/01/f1.txt" run.1.disk) ≡ false))
taken_id_loses_example =
    taken_id_loses service kim note stored_note_row service kim note (ok text) "" stored_once
      stored_note service-IsFaithful deletes_run (inl refl) refl path_run again-Repeats again_run

-- An upload in two chunks.
abbrev pub stored_long : Storage
stored_long = record stored_note {
  id = "f2";
  filename = "long.txt";
  size_bytes = pos 4;
  storage_path = "app/2026/01/f2.txt";
  checksum = "";
  url = "/storage/f2";
}

abbrev pub half : ℤ → StorageChunk
half i = record {
  storage_id = "f2";
  chunk_index = i;
  chunk_size = pos 2;
  checksum = "sum";
  uploaded_at = pos 1767225600;
}

abbrev both_halves : State Disk
both_halves = record {
  table = record {
    rows =
        record {
          file = record stored_long { status = pending; url = "" };
          last_referenced_at = none;
        }
        ∷ [];
    chunks = half (pos 0) ∷ half (pos 1) ∷ [];
  };
  disk =
      ("app/2026/01/f2.txt.chunk.1", 3 ∷ 4 ∷ []) ∷ ("app/2026/01/f2.txt.chunk.0", 1 ∷ 2 ∷ []) ∷ [];
}

complete_run : (complete_chunked_upload service "f2" "" both_halves).0 ≡ ok stored_long
unfolding complete_chunked_upload get_storage_by_id get_chunks combine chunk_path decimal
    check_whole finish drop_chunks local_storage resolve split get put remove delete_chunks update
    update_status save_image populate_urls local_url stem
complete_run = refl

complete-IsJoined_example :
    IsJoined service "f2" both_halves (complete_chunked_upload service "f2" "" both_halves).1
complete-IsJoined_example =
    complete-IsJoined service service-IsFaithful "f2" "" both_halves stored_long complete_run

cleanup_exact_example :
    (let run = cleanup_application_storage service "app" stored_once in
      ((succeeds run.0 ≡ true)
        × (run.1.table ≡ delete_by_application_id "app" stored_once.table)
        × All
            (λ r. IsGone service service-IsFaithful r.file run.1.disk)
            (filter (in_application_row "app") stored_once.table.rows))
      ⊎ ((succeeds run.0 ≡ false) × (run.1.table ≡ stored_once.table)))
cleanup_exact_example = cleanup_exact service service-IsFaithful "app" stored_once
