-- ===== src/Storage.antt =====
-- File storage (internal/storage): the stored files and their requests (models.go).
pub mod Paths
pub mod Backend
pub mod Repository
pub mod Run
pub mod Service
pub mod Purge
pub mod History
pub mod Overlap
use prappser_spaces.Base.{ℕ, String, Bool, true, false, Option, none, some, List}
use prappser_spaces.Base.Int.{ℤ}

-- The content of a file.
abbrev pub Bytes : Type 0
Bytes = List ℕ

-- StorageStatus
pub data Status : Type 0 where
  pending uploaded ready failed : Status

abbrev pub is_pending : Status → Bool
is_pending pending = true
is_pending _ = false

abbrev pub is_ready : Status → Bool
is_ready ready = true
is_ready _ = false

-- An empty text stands for no thumbnail and no URL.
pub record Storage : Type 0 where
  pub id : String
  pub application_id : Option String
  pub space_id : Option String
  pub uploader_public_key : String
  pub filename : String
  pub content_type : String
  pub size_bytes : ℤ
  pub storage_path : String
  pub thumbnail_path : String
  pub width : Option ℤ
  pub height : Option ℤ
  pub duration_ms : Option ℤ
  pub checksum : String
  pub created_at : ℤ
  pub status : Status
  pub url : String
  pub thumbnail_url : String

pub record StorageChunk : Type 0 where
  pub storage_id : String
  pub chunk_index : ℤ
  pub chunk_size : ℤ
  pub checksum : String
  pub uploaded_at : ℤ

pub record UploadRequest : Type 0 where
  pub id : String
  pub filename : String
  pub content_type : String
  pub size_bytes : ℤ
  pub checksum : String

pub record ChunkedUploadInitRequest : Type 0 where
  pub id : String
  pub filename : String
  pub content_type : String
  pub total_size : ℤ
  pub chunk_size : ℤ
  pub total_chunks : ℤ
  pub checksum : String

pub record ChunkedUploadInitResponse : Type 0 where
  pub storage_id : String
  pub uploaded_at : ℤ
  pub storage_path : String
