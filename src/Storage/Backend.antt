-- ===== src/Storage/Backend.antt =====
-- The backend that keeps the content of files (StorageBackend in internal/storage/storage.go), with
-- the laws that its callers rely on.
pub mod Local
use prappser_spaces.Base.{String, ◌≡◌, ◌≢◌, Bool, true, false}
use prappser_spaces.Result.{Result, ok, err, Error}
use prappser_spaces.Storage.{Bytes}

-- An operation that writes returns its result and the disk that it leaves. Exists, which only tests
-- call, is left out.
pub record Backend (Disk : Type 0) : Type 0 where
  pub store : String → Bytes → Disk → Result (Unit {0}) × Disk
  pub fetch : String → Disk → Result Bytes
  pub delete : String → Disk → Result (Unit {0}) × Disk
  pub get_url : String → String → Result String

abbrev pub succeeds : Result (Unit {0}) → Bool
succeeds (ok _) = true
succeeds (err _) = false

abbrev pub is_content : Result Bytes → Bool
is_content (ok _) = true
is_content (err _) = false

-- A file that is stored is read back, a file that is deleted is not, and no other file changes.
pub record IsFaithful {Disk : Type 0} (b : Backend Disk) : Type 0 where
  pub stored :
      (p : String) (x : Bytes) (d : Disk)
      → succeeds (b.store p x d).0 ≡ true
      → b.fetch p (b.store p x d).1 ≡ ok x
  pub store_other :
      (p q : String) (x : Bytes) (d : Disk) → p ≢ q → b.fetch q (b.store p x d).1 ≡ b.fetch q d
  pub deleted :
      (p : String) (d : Disk)
      → succeeds (b.delete p d).0 ≡ true
      → is_content (b.fetch p (b.delete p d).1) ≡ false
  pub delete_other : (p q : String) (d : Disk) → p ≢ q → b.fetch q (b.delete p d).1 ≡ b.fetch q d
