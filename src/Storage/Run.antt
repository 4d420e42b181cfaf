-- ===== src/Storage/Run.antt =====
-- The operations of the storage service (internal/storage/service.go) as changes of the tables and
-- the disk: one that fails keeps what it changed before.
pub mod Hoare
pub use prappser_spaces.Effect.{◌>>=◌, ◌>>◌, give, lift, caught, ignored, after}
use prappser_spaces.Effect.{Effect}
use prappser_spaces.Base.{
  String, ◌≡◌, refl, Bool, true, false, Option, none, some, List, [], ◌∷◌, ℕ,
}
use prappser_spaces.Base.Int.{ℤ}
use prappser_spaces.Result.{Result, ok, err, Error}
use prappser_spaces.Storage.{Bytes}
use prappser_spaces.Storage.Backend.{Backend}
use prappser_spaces.Storage.Repository.{Table}

pub record State (Disk : Type 0) : Type 0 where
  pub table : Table
  pub disk : Disk

-- The database errors that strike an operation, at most one for each statement.
pub record Faults : Type 0 where
  pub on_used : Option Error
  pub on_create : Option Error
  pub on_get : Option Error
  pub on_list : Option Error
  pub on_update : Option Error
  pub on_delete : Option Error
  pub on_chunk : Option Error
  pub on_chunks : Option Error
  pub on_delete_chunks : Option Error
  pub on_mark : Option Error
  pub on_purge : Option Error
  pub on_stale : Option Error

-- What the service is made of: its limits, its backend, and the libraries that it calls. `month`
-- formats a time as "2006/01", `media_type` is whether mime.ParseMediaType takes a text, `sha256`
-- the hash in hexadecimal, `image_size` image.Decode, `thumbnail` the calls of imaging, and
-- `referenced` the other tables' mention of an id. `now` is the clock at the operation.
pub record Service (Disk : Type 0) : Type 0 where
  pub max_file_size : ℤ
  pub account_quota : ℤ
  pub backend : Backend Disk
  pub month : ℤ → String
  pub media_type : String → Bool
  pub sha256 : Bytes → String
  pub image_size : Bytes → Option (ℤ × ℤ)
  pub thumbnail : Bytes → Result Bytes
  pub referenced : String → Bool
  pub now : ℤ
  pub faults : Faults

abbrev pub Run : Type 0 → Type 0 → Type 0
Run Disk A = Effect (State Disk) A

module _ {Disk : Type 0} where
  abbrev pub struck_by : Option Error → Run Disk (Unit {0})
  struck_by none s = (ok tt, s)
  struck_by (some e) s = (err e, s)

  -- A query, and a statement that changes the tables.
  abbrev pub query : {A : Type 0} → Option Error → (Table → Result A) → Run Disk A
  query (some e) q s = (err e, s)
  query none q s = (q s.table, s)

  abbrev pub committed : State Disk → Result Table → Result (Unit {0}) × State Disk
  committed s (ok t) = (ok tt, record s { table = t })
  committed s (err e) = (err e, s)

  abbrev pub change : Option Error → (Table → Result Table) → Run Disk (Unit {0})
  change (some e) f s = (err e, s)
  change none f s = committed s (f s.table)

  abbrev pub on_disk : (Disk → Result (Unit {0}) × Disk) → Run Disk (Unit {0})
  on_disk f s = ((f s.disk).0, record s { disk = (f s.disk).1 })

  abbrev pub from_disk : {A : Type 0} → (Disk → Result A) → Run Disk A
  from_disk f s = (f s.disk, s)

-- No statement fails.
abbrev pub no_faults : Faults
no_faults = record {
  on_used = none;
  on_create = none;
  on_get = none;
  on_list = none;
  on_update = none;
  on_delete = none;
  on_chunk = none;
  on_chunks = none;
  on_delete_chunks = none;
  on_mark = none;
  on_purge = none;
  on_stale = none;
}
