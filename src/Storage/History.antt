-- ===== src/Storage/History.antt =====
-- Histories of requests to the storage service (internal/storage/service.go).
use mathlib.Core.Path.{subst}
use prappser_spaces.Base.{ℕ, String, ◌≡◌, sym, refl, Bool, true, false, arith, List, [], ◌∷◌, All}
use prappser_spaces.Base.Int.{ℤ, pos, ◌≤ℤ◌}
use prappser_spaces.Result.{Result, ok, err}
use prappser_spaces.Storage.{Bytes, UploadRequest, ChunkedUploadInitRequest}
use prappser_spaces.Storage.Repository.{Table}
use prappser_spaces.Storage.Repository.Within.{IsWithin}
use prappser_spaces.Storage.Run.{Service, State}
use prappser_spaces.Storage.Run.Hoare.{Post, OfTable}
use prappser_spaces.Storage.Service.Quota.{IsLimited}
use prappser_spaces.Storage.Service.Upload.{Uploader, upload, init_chunked_upload}
use prappser_spaces.Storage.Service.Upload.Keeps.{upload-Keeps, init_chunked_upload-Keeps}
use prappser_spaces.Storage.Service.Chunked.{upload_chunk, complete_chunked_upload}
use prappser_spaces.Storage.Service.Chunked.Keeps.{
  upload_chunk-Keeps, complete_chunked_upload-Keeps,
}
use prappser_spaces.Storage.Service.Cleanup.{
  delete_file, cleanup_application_storage, delete_personal_blobs, purge_unreferenced,
  cleanup_stale_pending_uploads,
}
use prappser_spaces.Storage.Service.Cleanup.Keeps.{
  delete_file-Keeps, cleanup_application_storage-Keeps, delete_personal_blobs-Keeps,
  purge_unreferenced-Keeps, cleanup_stale_pending_uploads-Keeps,
}

-- The calls of the service that change its state.
pub data Request : Type 0 where
  whole_file : Uploader → UploadRequest → Result Bytes → String → Request
  first_chunk : Uploader → ChunkedUploadInitRequest → Request
  chunk : String → ℤ → Result Bytes → Request
  completion : String → String → Request
  deletion : String → String → Request
  application_cleanup : String → Request
  personal_cleanup : String → Request
  purge : ℤ → ℕ → Request
  stale_cleanup : Request

-- The requests that check the quota and insert a row.
abbrev pub adds_file : Request → Bool
adds_file (whole_file _ _ _ _) = true
adds_file (first_chunk _ _) = true
adds_file _ = false

-- What a request has to be, for an uploader under a quota: none of the uploader's own is exempt,
-- and no announced size is negative.
abbrev pub IsOrdinary : String → Request → Type 0
IsOrdinary key (whole_file u req content base_url) = u.public_key ≡ key → u.quota_exempt ≡ false
IsOrdinary key (first_chunk u req) =
    (u.public_key ≡ key → u.quota_exempt ≡ false) × (pos 0 ≤ℤ req.total_size)
IsOrdinary key _ = Unit

module _ {Disk : Type 0} where
  -- A request at a service whose clock and faults are those of the moment.
  unfoldable pub serve : Service Disk → Request → State Disk → State Disk
  serve o (whole_file u req content base_url) s = (upload o u req content base_url s).1
  serve o (first_chunk u req) s = (init_chunked_upload o u req s).1
  serve o (chunk id index content) s = (upload_chunk o id index content s).1
  serve o (completion id base_url) s = (complete_chunked_upload o id base_url s).1
  serve o (deletion id requestor) s = (delete_file o id requestor s).1
  serve o (application_cleanup app_id) s = (cleanup_application_storage o app_id s).1
  serve o (personal_cleanup key) s = (delete_personal_blobs o key s).1
  serve o (purge cutoff limit) s = (purge_unreferenced o cutoff limit s).1
  serve o stale_cleanup s = (cleanup_stale_pending_uploads o s).1

  unfoldable pub serve_all : List (Service Disk × Request) → State Disk → State Disk
  serve_all [] s = s
  serve_all ((o, r) ∷ rest) s = serve_all rest (serve o r s)

  -- A service with this quota, which int64 can add a file to.
  pub record IsUnder (key : String) (quota : ℤ) (call : Service Disk × Request) : Type 0 where
    pub same_quota : call.0.account_quota ≡ quota
    pub limited : IsLimited call.0
    pub ordinary : IsOrdinary key call.1

  pub kept :
      {A : Type 0} (T : Table → Type 0) (r : Result A × State Disk)
      → Post (λ _. OfTable T) (OfTable T) r
      → T r.1.table
  kept T (ok a, s) h = h
  kept T (err e, s) h = h

  -- The requests that add no file of any uploader keep any bound.
  pub serve_other-IsWithin :
      (key : String) (quota : ℤ) (o : Service Disk) (r : Request) (s : State Disk)
      → adds_file r ≡ false
      → IsWithin key quota s.table
      → IsWithin key quota (serve o r s).table
  unfolding serve
  serve_other-IsWithin key quota o (whole_file u req content base_url) s n w = absurd (ground arith)
  serve_other-IsWithin key quota o (first_chunk u req) s n w = absurd (ground arith)
  serve_other-IsWithin key quota o (chunk id index content) s n w =
      kept (IsWithin key quota) (upload_chunk o id index content s)
        ((upload_chunk-Keeps o key quota id index content).holds s w)
  serve_other-IsWithin key quota o (completion id base_url) s n w =
      kept (IsWithin key quota) (complete_chunked_upload o id base_url s)
        ((complete_chunked_upload-Keeps o key quota id base_url).holds s w)
  serve_other-IsWithin key quota o (deletion id requestor) s n w =
      kept (IsWithin key quota) (delete_file o id requestor s)
        ((delete_file-Keeps o key quota id requestor).holds s w)
  serve_other-IsWithin key quota o (application_cleanup app_id) s n w =
      kept (IsWithin key quota) (cleanup_application_storage o app_id s)
        ((cleanup_application_storage-Keeps o key quota app_id).holds s w)
  serve_other-IsWithin key quota o (personal_cleanup uploader) s n w =
      kept (IsWithin key quota) (delete_personal_blobs o uploader s)
        ((delete_personal_blobs-Keeps o key quota uploader).holds s w)
  serve_other-IsWithin key quota o (purge cutoff limit) s n w =
      kept (IsWithin key quota) (purge_unreferenced o cutoff limit s)
        ((purge_unreferenced-Keeps o key quota cutoff limit).holds s w)
  serve_other-IsWithin key quota o stale_cleanup s n w =
      kept (IsWithin key quota) (cleanup_stale_pending_uploads o s)
        ((cleanup_stale_pending_uploads-Keeps o key quota).holds s w)

  serve-IsWithin :
      (key : String) (o : Service Disk) (r : Request) (s : State Disk)
      → IsLimited o
      → IsOrdinary key r
      → IsWithin key o.account_quota s.table
      → IsWithin key o.account_quota (serve o r s).table
  unfolding serve
  serve-IsWithin key o (whole_file u req content base_url) s l h w =
      kept (IsWithin key o.account_quota) (upload o u req content base_url s)
        ((upload-Keeps o key l u req content base_url h).holds s w)
  serve-IsWithin key o (first_chunk u req) s l h w =
      kept (IsWithin key o.account_quota) (init_chunked_upload o u req s)
        ((init_chunked_upload-Keeps o key l u req h.0 h.1).holds s w)
  serve-IsWithin key o (chunk id index content) s l h w =
      serve_other-IsWithin key o.account_quota o (chunk id index content) s refl w
  serve-IsWithin key o (completion id base_url) s l h w =
      serve_other-IsWithin key o.account_quota o (completion id base_url) s refl w
  serve-IsWithin key o (deletion id requestor) s l h w =
      serve_other-IsWithin key o.account_quota o (deletion id requestor) s refl w
  serve-IsWithin key o (application_cleanup app_id) s l h w =
      serve_other-IsWithin key o.account_quota o (application_cleanup app_id) s refl w
  serve-IsWithin key o (personal_cleanup uploader) s l h w =
      serve_other-IsWithin key o.account_quota o (personal_cleanup uploader) s refl w
  serve-IsWithin key o (purge cutoff limit) s l h w =
      serve_other-IsWithin key o.account_quota o (purge cutoff limit) s refl w
  serve-IsWithin key o stale_cleanup s l h w =
      serve_other-IsWithin key o.account_quota o stale_cleanup s refl w

-- In a table whose sizes are not negative and where the files of an uploader sum up to no more than
-- the quota, this stays so while requests are served one after the other, each ending before the
-- next begins, whatever faults strike them: requests that are served under that quota (which with
-- the cap on a file is below 2 ^ 63), that do not exempt the uploader, and whose announced sizes are
-- not negative.
pub quota_kept :
    {Disk : Type 0} (key : String) (quota : ℤ) (calls : List (Service Disk × Request))
    (s : State Disk)
    → All (IsUnder key quota) calls
    → IsWithin key quota s.table
    → IsWithin key quota (serve_all calls s).table
unfolding serve_all
quota_kept key quota [] s h w = w
quota_kept key quota ((o, r) ∷ rest) s h w =
    let first = h.0 in
    let step =
      serve-IsWithin key o r s first.limited first.ordinary
        (subst (λ q. IsWithin key q s.table) (sym first.same_quota) w) in
    quota_kept key quota rest (serve o r s) h.1
      (subst (λ q. IsWithin key q (serve o r s).table) first.same_quota step)
