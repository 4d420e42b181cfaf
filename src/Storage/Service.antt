-- ===== src/Storage/Service.antt =====
-- The service of stored files (internal/storage/service.go).
pub mod Quota
pub mod Images
pub mod Upload
pub mod Chunked
pub mod Cleanup
use Prim.Native.String.{◌++◌}
use text.Mathlib.Text.{starts_with}
use prappser_spaces.Base.{
  ℕ, zero, suc, ◌/◌, ◌%◌, String, Bool, true, false, not, ◌&&◌, ◌||◌, Option, none, some, List, [],
  ◌∷◌, ◌==◌, eqb, ltb, if◌then◌else◌,
}
use prappser_spaces.Base.Int.{ℤ, pos, negsuc, ◌+ℤ◌, ltb_ℤ, leb_ℤ, wrap64}
use prappser_spaces.Result.{Result, ok, err, guard, Error, storage_quota_exceeded}
use prappser_spaces.Storage.{Bytes, Storage, StorageChunk}
use prappser_spaces.Storage.Paths.{thumbnail_path_of}
use prappser_spaces.Storage.Repository.{
  Table, get_storage_by_id, get_used_bytes_by_uploader, update_dimensions, update_thumbnail,
}
use prappser_spaces.Storage.Run.{
  Service, State, Run, ◌>>=◌, ◌>>◌, give, lift, query, change, on_disk, from_disk, caught, ignored,
}

-- NewService
unfoldable pub file_cap : ℤ → ℤ
file_cap max = if leb_ℤ max (pos 0) then pos 524288000 else max

module _ {Disk : Type 0} (o : Service Disk) where
  abbrev check_used : ℤ → ℤ → Result (Unit {0})
  check_used used size =
      guard (not (ltb_ℤ o.account_quota (wrap64 (used +ℤ size)))) (storage_quota_exceeded ∷ [])

  -- checkQuota
  unfoldable pub check_quota : String → ℤ → Bool → Run Disk (Unit {0})
  check_quota key size quota_exempt =
      if leb_ℤ o.account_quota (pos 0) || quota_exempt
      then give tt
      else query o.faults.on_used (get_used_bytes_by_uploader key) >>= λ used.
          lift (check_used used size)

  abbrev or_no_url : Result String → String
  or_no_url (ok u) = u
  or_no_url (err e) = ""

  -- populateURLs
  unfoldable pub populate_urls : Storage → String → Storage
  populate_urls s base_url =
      let u = or_no_url (o.backend.get_url s.storage_path base_url) in
      record s {
        url = u;
        thumbnail_url = if s.thumbnail_path == "" then s.thumbnail_url else u ++ "/thumb";
      }

  -- generateThumbnail, with its error logged: the record with the path of the thumbnail.
  with_thumbnail : Storage → Result (Unit {0}) → Storage
  with_thumbnail s (ok _) = record s { thumbnail_path = thumbnail_path_of s.storage_path }
  with_thumbnail s (err e) = s

  unfoldable pub generate_thumbnail : Storage → Bytes → Run Disk Storage
  unfolding with_thumbnail
  generate_thumbnail s x = do
    r ← caught (
        lift (o.thumbnail x) >>= λ t.
        on_disk (o.backend.store (thumbnail_path_of s.storage_path) t))
    give (with_thumbnail s r)

  -- processImage
  process_size : Storage → Bytes → Option (ℤ × ℤ) → Run Disk Storage
  process_size s x none = give s
  process_size s x (some (w, h)) =
      generate_thumbnail (record s { width = some w; height = some h }) x

  unfoldable pub process_image : Storage → Bytes → Run Disk Storage
  unfolding process_size
  process_image s x = process_size s x (o.image_size x)

  -- What Upload and CompleteChunkedUpload write about an image, without looking at the errors.
  save_dimensions : Storage → Option ℤ → Option ℤ → Run Disk (Unit {0})
  save_dimensions s none h = give tt
  save_dimensions s (some w) none = give tt
  save_dimensions s (some w) (some h) =
      ignored (change o.faults.on_update (update_dimensions s.id w h))

  save_thumbnail : Storage → Run Disk (Unit {0})
  save_thumbnail s =
      if s.thumbnail_path == ""
      then give tt
      else ignored (change o.faults.on_update (update_thumbnail s.id s.thumbnail_path))

  image_steps : Storage → Bytes → Run Disk Storage
  unfolding save_dimensions save_thumbnail
  image_steps s x = do
    s' ← process_image s x
    save_dimensions s' s'.width s'.height
    save_thumbnail s'
    give s'

  unfoldable pub save_image : Storage → Bytes → Run Disk Storage
  unfolding image_steps
  save_image s x = if starts_with s.content_type "image/" then image_steps s x else give s

  -- Get, GetData and GetThumbnail
  unfoldable pub get_storage : String → String → Run Disk Storage
  get_storage id base_url =
      query o.faults.on_get (get_storage_by_id id) >>= λ s. give (populate_urls s base_url)

  unfoldable pub get_data : String → Run Disk (Bytes × Storage)
  get_data id = do
    s ← query o.faults.on_get (get_storage_by_id id)
    x ← from_disk (o.backend.fetch s.storage_path)
    give (x, s)

  unfoldable pub get_thumbnail : String → Run Disk (Bytes × Storage)
  get_thumbnail id = do
    s ← query o.faults.on_get (get_storage_by_id id)
    lift (guard (not (s.thumbnail_path == "")) [])
    x ← from_disk (o.backend.fetch s.thumbnail_path)
    give (x, s)

-- `fmt.Sprintf("%d", n)` of an int, which has at most nineteen digits.
digits : List String
digits = "0" ∷ "1" ∷ "2" ∷ "3" ∷ "4" ∷ "5" ∷ "6" ∷ "7" ∷ "8" ∷ "9" ∷ []

nth : ℕ → List String → String
nth n [] = ""
nth zero (d ∷ ds) = d
nth (suc n) (d ∷ ds) = nth n ds

decimal_in : ℕ → ℕ → String
unfolding nth digits
decimal_in zero n = ""
decimal_in (suc fuel) n =
    let high = decimal_in fuel (n / 10) in
    let low = nth (n % 10) digits in if ltb n 10 then low else high ++ low

unfoldable pub decimal : ℤ → String
unfolding decimal_in
decimal (pos n) = decimal_in 19 n
decimal (negsuc n) = "-" ++ decimal_in 19 (suc n)

-- `fmt.Sprintf("%s.chunk.%d", path, index)`
unfoldable pub chunk_path : String → ℤ → String
chunk_path path index = path ++ ".chunk." ++ decimal index
