-- ===== src/Storage/Repository.antt =====
-- The tables of stored files and of their chunks (internal/storage/repository.go). The database
-- errors that strike a statement are part of Storage.Run.
pub mod Sums
pub mod Within
pub mod Order
use prappser_spaces.Base.{
  String, ◌≡◌, Bool, true, false, not, ◌&&◌, ◌||◌, Option, none, some, List, [], ◌∷◌, ◌==◌, map,
  filter, any, find, if◌then◌else◌, ltb, ℕ, length, take,
}
use prappser_spaces.Base.Int.{ℤ, pos, ◌+ℤ◌, ◌-ℤ◌, ltb_ℤ, eqb_ℤ, leb_ℤ, wrap64}
use prappser_spaces.Result.{Result, ok, err, ◌>>=◌, guard, pq}
use prappser_spaces.Storage.{Storage, StorageChunk, Status, pending, is_pending}

-- A row has a column that the program's record has not.
pub record Row : Type 0 where
  pub file : Storage
  pub last_referenced_at : Option ℤ

pub record Table : Type 0 where
  pub rows : List Row
  pub chunks : List StorageChunk

abbrev pub has_id : String → Row → Bool
has_id id r = r.file.id == id

-- Create, where the id is the primary key.
unfoldable pub create_storage : Storage → Table → Result Table
create_storage s t =
    if any (has_id s.id) t.rows
    then err (pq "23" "23505" "storage_pkey" ∷ [])
    else ok (record t { rows = record { file = s; last_referenced_at = none } ∷ t.rows })

-- The columns that GetByID scans: not the space.
abbrev pub scanned : Row → Storage
scanned r = record r.file { space_id = none; url = ""; thumbnail_url = "" }

abbrev scanned_or_not_found : Option Row → Result Storage
scanned_or_not_found none = err []
scanned_or_not_found (some r) = ok (scanned r)

unfoldable pub get_storage_by_id : String → Table → Result Storage
get_storage_by_id id t = scanned_or_not_found (find (has_id id) t.rows)

-- sort by created_at, the youngest first; the order among equals is open.
insert_young : Storage → List Storage → List Storage
insert_young s [] = s ∷ []
insert_young s (x ∷ xs) =
    let rest = insert_young s xs in if ltb_ℤ s.created_at x.created_at then x ∷ rest else s ∷ x ∷ xs

abbrev pub in_application : String → Storage → Bool
in_application app_id s = elim s.application_id [ none ↦ false | some a ↦ a == app_id ]

abbrev pub in_application_row : String → Row → Bool
in_application_row app_id r = in_application app_id r.file

-- GetByApplicationID
unfoldable pub youngest_first : List Row → List Storage
unfolding insert_young
youngest_first [] = []
youngest_first (r ∷ rs) = insert_young (scanned r) (youngest_first rs)

unfoldable pub get_by_application_id : String → Table → List Storage
get_by_application_id app_id t = youngest_first (filter (in_application_row app_id) t.rows)

abbrev is_personal : String → Row → Bool
is_personal key r =
    r.file.uploader_public_key == key && elim r.file.application_id [ none ↦ true | some _ ↦ false ]

-- GetPersonalByUploader; only the id and the paths are scanned, and only those are read.
unfoldable pub get_personal_by_uploader : String → Table → List Storage
get_personal_by_uploader key t = map scanned (filter (is_personal key) t.rows)

-- UPDATE storage SET ... WHERE id = ..., with execWithRowCheck.
abbrev pub update_row : (Storage → Storage) → String → Row → Row
update_row f id r = if has_id id r then record r { file = f r.file } else r

unfoldable pub update : (Storage → Storage) → String → Table → Result Table
update f id t =
    if any (has_id id) t.rows then ok (record t { rows = map (update_row f id) t.rows }) else err []

unfoldable pub update_status : String → Status → Table → Result Table
update_status id status = update (λ s. record s { status = status }) id

unfoldable pub update_thumbnail : String → String → Table → Result Table
update_thumbnail id path = update (λ s. record s { thumbnail_path = path }) id

unfoldable pub update_dimensions : String → ℤ → ℤ → Table → Result Table
update_dimensions id w h = update (λ s. record s { width = some w; height = some h }) id

unfoldable pub delete_storage : String → Table → Result Table
delete_storage id t =
    if any (has_id id) t.rows
    then ok (record t { rows = filter (λ r. not (has_id id r)) t.rows })
    else err []

unfoldable pub delete_by_application_id : String → Table → Table
delete_by_application_id app_id t = record t {
  rows = filter (λ r. not (in_application_row app_id r)) t.rows;
}

-- The chunks, in the order of their storage and their index.
abbrev is_chunk : String → ℤ → StorageChunk → Bool
is_chunk id i c = c.storage_id == id && eqb_ℤ c.chunk_index i

put_chunk : StorageChunk → List StorageChunk → List StorageChunk
put_chunk c [] = c ∷ []
put_chunk c (x ∷ xs) =
    let rest = put_chunk c xs in
    if is_chunk c.storage_id c.chunk_index x
    then c ∷ xs
    else if ltb_ℤ c.chunk_index x.chunk_index
    then c ∷ x ∷ xs
    else x ∷ rest

-- CreateChunk: a chunk that is there is replaced. The list is kept by index, as GetChunks sorts it.
unfoldable pub create_chunk : StorageChunk → Table → Table
unfolding put_chunk
create_chunk c t = record t { chunks = put_chunk c t.chunks }

unfoldable pub get_chunks : String → Table → List StorageChunk
get_chunks id t = filter (λ c. c.storage_id == id) t.chunks

unfoldable pub delete_chunks : String → Table → Table
delete_chunks id t = record t { chunks = filter (λ c. not (c.storage_id == id)) t.chunks }

abbrev pub is_stale : ℤ → Row → Bool
is_stale cutoff r = is_pending r.file.status && ltb_ℤ r.file.created_at cutoff

-- DeleteStalePending
unfoldable pub delete_stale_pending : ℤ → Table → ℕ × Table
delete_stale_pending cutoff t =
    let stale = filter (is_stale cutoff) t.rows in
    (
      length stale,
      record {
        rows = filter (λ r. not (is_stale cutoff r)) t.rows;
        chunks = filter (λ c. not (any (has_id c.storage_id) stale)) t.chunks;
      },
    )

-- `s.last_referenced_at IS NULL OR s.last_referenced_at < $1 - 86400`
abbrev needs_mark : ℤ → Option ℤ → Bool
needs_mark now none = true
needs_mark now (some t) = ltb_ℤ t (now -ℤ pos 86400)

abbrev pub mark : (String → Bool) → ℤ → Row → Row
mark referenced now r =
    if not (is_pending r.file.status) && needs_mark now r.last_referenced_at && referenced r.file.id
    then record r { last_referenced_at = some now }
    else r

-- MarkReferenced, where `referenced` is referencedPredicate on the other tables.
unfoldable pub mark_referenced : (referenced : String → Bool) → ℤ → Table → Table
mark_referenced referenced now t = record t { rows = map (mark referenced now) t.rows }

abbrev pub last_seen : Row → ℤ
last_seen r = elim r.last_referenced_at [ none ↦ r.file.created_at | some t ↦ t ]

abbrev pub is_old : ℤ → Row → Bool
is_old cutoff r = not (is_pending r.file.status) && ltb_ℤ (last_seen r) cutoff

-- `ORDER BY created_at`
insert_old : Row → List Row → List Row
insert_old r [] = r ∷ []
insert_old r (x ∷ xs) =
    let rest = insert_old r xs in
    if ltb_ℤ x.file.created_at r.file.created_at then x ∷ rest else r ∷ x ∷ xs

unfoldable pub oldest_first : List Row → List Row
unfolding insert_old
oldest_first [] = []
oldest_first (r ∷ rs) = insert_old r (oldest_first rs)

-- The ids that the subquery of DeleteUnreferenced picks, and the rows that it deletes of them.
abbrev pub is_purged : (String → Bool) → List Row → Row → Bool
is_purged referenced picked r = any (has_id r.file.id) picked && not (referenced r.file.id)

unfoldable pub delete_unreferenced :
    (referenced : String → Bool) → ℤ → ℕ → Table → List Storage × Table
delete_unreferenced referenced cutoff limit t =
    let picked = take limit (oldest_first (filter (is_old cutoff) t.rows)) in
    (
      map scanned (filter (is_purged referenced picked) t.rows),
      record t { rows = filter (λ r. not (is_purged referenced picked r)) t.rows },
    )

-- SUM(size_bytes) of an uploader.
abbrev pub sum_sizes : String → List Row → ℤ
sum_sizes key [] = pos 0
sum_sizes key (r ∷ rs) =
    let rest = sum_sizes key rs in
    if r.file.uploader_public_key == key then r.file.size_bytes +ℤ rest else rest

-- GetUsedBytesByUploader: a sum that is no int64 cannot be scanned.
unfoldable pub get_used_bytes_by_uploader : String → Table → Result ℤ
get_used_bytes_by_uploader key t =
    let sum = sum_sizes key t.rows in guard (eqb_ℤ (wrap64 sum) sum) [] >>= λ _. ok sum
