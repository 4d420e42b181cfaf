-- ===== src/Storage/Service/Upload/Again.antt =====
-- An upload under an id that is taken (Upload in internal/storage/service.go).
use mathlib.Core.Path.{subst}
use prappser_spaces.Base.{
  String, ◌≡◌, refl, sym, ◌∙◌, ap, inl, inr, List, ◌∷◌, In, eq_iff, Bool, true, false, not, ◌||◌,
  Option, none, some, [], ◌==◌, any, length, arith,
}
use prappser_spaces.Base.Int.{ℤ, pos, leb_ℤ, ltb_ℤ}
use prappser_spaces.Result.{Result, ok, err, Error, guard, pq, file_too_large, is_pq_unique}
use prappser_spaces.Storage.{Bytes, Storage, UploadRequest}
use prappser_spaces.Storage.Backend.{IsFaithful, succeeds, is_content}
use prappser_spaces.Storage.Paths.{
  validate_storage_id, is_valid_content_type, build_storage_path, file_extension,
}
use prappser_spaces.Storage.Repository.{
  Row, Table, has_id, create_storage, get_storage_by_id, get_used_bytes_by_uploader,
}
use prappser_spaces.Storage.Run.{Service, State, change, caught, on_disk, ignored}
use prappser_spaces.Storage.Run.Hoare.{
  answered, Hoare, Keeps, OfTable, bind-Hoare, lift-Keeps, query-Keeps, weaken-Hoare, give-Keeps,
  if-Hoare, on_disk-Keeps,
}
use prappser_spaces.Storage.Service.{check_quota, check_used, populate_urls}
use prappser_spaces.Storage.Service.Upload.{
  Uploader, check_request, read_content, upload_path, uploaded, after_insert, save_upload, upload,
}

abbrev is_err : {A : Type 0} → Result A → Bool
is_err (ok a) = false
is_err (err e) = true

create-taken :
    (s : Storage) (t : Table)
    → any (has_id s.id) t.rows ≡ true
    → create_storage s t ≡ err (pq "23" "23505" "storage_pkey" ∷ [])
unfolding create_storage
create-taken s t h = rw h refl

module _ {Disk : Type 0} (o : Service Disk) (T : Table) where
  abbrev Same : State Disk → Type 0
  Same = OfTable (λ t. t ≡ T)

  check_quota-Keeps :
      (key : String) (size : ℤ) (quota_exempt : Bool)
      → Keeps Same (check_quota o key size quota_exempt)
  unfolding check_quota
  check_quota-Keeps key size quota_exempt =
      if-Hoare (leb_ℤ o.account_quota (pos 0) || quota_exempt) (give-Keeps tt) (
        bind-Hoare (query-Keeps o.faults.on_used (get_used_bytes_by_uploader key))
          (λ used. lift-Keeps (check_used o used size)))

  check_request-Keeps :
      (id content_type : String) (size : ℤ) → Keeps Same (check_request o id content_type size)
  unfolding check_request
  check_request-Keeps id content_type size = bind-Hoare (lift-Keeps (validate_storage_id id)) (λ _.
      bind-Hoare (lift-Keeps (guard (is_valid_content_type o.media_type content_type) []))
        (λ _. lift-Keeps (guard (not (ltb_ℤ o.max_file_size size)) (file_too_large ∷ []))))

  read_content-Keeps : (content : Result Bytes) → Keeps Same (read_content o content)
  unfolding read_content
  read_content-Keeps content = bind-Hoare (lift-Keeps content) (λ x.
      bind-Hoare
        (lift-Keeps (guard (not (ltb_ℤ o.max_file_size (pos (length x)))) (file_too_large ∷ [])))
        (λ _. give-Keeps x))

  -- The insert fails, by a fault or for the id.
  refused :
      (s : Storage) (f : Option Error) (st : State Disk)
      → any (has_id s.id) T.rows ≡ true
      → Same st
      → Same (change f (create_storage s) st).1 × (is_err (change f (create_storage s) st).0 ≡ true)
  refused s (some e) st h p = (p, refl)
  refused s none st h p =
      let e = create-taken s st.table (subst (λ t. any (has_id s.id) t.rows ≡ true) (sym p) h) in
      rw e (p, refl)

  inserted-Hoare :
      (s : Storage)
      → any (has_id s.id) T.rows ≡ true
      → Hoare Same
          (caught (change o.faults.on_create (create_storage s)))
          (λ r st. Same st × (is_err r ≡ true))
          Same
  inserted-Hoare s h = record { holds = λ st p. refused s o.faults.on_create st h p }

  module _ (faithful : IsFaithful o.backend) (path : String)
      (deletes : (d : Disk) → succeeds (o.backend.delete path d).0 ≡ true) where
    abbrev Lost : State Disk → Type 0
    Lost st = Same st × (is_content (o.backend.fetch path st.disk) ≡ false)

    removed-Hoare :
        (r : Result (Unit {0})) (s : Storage)
        → s.storage_path ≡ path
        → Hoare
            (λ st. Same st × (is_err r ≡ true))
            (ignored (on_disk (o.backend.delete s.storage_path)))
            (λ _. Lost)
            Lost
    removed-Hoare r s e = record {
      holds = λ st p. (
        p.0,
        subst (λ k. is_content (o.backend.fetch path (o.backend.delete k st.disk).1) ≡ false)
            (sym e) (faithful.deleted path st.disk (deletes st.disk)),
      );
    }

    after_insert-Hoare :
        (s : Storage) (x : Bytes) (base_url : String) (r : Result (Unit {0}))
        → s.storage_path ≡ path
        → Hoare (λ st. Same st × (is_err r ≡ true)) (after_insert o s x base_url r) (λ _. Lost) Same
    unfolding after_insert
    after_insert-Hoare s x base_url (ok a) e = record { holds = λ st p. absurd (ground arith) }
    after_insert-Hoare s x base_url (err a) e =
        weaken-Hoare (λ b st p. p) (λ st p. p.0)
          (bind-Hoare {Q = λ _. Lost} (removed-Hoare (err a) s e) (λ _.
            if-Hoare (any is_pq_unique a)
              (bind-Hoare (query-Keeps o.faults.on_get (get_storage_by_id s.id))
                (λ existing. give-Keeps (populate_urls o existing base_url)))
              (lift-Keeps (err a))))

    save_upload-Hoare :
        (s : Storage) (x : Bytes) (base_url : String)
        → any (has_id s.id) T.rows ≡ true
        → s.storage_path ≡ path
        → Hoare Same (save_upload o s x base_url) (λ _. Lost) Same
    unfolding save_upload
    save_upload-Hoare s x base_url h e =
        bind-Hoare (on_disk-Keeps (λ t. t ≡ T) (o.backend.store s.storage_path x))
          (λ _. bind-Hoare (inserted-Hoare s h) (λ r. after_insert-Hoare s x base_url r e))

-- An upload under an id that a row has leaves no content at its own path.
upload_under_taken :
    {Disk : Type 0} (o : Service Disk) (u : Uploader) (req : UploadRequest) (content : Result Bytes)
    (base_url : String) (st : State Disk) (answer : Storage)
    → IsFaithful o.backend
    → ((d : Disk) → succeeds (o.backend.delete (upload_path o u req) d).0 ≡ true)
    → any (has_id req.id) st.table.rows ≡ true
    → (upload o u req content base_url st).0 ≡ ok answer
    → ((upload o u req content base_url st).1.table ≡ st.table)
      × (is_content
            (o.backend.fetch (upload_path o u req) (upload o u req content base_url st).1.disk)
          ≡ false)
unfolding upload uploaded
upload_under_taken o u req content base_url st answer faithful deletes taken e =
    answered (λ _. Lost o st.table faithful (upload_path o u req) deletes) (Same o st.table)
      (upload o u req content base_url st) answer
      ((bind-Hoare (check_request-Keeps o st.table req.id req.content_type req.size_bytes) (λ _.
          bind-Hoare (read_content-Keeps o st.table content) (λ x.
            bind-Hoare (check_quota-Keeps o st.table u.public_key (pos (length x)) u.quota_exempt)
              (λ _.
                bind-Hoare
                  (lift-Keeps (guard (req.checksum == "" || (o.sha256 x == req.checksum)) []))
                  (λ _.
                    save_upload-Hoare o st.table faithful (upload_path o u req) deletes
                      (uploaded o u req x) x base_url taken refl))))).holds
        st refl)
      e

-- A later upload that builds the same path as the first: for the same id and application, in the
-- same month and with the same extension.
pub record Repeats {Disk : Type 0} (first : Service Disk) (u₁ : Uploader) (req₁ : UploadRequest)
    (o : Service Disk) (u : Uploader) (req : UploadRequest) : Type 0 where
  pub same_id : req₁.id ≡ req.id
  pub same_application : u₁.application_id ≡ u.application_id
  pub same_month : first.month first.now ≡ o.month o.now
  pub same_extension :
      file_extension req₁.filename req₁.content_type ≡ file_extension req.filename req.content_type

Repeats-upload_path :
    {Disk : Type 0} (first : Service Disk) (u₁ : Uploader) (req₁ : UploadRequest) (o : Service Disk)
    (u : Uploader) (req : UploadRequest)
    → Repeats first u₁ req₁ o u req
    → upload_path o u req ≡ upload_path first u₁ req₁
unfolding upload_path build_storage_path
Repeats-upload_path first u₁ req₁ o u req r =
    rw (r.same_id, r.same_application, r.same_month, r.same_extension) refl

has_id-In :
    (id : String) (row : Row) (rows : List Row)
    → In row rows
    → row.file.id ≡ id
    → any (has_id id) rows ≡ true
has_id-In id row [] i e = absurd i
has_id-In id row (x ∷ rows) (inl q) e =
    ground (arith, eq_iff x.file.id id, ap (λ (r : Row). r.file.id) q, e)
has_id-In id row (x ∷ rows) (inr i) e = ground (arith, has_id-In id row rows i e)

-- A file that was uploaded once (by the uploader u₁, when the service was `first`), and a later
-- upload under its id, for the same application, in the same month and with the same extension, with
-- a backend that reads what was stored and that can delete the file: when the later one answers
-- without an error, the table is as it was, the row of the first with it, and there is no content at
-- the path of that row.
pub taken_id_loses :
    {Disk : Type 0} (first : Service Disk) (u₁ : Uploader) (req₁ : UploadRequest) (row : Row)
    (o : Service Disk) (u : Uploader) (req : UploadRequest) (content : Result Bytes)
    (base_url : String) (st : State Disk) (answer : Storage)
    → IsFaithful o.backend
    → ((d : Disk) → succeeds (o.backend.delete (upload_path o u req) d).0 ≡ true)
    → In row st.table.rows
    → row.file.id ≡ req.id
    → row.file.storage_path ≡ upload_path first u₁ req₁
    → Repeats first u₁ req₁ o u req
    → (upload o u req content base_url st).0 ≡ ok answer
    → (let run = upload o u req content base_url st in
        (run.1.table ≡ st.table)
        × In row run.1.table.rows
        × (is_content (o.backend.fetch row.file.storage_path run.1.disk) ≡ false))
taken_id_loses first u₁ req₁ row o u req content base_url st answer faithful deletes i id path r e =
    let run = upload o u req content base_url st in
    let taken = has_id-In req.id row st.table.rows i id in
    let (same, lost) =
      upload_under_taken o u req content base_url st answer faithful deletes taken e in
    (
      same,
      subst (λ t. In row t.rows) (sym same) i,
      subst (λ p. is_content (o.backend.fetch p run.1.disk) ≡ false)
          (Repeats-upload_path first u₁ req₁ o u req r ∙ sym path) lost,
    )
