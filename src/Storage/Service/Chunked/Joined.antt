-- ===== src/Storage/Service/Chunked/Joined.antt =====
-- An upload that was completed is the chunks in their order (CompleteChunkedUpload in
-- internal/storage/service.go).
use mathlib.Core.Path.{subst}
use prappser_spaces.Base.{
  ℕ, suc, String, ◌≡◌, ◌≢◌, ◌∙◌, ◌++◌, refl, ap, inl, inr, Bool-cases, true, false, Option, not,
  ◌||◌, List, [], ◌∷◌, ◌==◌, length, arith,
}
use prappser_spaces.Base.Int.{pos, ltb_ℤ, eqb_ℤ}
use prappser_spaces.Result.{Result, ok, err, guard, guard-eq-ok, Error}
use prappser_spaces.Storage.{Bytes, Storage, StorageChunk, is_pending, ready}
use prappser_spaces.Storage.Backend.{IsFaithful}
use prappser_spaces.Storage.Paths.{thumbnail_path_of}
use prappser_spaces.Storage.Paths.Apart.{thumbnail-apart, chunk-apart}
use prappser_spaces.Storage.Repository.{
  Table, get_storage_by_id, get_chunks, delete_chunks, update_status,
}
use prappser_spaces.Storage.Run.{Service, State, Run, query, from_disk}
use prappser_spaces.Storage.Run.Hoare.{
  Hoare, Keeps, answered, bind-Hoare, lift-Hoare, query-Hoare, change-Hoare, ignored-Hoare,
  weaken-Hoare, given-Hoare, from_disk-Hoare, on_disk-Hoare, on_disk_all-Keeps, give-Keeps,
}
use prappser_spaces.Storage.Service.{populate_urls, chunk_path}
use prappser_spaces.Storage.Service.Images.{IsBlindToImages, save_image-Keeps}
use prappser_spaces.Storage.Service.Chunked.{
  combine, drop_chunks, dropped, finish, is_empty, check_whole, complete_chunked_upload,
}

-- A step whose failure is of no interest.
loose :
    {Disk : Type 0} {A : Type 0} {P : State Disk → Type 0} {Q : A → State Disk → Type 0}
    {R : State Disk → Type 0} {m : Run Disk A}
    → Hoare P m Q R
    → Hoare P m Q (λ _. Unit {0})
loose h = weaken-Hoare (λ a s p. p) (λ s p. tt) h

module _ {Disk : Type 0} (o : Service Disk) (faithful : IsFaithful o.backend) where
  drop_chunks-spares :
      (path : String) (cs : List StorageChunk) (d : Disk)
      → o.backend.fetch path (drop_chunks o path cs d) ≡ o.backend.fetch path d
  unfolding drop_chunks
  drop_chunks-spares path [] d = refl
  drop_chunks-spares path (c ∷ cs) d =
      drop_chunks-spares path cs (o.backend.delete (chunk_path path c.chunk_index) d).1
      ∙ faithful.delete_other (chunk_path path c.chunk_index) path d
          (chunk-apart path c.chunk_index)

  abbrev Holds : String → Bytes → State Disk → Type 0
  Holds path x st = o.backend.fetch path st.disk ≡ ok x

  images-Holds : (path : String) (x : Bytes) → IsBlindToImages o path (Holds path x)
  images-Holds path x = record {
    dimensions = λ id w h st t p e. p;
    thumbnail = λ id q st t p e. p;
    file = λ y.
        on_disk_all-Keeps (Holds path x) (o.backend.store (thumbnail_path_of path) y) (λ st p.
          faithful.store_other (thumbnail_path_of path) path y st.disk (thumbnail-apart path) ∙ p);
  }

  dropped-Holds :
      (path : String) (x : Bytes) (cs : List StorageChunk)
      → Keeps (Holds path x) (dropped o path cs)
  dropped-Holds path x cs = record { holds = λ st p. drop_chunks-spares path cs st.disk ∙ p }

  finish-Holds :
      (s : Storage) (chunks : List StorageChunk) (x : Bytes) (base_url : String)
      → Hoare
          (λ _. Unit {0})
          (finish o s chunks x base_url)
          (λ _. Holds s.storage_path x)
          (λ _. Unit {0})
  unfolding finish
  finish-Holds s chunks x base_url =
      let path = s.storage_path in
      bind-Hoare
        (on_disk-Hoare (λ _. Unit {0}) (Holds path x) (o.backend.store path x)
          (λ st p h. faithful.stored path x st.disk h))
        (λ _. loose (
          bind-Hoare (dropped-Holds path x chunks) (λ _.
            bind-Hoare
              (ignored-Hoare (
                change-Hoare o.faults.on_delete_chunks (λ t. ok (delete_chunks s.id t))
                  (λ st t p e. p)))
              (λ _. bind-Hoare (save_image-Keeps o (Holds path x) s x (images-Holds path x)) (λ s'.
                bind-Hoare
                  (change-Hoare o.faults.on_update (update_status s.id ready) (λ st t p e. p))
                  (λ _. give-Keeps (
                    populate_urls o (record s' { size_bytes = pos (length x); status = ready })
                      base_url)))))))

abbrev pub concat : List Bytes → Bytes
concat [] = []
concat (p ∷ ps) = p ++ concat ps

module _ {Disk : Type 0} (o : Service Disk) where
  -- The chunks are numbered from `i` on, and these are their contents.
  abbrev pub AreParts : String → ℕ → List StorageChunk → Disk → List Bytes → Type 0
  AreParts path i [] d [] = Unit
  AreParts path i [] d (p ∷ ps) = ⊥
  AreParts path i (c ∷ cs) d [] = ⊥
  AreParts path i (c ∷ cs) d (p ∷ ps) =
      (eqb_ℤ c.chunk_index (pos i) ≡ true)
      × (o.backend.fetch (chunk_path path (pos i)) d ≡ ok p)
      × AreParts path (suc i) cs d ps

  joined : Result Bytes → Result Bytes → Result Bytes
  joined first rest = elim first [
    | err e ↦ err e
    | ok x ↦ elim rest [ err e ↦ err e | ok y ↦ ok (x ++ y) ]
  ]

  joined-ok :
      (first rest : Result Bytes) (z : Bytes)
      → joined first rest ≡ ok z
      → (x : Bytes) × (y : Bytes) × (first ≡ ok x) × (rest ≡ ok y) × (z ≡ x ++ y)
  unfolding joined
  joined-ok (err e) rest z h = cc
  joined-ok (ok x) (err e) z h = cc
  joined-ok (ok x) (ok y) z h = (x, y, refl, refl, cc)

  combine-parts :
      (path : String) (i : ℕ) (cs : List StorageChunk) (d : Disk) (z : Bytes)
      → combine o path i cs d ≡ ok z
      → (ps : List Bytes) × AreParts path i cs d ps × (z ≡ concat ps)
  unfolding combine joined
  combine-parts path i [] d z h = ([], tt, cc)
  combine-parts path i (c ∷ cs) d z h = elim (Bool-cases (eqb_ℤ c.chunk_index (pos i))) [
    | inr f ↦ absurd (let e : err [] ≡ ok z = rw f at h in ground arith)
    | inl t ↦
        let j =
          joined-ok (o.backend.fetch (chunk_path path (pos i)) d) (combine o path (suc i) cs d) z
            (rw t at h) in
        let rest = combine-parts path (suc i) cs d j.1 j.3 in
        (j.0 ∷ rest.0, (t, j.2, rest.1), j.4 ∙ ap (λ y. j.0 ++ y) rest.2)
  ]

-- What the completion of an upload leaves: the pending file had chunks, one at least, numbered from 0
-- on without a gap, and their contents one after the other are now the content of the file, no
-- longer than was announced and than a file may be, with the checksum that was announced, if any.
-- The number of chunks that was announced is not among it, nor is the size a lower bound: the code
-- compares neither, so chunks that are missing at the end go unnoticed where no checksum was sent.
pub record IsJoined {Disk : Type 0} (o : Service Disk) (id : String) (st st' : State Disk)
    : Type 0 where
  pub file : Storage
  pub parts : List Bytes
  pub found : get_storage_by_id id st.table ≡ ok file
  pub was_pending : is_pending file.status ≡ true
  pub present : get_chunks id st.table ≢ []
  pub numbered : AreParts o file.storage_path 0 (get_chunks id st.table) st.disk parts
  pub content : o.backend.fetch file.storage_path st'.disk ≡ ok (concat parts)
  pub announced : ltb_ℤ file.size_bytes (pos (length (concat parts))) ≡ false
  pub capped : ltb_ℤ o.max_file_size (pos (length (concat parts))) ≡ false
  pub checked : (file.checksum == "" || (o.sha256 (concat parts) == file.checksum)) ≡ true

-- Steps that read, from a state that is known.
module _ {Disk : Type 0} (st : State Disk) where
  abbrev Same : State Disk → Type 0
  Same s = s ≡ st

  same-query :
      {A : Type 0} (f : Option Error) (q : Table → Result A)
      → Hoare Same (query f q) (λ a s. Same s × (q st.table ≡ ok a)) (λ _. Unit {0})
  same-query f q =
      weaken-Hoare (λ a s p. (p.0, subst (λ t. q t.table ≡ ok a) p.0 p.1)) (λ s p. tt)
        (query-Hoare f q)

  same-disk :
      {A : Type 0} (f : Disk → Result A)
      → Hoare Same (from_disk f) (λ a s. Same s × (f st.disk ≡ ok a)) (λ _. Unit {0})
  same-disk f =
      weaken-Hoare (λ a s p. (p.0, subst (λ t. f t.disk ≡ ok a) p.0 p.1)) (λ s p. tt)
        (from_disk-Hoare f)

module _ {Disk : Type 0} (o : Service Disk) (faithful : IsFaithful o.backend) where
  check_whole-ok :
      (s : Storage) (x : Bytes)
      → check_whole o s x ≡ ok tt
      → (ltb_ℤ s.size_bytes (pos (length x)) ≡ false)
        × (ltb_ℤ o.max_file_size (pos (length x)) ≡ false)
        × ((s.checksum == "" || (o.sha256 x == s.checksum)) ≡ true)
  unfolding check_whole
  check_whole-ok s x h = (ground arith, ground arith, ground arith)

  finished :
      (id base_url : String) (st : State Disk) (s : Storage) (chunks : List StorageChunk)
      (x : Bytes)
      → get_storage_by_id id st.table ≡ ok s
      → is_pending s.status ≡ true
      → ok (get_chunks id st.table) ≡ ok chunks
      → guard (not (is_empty o chunks)) [] ≡ ok tt
      → combine o s.storage_path 0 chunks st.disk ≡ ok x
      → check_whole o s x ≡ ok tt
      → Hoare (Same st) (finish o s chunks x base_url) (λ _. IsJoined o id st) (λ _. Unit {0})
  finished id base_url st s chunks x found was_pending listed some combined checked =
      let c = combine-parts o s.storage_path 0 chunks st.disk x combined in
      let w = check_whole-ok s x checked in
      let same_list : chunks ≡ get_chunks id st.table = cc in
      weaken-Hoare
        (λ a st' h. record {
          file = s;
          parts = c.0;
          found = found;
          was_pending = was_pending;
          present = λ e. not_empty (guard-eq-ok (not (is_empty o chunks)) [] some) (same_list ∙ e);
          numbered = subst (λ l. AreParts o s.storage_path 0 l st.disk c.0) same_list c.1;
          content = subst (λ y. o.backend.fetch s.storage_path st'.disk ≡ ok y) c.2 h;
          announced = subst (λ y. ltb_ℤ s.size_bytes (pos (length y)) ≡ false) c.2 w.0;
          capped = subst (λ y. ltb_ℤ o.max_file_size (pos (length y)) ≡ false) c.2 w.1;
          checked = subst (λ y. (s.checksum == "" || (o.sha256 y == s.checksum)) ≡ true) c.2 w.2;
        })
        (λ st' p. p)
        (record { holds = λ st' p. (finish-Holds o faithful s chunks x base_url).holds st' tt })
    where
      not_empty : not (is_empty o chunks) ≡ true → chunks ≢ []
      not_empty t e = absurd (ground (arith, t, ap (λ l. is_empty o l) e))

  -- When the completion of an upload answers without an error, with a backend that reads what was
  -- stored: the file was pending and had at least one chunk, its chunks were numbered from 0 on
  -- without a gap, its content is now theirs one after the other, this is no longer than the size
  -- that was announced and than the cap, and it has the checksum that was announced, if any. That all
  -- the chunks that were announced are there is not stated: the code does not compare their number.
  pub complete-IsJoined :
      (id base_url : String) (st : State Disk) (answer : Storage)
      → (complete_chunked_upload o id base_url st).0 ≡ ok answer
      → IsJoined o id st (complete_chunked_upload o id base_url st).1
  unfolding complete_chunked_upload
  complete-IsJoined id base_url st answer e =
      answered (λ _. IsJoined o id st) (λ _. Unit {0}) (complete_chunked_upload o id base_url st)
        answer
        ((bind-Hoare (same-query st o.faults.on_get (get_storage_by_id id)) (λ s.
            given-Hoare (λ found.
              bind-Hoare (loose (lift-Hoare (guard (is_pending s.status) []))) (λ _.
                given-Hoare (λ was_pending.
                  bind-Hoare (same-query st o.faults.on_chunks (λ t. ok (get_chunks id t)))
                    (λ chunks. given-Hoare (λ listed.
                      bind-Hoare (loose (lift-Hoare (guard (not (is_empty o chunks)) []))) (λ _.
                        given-Hoare (λ some.
                          bind-Hoare (same-disk st (combine o s.storage_path 0 chunks)) (λ x.
                            given-Hoare (λ combined.
                              bind-Hoare (loose (lift-Hoare (check_whole o s x))) (λ _.
                                given-Hoare (λ checked.
                                  finished id base_url st s chunks x found
                                    (guard-eq-ok (is_pending s.status) [] was_pending) listed some
                                    combined checked))))))))))))).holds
          st refl)
        e
