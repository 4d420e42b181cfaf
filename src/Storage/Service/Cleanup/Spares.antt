-- ===== src/Storage/Service/Cleanup/Spares.antt =====
-- The purge of files that nothing refers to (PurgeUnreferenced in internal/storage/service.go)
-- spares the content of the rows that it leaves.
use mathlib.Core.Path.{subst}
use prappser_spaces.Base.{
  ℕ, String, ◌≡◌, ◌≢◌, ◌∙◌, refl, sym, ap, inl, inr, Bool, true, not, ◌&&◌, Option, none, some,
  List, [], ◌∷◌, ◌==◌, map, filter, take, any, All, In, arith, Bool-cases,
}
use prappser_spaces.Base.Members.{All-of_In, In-of_filter}
use prappser_spaces.Base.Int.{ℤ}
use prappser_spaces.Result.{Result, ok, Error}
use prappser_spaces.Storage.{Storage}
use prappser_spaces.Storage.Backend.{IsFaithful}
use prappser_spaces.Storage.Repository.{
  Row, scanned, has_id, mark, is_old, is_purged, oldest_first, mark_referenced, delete_unreferenced,
}
use prappser_spaces.Storage.Run.{Service, State, after, ◌>>=◌, change}
use prappser_spaces.Storage.Service.Cleanup.{
  delete_blobs, try_all_blobs, tried, purge_rows, purge_unreferenced,
}

-- A path of neither the file nor the thumbnail.
abbrev pub IsFree : String → Storage → Type 0
IsFree p s = (s.storage_path ≢ p) × (s.thumbnail_path ≢ p)

module _ {Disk : Type 0} (o : Service Disk) (faithful : IsFaithful o.backend) where
  delete_blobs-spares :
      (p : String) (s : Storage) (d : Disk)
      → IsFree p s
      → o.backend.fetch p (delete_blobs o s d).1 ≡ o.backend.fetch p d
  unfolding delete_blobs
  delete_blobs-spares p s d f = elim (Bool-cases (s.thumbnail_path == "")) [
    | inl t ↦ rw t (faithful.delete_other s.storage_path p d f.0)
    | inr n ↦ rw n (
        faithful.delete_other s.thumbnail_path p (o.backend.delete s.storage_path d).1 f.1
        ∙ faithful.delete_other s.storage_path p d f.0)
  ]

  try_all_blobs-spares :
      (p : String) (l : List Storage) (d : Disk)
      → All (IsFree p) l
      → o.backend.fetch p (try_all_blobs o l d) ≡ o.backend.fetch p d
  unfolding try_all_blobs
  try_all_blobs-spares p [] d f = refl
  try_all_blobs-spares p (s ∷ rest) d f =
      try_all_blobs-spares p rest (delete_blobs o s d).1 f.1 ∙ delete_blobs-spares p s d f.0

-- The paths of rows under different ids differ.
abbrev pub IsSeparate : List Row → Type 0
IsSeparate rows =
    (a b : Row) → In a rows → In b rows → a.file.id ≢ b.file.id → IsFree a.file.storage_path b.file

In-of_map :
    {A B : Type 0} (f : A → B) (xs : List A) (y : B)
    → In y (map f xs)
    → (x : A) × In x xs × (f x ≡ y)
In-of_map f [] y i = absurd i
In-of_map f (x ∷ xs) y (inl e) = (x, inl refl, e)
In-of_map f (x ∷ xs) y (inr j) = let r = In-of_map f xs y j in (r.0, inr r.1, r.2)

mark-file : (referenced : String → Bool) (now : ℤ) (r : Row) → r.file ≡ (mark referenced now r).file
mark-file referenced now r = ground arith

IsSeparate-mark :
    (referenced : String → Bool) (now : ℤ) (rows : List Row)
    → IsSeparate rows
    → IsSeparate (map (mark referenced now) rows)
IsSeparate-mark referenced now rows h a b i j n =
    let x = In-of_map (mark referenced now) rows a i in
    let y = In-of_map (mark referenced now) rows b j in
    let fa : x.0.file ≡ a.file = mark-file referenced now x.0 ∙ ap (λ r. r.file) x.2 in
    let fb : y.0.file ≡ b.file = mark-file referenced now y.0 ∙ ap (λ r. r.file) y.2 in
    subst (λ f. IsFree f.storage_path b.file) fa
      (subst (λ f. IsFree x.0.file.storage_path f) fb
        (h x.0 y.0 x.1 y.1 (λ e. n (sym (ap (λ f. f.id) fa) ∙ e ∙ ap (λ f. f.id) fb))))

-- Whether a row is purged depends on its id.
purged-differs :
    (referenced : String → Bool) (picked : List Row) (a b : Row)
    → not (is_purged referenced picked a) ≡ true
    → is_purged referenced picked b ≡ true
    → a.file.id ≢ b.file.id
purged-differs referenced picked a b h k e =
    let purged : is_purged referenced picked a ≡ true =
      subst (λ i. (any (has_id i) picked && not (referenced i)) ≡ true) (sym e) k in
    absurd (ground (arith, h, purged))

module _ {Disk : Type 0} (o : Service Disk) (faithful : IsFaithful o.backend) (disk : Disk) where
  abbrev Spared : State Disk → Type 0
  Spared s =
      All
        (λ r. o.backend.fetch r.file.storage_path s.disk ≡ o.backend.fetch r.file.storage_path disk)
        s.table.rows

  unfoldable run_purge : ℤ → ℕ → Option Error → State Disk → Result (Unit {0}) × State Disk
  run_purge cutoff limit f st = (purge_rows o cutoff limit f >>= λ purged. tried o purged) st

  unchanged : (st : State Disk) → st.disk ≡ disk → Spared st
  unchanged st e =
      All-of_In
        (λ r.
          o.backend.fetch r.file.storage_path st.disk ≡ o.backend.fetch r.file.storage_path disk)
        st.table.rows (λ r i. ap (λ d. o.backend.fetch r.file.storage_path d) e)

  run_purge-Spared :
      (cutoff : ℤ) (limit : ℕ) (f : Option Error) (st : State Disk)
      → st.disk ≡ disk
      → IsSeparate st.table.rows
      → Spared (run_purge cutoff limit f st).1
  unfolding run_purge delete_unreferenced
  run_purge-Spared cutoff limit (some x) st e h = unchanged st e
  run_purge-Spared cutoff limit none st e h =
      let rows = st.table.rows in
      let picked = take limit (oldest_first (filter (is_old cutoff) rows)) in
      let gone = is_purged o.referenced picked in
      let after_disk = (run_purge cutoff limit none st).1.disk in
      All-of_In
        (λ r.
          o.backend.fetch r.file.storage_path after_disk ≡ o.backend.fetch r.file.storage_path disk)
        (filter (λ r. not (gone r)) rows)
        (λ r i.
          let here = In-of_filter (λ r'. not (gone r')) rows r i in
          try_all_blobs-spares o faithful r.file.storage_path (map scanned (filter gone rows))
            st.disk
            (All-of_In (IsFree r.file.storage_path) (map scanned (filter gone rows)) (λ s j.
              let q = In-of_map scanned (filter gone rows) s j in
              let there = In-of_filter gone rows q.0 q.1 in
              subst (IsFree r.file.storage_path) q.2
                (h r q.0 here.0 there.0 (purged-differs o.referenced picked r q.0 here.1 there.1))))
          ∙ ap (λ d. o.backend.fetch r.file.storage_path d) e)

  purged-Spared :
      (cutoff : ℤ) (limit : ℕ) (f g : Option Error) (st : State Disk)
      → st.disk ≡ disk
      → IsSeparate st.table.rows
      → Spared
          (after
            (change f (λ t. ok (mark_referenced o.referenced o.now t)) st)
            (λ _. run_purge cutoff limit g)).1
  unfolding mark_referenced
  purged-Spared cutoff limit (some x) g st e h = unchanged st e
  purged-Spared cutoff limit none g st e h =
      run_purge-Spared cutoff limit g
        (record st { table = mark_referenced o.referenced o.now st.table }) e
        (IsSeparate-mark o.referenced o.now st.table.rows h)

-- In a table where the paths of different ids differ, a purge, whatever faults strike it, leaves
-- what is read at the path of every row that it leaves as it was before: a row that had its content
-- has it still.
pub purge_spares :
    {Disk : Type 0} (o : Service Disk) (faithful : IsFaithful o.backend) (cutoff : ℤ) (limit : ℕ)
    (st : State Disk)
    → IsSeparate st.table.rows
    → (let run = purge_unreferenced o cutoff limit st in
        All
          (λ r.
            o.backend.fetch r.file.storage_path run.1.disk
            ≡ o.backend.fetch r.file.storage_path st.disk)
          run.1.table.rows)
unfolding purge_unreferenced run_purge
purge_spares o faithful cutoff limit st h =
    purged-Spared o faithful st.disk cutoff limit o.faults.on_mark o.faults.on_purge st refl h
