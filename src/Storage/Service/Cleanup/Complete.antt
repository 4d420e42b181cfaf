-- ===== src/Storage/Service/Cleanup/Complete.antt =====
-- The cleanup of an application's files (CleanupApplicationStorage in internal/storage/service.go):
-- all or, for the rows, nothing.
use mathlib.Core.Path.{subst}
use prappser_spaces.Base.{
  String, ◌≡◌, ◌⊎◌, refl, sym, inl, inr, true, false, Option, none, some, List, [], ◌∷◌, ◌==◌,
  eq_iff, filter, All, arith, Bool-cases,
}
use prappser_spaces.Base.Members.{All-of_In, All-In}
use prappser_spaces.Result.{Result, ok, err, Error}
use prappser_spaces.Storage.{Storage}
use prappser_spaces.Storage.Backend.{IsFaithful, succeeds, is_content}
use prappser_spaces.Storage.Repository.{
  Table, scanned, in_application_row, get_by_application_id, delete_by_application_id,
}
use prappser_spaces.Storage.Repository.Order.{In-youngest_first}
use prappser_spaces.Storage.Run.{after, Service, State, ◌>>=◌, ◌>>◌, query, change, on_disk}
use prappser_spaces.Storage.Service.Cleanup.{
  join, delete_blobs, delete_all_blobs, cleanup_application_storage,
}

join-ok :
    (a b : Result (Unit {0}))
    → succeeds (join a b) ≡ true
    → (succeeds a ≡ true) × (succeeds b ≡ true)
unfolding join
join-ok (ok x) b h = (refl, h)
join-ok (err e) (ok y) h = absurd (ground arith)
join-ok (err e) (err e') h = absurd (ground arith)

module _ {Disk : Type 0} (o : Service Disk) (faithful : IsFaithful o.backend) where
  abbrev Gone : String → Disk → Type 0
  Gone p d = is_content (o.backend.fetch p d) ≡ false

  Gone-delete :
      (p q : String) (d : Disk)
      → Gone p d
      → succeeds (o.backend.delete q d).0 ≡ true
      → Gone p (o.backend.delete q d).1
  Gone-delete p q d g s = elim (Bool-cases (q == p)) [
    | inl t ↦
        subst (λ k. Gone k (o.backend.delete q d).1) ((eq_iff q p).0 t) (faithful.deleted q d s)
    | inr f ↦
        subst (λ r. is_content r ≡ false)
          (sym (faithful.delete_other q p d (λ e. absurd (ground (arith, eq_iff q p))))) g
  ]

  -- Neither the file nor its thumbnail, if it has one, can be read.
  abbrev pub IsGone : Storage → Disk → Type 0
  IsGone s d = Gone s.storage_path d × ((s.thumbnail_path == "") ≡ false → Gone s.thumbnail_path d)

  delete_blobs-Gone :
      (p : String) (s : Storage) (d : Disk)
      → Gone p d
      → succeeds (delete_blobs o s d).0 ≡ true
      → Gone p (delete_blobs o s d).1
  unfolding delete_blobs
  delete_blobs-Gone p s d g h = elim (Bool-cases (s.thumbnail_path == "")) [
    | inl t ↦ rw t (Gone-delete p s.storage_path d g (rw t at h))
    | inr f ↦
        let first = o.backend.delete s.storage_path d in
        let both = join-ok first.0 (o.backend.delete s.thumbnail_path first.1).0 (rw f at h) in
        rw f
          (Gone-delete p s.thumbnail_path first.1 (Gone-delete p s.storage_path d g both.0) both.1)
  ]

  delete_blobs-IsGone :
      (s : Storage) (d : Disk)
      → succeeds (delete_blobs o s d).0 ≡ true
      → IsGone s (delete_blobs o s d).1
  unfolding delete_blobs
  delete_blobs-IsGone s d h = elim (Bool-cases (s.thumbnail_path == "")) [
    | inl t ↦ rw t (faithful.deleted s.storage_path d (rw t at h), λ n. absurd (ground arith))
    | inr f ↦
        let first = o.backend.delete s.storage_path d in
        let both = join-ok first.0 (o.backend.delete s.thumbnail_path first.1).0 (rw f at h) in
        rw f (
          Gone-delete s.storage_path s.thumbnail_path first.1
              (faithful.deleted s.storage_path d both.0) both.1,
          λ n. faithful.deleted s.thumbnail_path first.1 both.1,
        )
  ]

  abbrev outcome : Result (Unit {0}) × Disk → Result (Unit {0}) × Disk → Result (Unit {0}) × Disk
  outcome r next = elim r.0 [ err e ↦ (err e, r.1) | ok _ ↦ next ]

  outcome-ok :
      (r next : Result (Unit {0}) × Disk)
      → succeeds (outcome r next).0 ≡ true
      → (succeeds r.0 ≡ true) × (outcome r next ≡ next)
  outcome-ok (ok x, d) next h = (refl, refl)
  outcome-ok (err e, d) next h = absurd (ground arith)

  all-Gone-stay :
      (p : String) (l : List Storage) (d : Disk)
      → Gone p d
      → succeeds (delete_all_blobs o l d).0 ≡ true
      → Gone p (delete_all_blobs o l d).1
  unfolding delete_all_blobs
  all-Gone-stay p [] d g h = g
  all-Gone-stay p (s ∷ rest) d g h =
      let r = delete_blobs o s d in
      let next = delete_all_blobs o rest r.1 in
      let split = outcome-ok r next h in
      subst (λ n. Gone p n.1) (sym split.1)
        (all-Gone-stay p rest r.1 (delete_blobs-Gone p s d g split.0)
          (subst (λ n. succeeds n.0 ≡ true) split.1 h))

  delete_all_blobs-IsGone :
      (l : List Storage) (d : Disk)
      → succeeds (delete_all_blobs o l d).0 ≡ true
      → All (λ s. IsGone s (delete_all_blobs o l d).1) l
  unfolding delete_all_blobs
  delete_all_blobs-IsGone [] d h = tt
  delete_all_blobs-IsGone (s ∷ rest) d h =
      let r = delete_blobs o s d in
      let next = delete_all_blobs o rest r.1 in
      let split = outcome-ok r next h in
      let ends : succeeds next.0 ≡ true = subst (λ n. succeeds n.0 ≡ true) split.1 h in
      let gone = delete_blobs-IsGone s d split.0 in
      subst (λ n. All (λ s'. IsGone s' n.1) (s ∷ rest)) (sym split.1)
        (
          (
            all-Gone-stay s.storage_path rest r.1 gone.0 ends,
            λ n. all-Gone-stay s.thumbnail_path rest r.1 (gone.1 n) ends,
          ),
          delete_all_blobs-IsGone rest r.1 ends,
        )

-- Of the deletion of the rows behind that of the files: what it leaves when it ends well, and when
-- it does not. `g` is the statement, and `G` what the deletion of the files gives.
rows_last :
    {Disk : Type 0} (g : Table → Table) (G : Disk → Type 0) (st : State Disk) (f : Option Error)
    (r : Result (Unit {0})) (d : Disk)
    → (succeeds r ≡ true → G d)
    → (let run = after (r, record st { disk = d }) (λ _. change f (λ t. ok (g t))) in
        (succeeds run.0 ≡ true → (run.1.table ≡ g st.table) × G run.1.disk)
        × (succeeds run.0 ≡ false → run.1.table ≡ st.table))
rows_last g G st f (err e) d h = (λ x. absurd (ground arith), λ x. refl)
rows_last g G st (some e) (ok u) d h = (λ x. absurd (ground arith), λ x. refl)
rows_last g G st none (ok u) d h = (λ x. (refl, h refl), λ x. absurd (ground arith))

listed_first :
    {Disk : Type 0} (o : Service Disk) (faithful : IsFaithful o.backend) (app_id : String)
    (st : State Disk) (f f' : Option Error)
    → (let files = get_by_application_id app_id st.table in
        let run =
          (query f (λ t. ok (get_by_application_id app_id t)) >>= λ l.
          on_disk (delete_all_blobs o l) >> change f' (λ t. ok (delete_by_application_id app_id t)))
            st in
        (succeeds run.0 ≡ true
          → (run.1.table ≡ delete_by_application_id app_id st.table)
            × All (λ s. IsGone o faithful s run.1.disk) files)
        × (succeeds run.0 ≡ false → run.1.table ≡ st.table))
listed_first o faithful app_id st (some e) f' = (λ x. absurd (ground arith), λ x. refl)
listed_first o faithful app_id st none f' =
    let files = get_by_application_id app_id st.table in
    let r = delete_all_blobs o files st.disk in
    rows_last (delete_by_application_id app_id) (λ d. All (λ s. IsGone o faithful s d) files) st f'
      r.0 r.1 (delete_all_blobs-IsGone o faithful files st.disk)

-- The cleanup of an application's files, with a backend from which a file that was deleted cannot be
-- read: either it ends well, the rows of the application are deleted and no others, and neither the
-- file of such a row nor its thumbnail can be read; or it fails and the table is as it was, so a
-- next attempt finds every path.
pub cleanup_exact :
    {Disk : Type 0} (o : Service Disk) (faithful : IsFaithful o.backend) (app_id : String)
    (st : State Disk)
    → (let run = cleanup_application_storage o app_id st in
        ((succeeds run.0 ≡ true)
          × (run.1.table ≡ delete_by_application_id app_id st.table)
          × All
              (λ r. IsGone o faithful r.file run.1.disk)
              (filter (in_application_row app_id) st.table.rows))
        ⊎ ((succeeds run.0 ≡ false) × (run.1.table ≡ st.table)))
unfolding cleanup_application_storage get_by_application_id
cleanup_exact o faithful app_id st =
    let h = listed_first o faithful app_id st o.faults.on_list o.faults.on_delete in
    let run = cleanup_application_storage o app_id st in
    let rows = filter (in_application_row app_id) st.table.rows in
    elim (Bool-cases (succeeds run.0)) [
      | inl x ↦ inl (
        x,
        (h.0 x).0,
        All-of_In (λ r. IsGone o faithful r.file run.1.disk) rows
            (λ r i.
              All-In (λ s. IsGone o faithful s run.1.disk) (get_by_application_id app_id st.table)
                (scanned r) (h.0 x).1 (In-youngest_first r rows i)),
      )
      | inr x ↦ inr (x, h.1 x)
    ]
