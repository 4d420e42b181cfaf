-- ===== src/Storage/Run/Hoare.antt =====
-- What holds before and after an operation of the storage service (internal/storage/service.go).
pub use prappser_spaces.Effect.Hoare.{
  Post, Hoare, Keeps, bind-Hoare, lift-Hoare, lift-Keeps, give-Keeps, caught-Hoare, ignored-Hoare,
  weaken-Hoare, strengthen-Hoare, if-Hoare, given-Hoare, answered,
}
use prappser_spaces.Effect.Hoare.{fetched, looked}
use prappser_spaces.Base.{◌≡◌, refl, true, Option, none, some}
use mathlib.Core.Path.{subst}
use prappser_spaces.Result.{Result, ok, err, Error}
use prappser_spaces.Storage.Repository.{Table}
use prappser_spaces.Storage.Backend.{succeeds}
use prappser_spaces.Storage.Run.{State, query, committed, change, on_disk, from_disk}

module _ {Disk : Type 0} where
  -- What is said of the tables.
  abbrev pub OfTable : (Table → Type 0) → State Disk → Type 0
  OfTable T s = T s.table

module _ {Disk : Type 0} (P P' : State Disk → Type 0) where
  changed :
      (s : State Disk) (r : Result Table)
      → P s
      → ((t : Table) → r ≡ ok t → P' (record s { table = t }))
      → Post (λ _. P') P (committed s r)
  changed s (ok t) p h = h t refl
  changed s (err e) p h = p

module _ {Disk : Type 0} (T : Table → Type 0) where
  of_disk :
      (t : Table) (r : Result (Unit {0})) (d : Disk)
      → T t
      → Post {S = State Disk} (λ _. OfTable T) (OfTable T) (r, record { table = t; disk = d })
  of_disk t (ok u) d p = p
  of_disk t (err e) d p = p

module _ {Disk : Type 0} {A : Type 0} {P : State Disk → Type 0} where
  pub from_disk-Hoare :
      (f : Disk → Result A) → Hoare P (from_disk f) (λ a s. P s × (f s.disk ≡ ok a)) P
  from_disk-Hoare f = record { holds = λ s p. looked P (λ t. f t.disk) s (f s.disk) refl p }

  pub from_disk-Keeps : (f : Disk → Result A) → Keeps P (from_disk f)
  from_disk-Keeps f = record { holds = λ s p. fetched P s (f s.disk) p }

  pub query-Hoare :
      (f : Option Error) (q : Table → Result A)
      → Hoare P (query f q) (λ a s. P s × (q s.table ≡ ok a)) P
  query-Hoare (some e) q = record { holds = λ s p. p }
  query-Hoare none q = record { holds = λ s p. looked P (λ t. q t.table) s (q s.table) refl p }

  pub query-Keeps : (f : Option Error) (q : Table → Result A) → Keeps P (query f q)
  query-Keeps (some e) q = record { holds = λ s p. p }
  query-Keeps none q = record { holds = λ s p. fetched P s (q s.table) p }

module _ {Disk : Type 0} {P P' : State Disk → Type 0} where
  pub change-Hoare :
      (f : Option Error) (g : Table → Result Table)
      → ((s : State Disk) (t : Table) → P s → g s.table ≡ ok t → P' (record s { table = t }))
      → Hoare P (change f g) (λ _. P') P
  change-Hoare (some e) g h = record { holds = λ s p. p }
  change-Hoare none g h = record { holds = λ s p. changed P P' s (g s.table) p (λ t e. h s t p e) }

ok-subst : {A : Type 0} (P : A → Type 0) (a b : A) → P a → ok a ≡ ok b → P b
ok-subst P a b p e = let q : a ≡ b = cc in subst P q p

-- A statement that cannot fail by itself.
pub total-Keeps :
    {Disk : Type 0} (T : Table → Type 0) (f : Option Error) (g : Table → Table)
    → ((t : Table) → T t → T (g t))
    → Keeps {S = State Disk} (OfTable T) (change f (λ t. ok (g t)))
total-Keeps T f g h =
    change-Hoare f (λ t. ok (g t)) (λ st t p e. ok-subst T (g st.table) t (h st.table p) e)

-- An operation on the disk keeps what is said of the tables.
pub on_disk-Keeps :
    {Disk : Type 0} (T : Table → Type 0) (f : Disk → Result (Unit {0}) × Disk)
    → Keeps (OfTable T) (on_disk f)
on_disk-Keeps T f = record { holds = λ s p. of_disk T s.table (f s.disk).0 (f s.disk).1 p }

written :
    {Disk : Type 0} (Q R : State Disk → Type 0) (t : Table) (r : Result (Unit {0})) (d : Disk)
    → (succeeds r ≡ true → Q (record { table = t; disk = d }))
    → R (record { table = t; disk = d })
    → Post (λ _. Q) R (r, record { table = t; disk = d })
written Q R t (ok u) d h k = h refl
written Q R t (err e) d h k = k

-- What an operation on the disk does when it succeeds.
pub on_disk-Hoare :
    {Disk : Type 0} (P Q : State Disk → Type 0) (f : Disk → Result (Unit {0}) × Disk)
    → ((s : State Disk) → P s → succeeds (f s.disk).0 ≡ true → Q (record s { disk = (f s.disk).1 }))
    → Hoare P (on_disk f) (λ _. Q) (λ _. Unit {0})
on_disk-Hoare P Q f h = record {
  holds = λ s p. written Q (λ _. Unit {0}) s.table (f s.disk).0 (f s.disk).1 (h s p) tt;
}

disk_kept :
    {Disk : Type 0} (P : State Disk → Type 0) (t : Table) (r : Result (Unit {0})) (d : Disk)
    → P (record { table = t; disk = d })
    → Post (λ _. P) P (r, record { table = t; disk = d })
disk_kept P t (ok u) d p = p
disk_kept P t (err e) d p = p

-- An operation on the disk that keeps what is said of the disk, however it ends.
pub on_disk_all-Keeps :
    {Disk : Type 0} (P : State Disk → Type 0) (f : Disk → Result (Unit {0}) × Disk)
    → ((s : State Disk) → P s → P (record s { disk = (f s.disk).1 }))
    → Keeps P (on_disk f)
on_disk_all-Keeps P f h = record {
  holds = λ s p. disk_kept P s.table (f s.disk).0 (f s.disk).1 (h s p);
}
