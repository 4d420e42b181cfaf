-- ===== src/Invitation/Run/Hoare.antt =====
-- What holds before and after an operation of the invitation service
-- (internal/invitation/invitation_service.go).
pub use prappser_spaces.Effect.Hoare.{
  Post, Hoare, Keeps, bind-Hoare, lift-Hoare, lift-Keeps, give-Keeps, caught-Hoare, ignored-Hoare,
  weaken-Hoare, strengthen-Hoare, if-Hoare, given-Hoare, deferred-Hoare, answered, passes,
}
use prappser_spaces.Effect.Hoare.{fetched, looked}
use prappser_spaces.Base.{◌≡◌, refl, Bool, Option, none, some}
use prappser_spaces.Result.{Result, ok, err, Error}
use prappser_spaces.Invitation.Repository.{Table}
use prappser_spaces.Invitation.Run.{State, ask, call, query, committed, change}

module _ {World : Type 0} where
  -- What is said of the tables and of the variable heldClaim.
  abbrev pub OfTable : (Table → Bool → Type 0) → State World → Type 0
  OfTable T s = T s.table s.held_claim

module _ {World : Type 0} (P P' R : State World → Type 0) where
  changed :
      (s : State World) (r : Result Table)
      → R s
      → ((t : Table) → r ≡ ok t → P' (record s { table = t }))
      → Post (λ _. P') R (committed s r)
  changed s (ok t) p h = h t refl
  changed s (err e) p h = p

module _ {World : Type 0} {A : Type 0} {P : State World → Type 0} where
  pub ask-Keeps : (f : World → Result A) → Keeps P (ask f)
  ask-Keeps f = record { holds = λ s p. fetched P s (f s.world) p }

  pub query-Hoare :
      (f : Option Error) (q : Table → Result A)
      → Hoare P (query f q) (λ a s. P s × (q s.table ≡ ok a)) P
  query-Hoare (some e) q = record { holds = λ s p. p }
  query-Hoare none q = record { holds = λ s p. looked P (λ t. q t.table) s (q s.table) refl p }

  pub query-Keeps : (f : Option Error) (q : Table → Result A) → Keeps P (query f q)
  query-Keeps (some e) q = record { holds = λ s p. p }
  query-Keeps none q = record { holds = λ s p. fetched P s (q s.table) p }

-- A call changes neither the tables nor the variable.
module _ {World : Type 0} {A : Type 0} (T : Table → Bool → Type 0) where
  called :
      (s : State World) (r : Result A) (w : World)
      → T s.table s.held_claim
      → Post (λ _. OfTable T) (OfTable T) (r, record s { world = w })
  called s (ok a) w p = p
  called s (err e) w p = p

  pub call-Keeps : (f : World → Result A × World) → Keeps (OfTable T) (call f)
  call-Keeps f = record { holds = λ s p. called s (f s.world).0 (f s.world).1 p }

module _ {World : Type 0} {P P' R : State World → Type 0} where
  pub change-Hoare :
      (f : Option Error) (g : Table → Result Table)
      → ((s : State World) → P s → R s)
      → ((s : State World) (t : Table) → P s → g s.table ≡ ok t → P' (record s { table = t }))
      → Hoare P (change f g) (λ _. P') R
  change-Hoare (some e) g k h = record { holds = λ s p. k s p }
  change-Hoare none g k h = record {
    holds = λ s p. changed P P' R s (g s.table) (k s p) (λ t e. h s t p e);
  }
