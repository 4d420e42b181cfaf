-- ===== src/Invitation/Run.antt =====
-- The operations of the invitation service (internal/invitation/invitation_service.go) as changes of
-- its tables and of the other components' state: one that fails keeps what it changed before.
pub mod Hoare
pub use prappser_spaces.Effect.{◌>>=◌, ◌>>◌, give, lift, caught, ignored, deferred, after}
use prappser_spaces.Effect.{Effect}
use prappser_spaces.Base.{
  ℕ, String, ◌≡◌, refl, Bool, true, false, Option, none, some, List, [], ◌∷◌,
}
use prappser_spaces.Base.Int.{ℤ}
use prappser_spaces.Value.{Fields}
use prappser_spaces.Result.{Result, ok, err, Error}
use prappser_spaces.Application.{Application, Member}
use prappser_spaces.Event.{Event}
use prappser_spaces.Invitation.{Instant, Account, Device}
use prappser_spaces.Invitation.Repository.{Table}
use prappser_spaces.Invitation.Proof.{ProofLibrary}

-- `world` is the state of the other components, and `held_claim` the variable heldClaim of a Join.
pub record State (World : Type 0) : Type 0 where
  pub table : Table
  pub world : World
  pub held_claim : Bool

-- The database errors that strike an operation, at most one for each statement.
pub record Faults : Type 0 where
  pub on_create : Option Error
  pub on_get : Option Error
  pub on_delete : Option Error
  pub on_claim : Option Error
  pub on_release : Option Error
  pub on_record : Option Error
  pub on_used : Option Error
  pub on_list : Option Error

-- What the service asks of the applications, the users and the events. `get_member` answers with
-- `none` where the error's text is "member not found", and `verify_admission` with what Admit then
-- does. The name of a device comes last, and the time is that of the operation.
pub record Others (World : Type 0) : Type 0 where
  pub get_application : String → World → Result Application
  pub get_member : String → String → World → Result (Option Member)
  pub is_member : String → String → World → Result Bool
  pub move_guard : String → String → Bool → World → Result (Unit {0})
  pub get_user : String → World → Result (Option Account)
  pub get_device : String → World → Result (Option Device)
  pub list_devices : String → World → Result (List Device)
  pub count_users : World → Result ℤ
  pub roster_allowed : Account → Option Device → World → Result Bool
  pub create_user : Account → World → Result (Unit {0}) × World
  pub update_user_role : String → String → World → Result (Unit {0}) × World
  pub ensure_device : String → String → Option String → World → Result (Unit {0}) × World
  pub verify_admission :
      String
      → String
      → String
      → String
      → Option String
      → World
      → Result (World → Result (Unit {0}) × World)
  pub produce_event : Event → World → Result Event × World

-- What the service is made of: its settings, the libraries for tokens, assertions and names, fresh
-- ids, and the clock at the operation. `parse_token` is jwt.Parse under EdDSA and the space's key,
-- `sign_token` its counterpart, `verify_assertion` gives the account that an assertion is for; each
-- works at the time of the operation.
pub record Service (World : Type 0) : Type 0 where
  pub single_use_signup : Bool
  pub max_accounts : ℤ
  pub external_url : String
  pub others : Others World
  pub proofs : ProofLibrary
  pub parse_token : String → Option Fields
  pub sign_token : Fields → Result String
  pub verify_assertion : String → String → String → Result String
  pub normalize_device_name : String → Option String
  pub invite_id : String
  pub event_id : String
  pub use_id : String
  pub now : Instant
  pub faults : Faults

abbrev pub Run : Type 0 → Type 0 → Type 0
Run World A = Effect (State World) A

module _ {World : Type 0} where
  -- A question to another component, and a call that changes its state.
  abbrev pub ask : {A : Type 0} → (World → Result A) → Run World A
  ask f s = (f s.world, s)

  abbrev pub call : {A : Type 0} → (World → Result A × World) → Run World A
  call f s = ((f s.world).0, record s { world = (f s.world).1 })

  -- A query, and a statement that changes the tables.
  abbrev pub query : {A : Type 0} → Option Error → (Table → Result A) → Run World A
  query (some e) q s = (err e, s)
  query none q s = (q s.table, s)

  abbrev pub committed : State World → Result Table → Result (Unit {0}) × State World
  committed s (ok t) = (ok tt, record s { table = t })
  committed s (err e) = (err e, s)

  abbrev pub change : Option Error → (Table → Result Table) → Run World (Unit {0})
  change (some e) f s = (err e, s)
  change none f s = committed s (f s.table)

  abbrev pub hold : Bool → Run World (Unit {0})
  hold b s = (ok tt, record s { held_claim = b })

abbrev pub no_faults : Faults
no_faults = record {
  on_create = none;
  on_get = none;
  on_delete = none;
  on_claim = none;
  on_release = none;
  on_record = none;
  on_used = none;
  on_list = none;
}
