-- ===== src/Storage/Overlap.antt =====
-- Uploads that overlap (Upload, InitChunkedUpload and checkQuota in internal/storage/service.go):
-- checkQuota reads the sum before the insert, and other requests are served in between.
pub mod Waiting
pub mod Invariant
pub mod Bound
use prappser_spaces.Base.{
  ℕ, zero, suc, String, Bool, false, Option, none, some, List, [], ◌∷◌, ◌==◌, if◌then◌else◌, ◌≡◌,
  ◌≤◌,
}
use prappser_spaces.Base.Int.{ℤ, pos, pos_part, ◌≤ℤ◌, leb_ℤ, ltb_ℤ}
use prappser_spaces.Result.{Result, ok, err}
use prappser_spaces.Storage.{Bytes, Storage}
use prappser_spaces.Storage.Repository.{create_storage}
use prappser_spaces.Storage.Run.{Service, State, change, on_disk}
use prappser_spaces.Storage.Service.{check_quota}
use prappser_spaces.Storage.Service.Upload.{after_insert}
use prappser_spaces.Storage.History.{Request, serve, adds_file}

-- The state of the service, and the uploads whose check has passed and whose row is not inserted.
pub record Flight (Disk : Type 0) : Type 0 where
  pub state : State Disk
  pub waiting : List Storage

-- What an upload does in turn (its check, the write of its content, the insert of the i-th that
-- waits, what follows the insert, or giving up between the check and the insert), and a whole
-- request of another kind.
pub data Action (Disk : Type 0) : Type 0 where
  checks : Service Disk → Storage → Bool → Action Disk
  writes : Service Disk → Storage → Bytes → Action Disk
  inserts : Service Disk → ℕ → Action Disk
  ends : Service Disk → Storage → Bytes → String → Result (Unit {0}) → Action Disk
  gives_up : ℕ → Action Disk
  serves : Service Disk → Request → Action Disk

abbrev pub nth : ℕ → List Storage → Option Storage
nth i [] = none
nth zero (s ∷ ss) = some s
nth (suc i) (s ∷ ss) = nth i ss

abbrev pub without : ℕ → List Storage → List Storage
without i [] = []
without zero (s ∷ ss) = ss
without (suc i) (s ∷ ss) = s ∷ without i ss

-- A check that passes lets the upload go on; it reads only.
abbrev pub entering : Storage → List Storage → Result (Unit {0}) → List Storage
entering s waiting (ok _) = s ∷ waiting
entering s waiting (err _) = waiting

module _ {Disk : Type 0} where
  -- An insert that fails ends its upload as well.
  abbrev pub insert_waiting : Service Disk → Option Storage → State Disk → State Disk
  insert_waiting o none st = st
  insert_waiting o (some s) st = (change o.faults.on_create (create_storage s) st).1

  unfoldable pub act : Action Disk → Flight Disk → Flight Disk
  act (checks o s quota_exempt) f = record f {
    waiting =
        entering s f.waiting
          (check_quota o s.uploader_public_key s.size_bytes quota_exempt f.state).0;
  }
  act (writes o s x) f = record f { state = (on_disk (o.backend.store s.storage_path x) f.state).1 }
  act (inserts o i) f = record {
    state = insert_waiting o (nth i f.waiting) f.state;
    waiting = without i f.waiting;
  }
  act (ends o s x base_url r) f = record f { state = (after_insert o s x base_url r f.state).1 }
  act (gives_up i) f = record f { waiting = without i f.waiting }
  act (serves o r) f = record f { state = serve o r f.state }

  unfoldable pub act_all : List (Action Disk) → Flight Disk → Flight Disk
  act_all [] f = f
  act_all (a ∷ rest) f = act_all rest (act a f)

-- The uploads of `key` among those that wait.
abbrev pub in_flight : String → List Storage → ℕ
in_flight key [] = 0
in_flight key (s ∷ ss) =
    let rest = in_flight key ss in if s.uploader_public_key == key then suc rest else rest

-- The check of an upload at a service with this quota and this cap on a file, when at most n others
-- of `key` wait: none of the uploader's own is exempt, and the size has passed the cap.
pub record IsChecked {Disk : Type 0} (key : String) (quota : ℤ) (ceiling n : ℕ) (o : Service Disk)
    (s : Storage) (quota_exempt : Bool) (waiting : List Storage) : Type 0 where
  pub same_quota : o.account_quota ≡ quota
  pub same_cap : o.max_file_size ≡ pos ceiling
  pub quota_on : leb_ℤ quota (pos 0) ≡ false
  pub counted : s.uploader_public_key ≡ key → quota_exempt ≡ false
  pub natural : pos 0 ≤ℤ s.size_bytes
  pub capped : ltb_ℤ (pos ceiling) s.size_bytes ≡ false
  pub few : in_flight key (s ∷ waiting) ≤ suc n

module _ {Disk : Type 0} (key : String) (quota : ℤ) (ceiling n : ℕ) where
  abbrev pub IsAllowed : Action Disk → Flight Disk → Type 0
  IsAllowed (checks o s quota_exempt) f = IsChecked key quota ceiling n o s quota_exempt f.waiting
  IsAllowed (serves o r) f = adds_file r ≡ false
  IsAllowed (writes _ _ _) _ = Unit
  IsAllowed (inserts _ _) _ = Unit
  IsAllowed (ends _ _ _ _ _) _ = Unit
  IsAllowed (gives_up _) _ = Unit

  -- Each action is allowed when its turn comes.
  abbrev pub IsRun : List (Action Disk) → Flight Disk → Type 0
  IsRun [] f = Unit
  IsRun (a ∷ rest) f = IsAllowed a f × IsRun rest (act a f)
