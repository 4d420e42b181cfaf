-- ===== src/Scenarios/Overlaps.antt =====
-- Two uploads of one account that overlap (internal/storage/service.go).
use prappser_spaces.Base.{List, [], ◌∷◌, ◌≡◌, refl, false, ◌≤◌, arith}
use prappser_spaces.Base.Int.{pos, ◌≤ℤ◌, ltb_ℤ}
use prappser_spaces.Storage.{Storage}
use prappser_spaces.Storage.Backend.Local.{Disk}
use prappser_spaces.Storage.Repository.{create_storage, sum_sizes, get_used_bytes_by_uploader}
use prappser_spaces.Storage.Repository.Within.{IsWithin}
use prappser_spaces.Storage.Run.{Service, State}
use prappser_spaces.Storage.Service.{check_quota}
use prappser_spaces.Storage.Overlap.{
  Flight, Action, checks, inserts, act, act_all, IsChecked, in_flight,
}
use prappser_spaces.Storage.Overlap.Bound.{overshoot_bounded}
use prappser_spaces.Scenarios.Files.{service, stored_note, stored_long}

-- A quota of ten bytes, and files of at most six.
abbrev tight : Service Disk
tight = record service { account_quota = pos 10; max_file_size = pos 6 }

abbrev first : Storage
first = record stored_note { size_bytes = pos 6 }

abbrev second : Storage
second = record stored_long { size_bytes = pos 6 }

abbrev nothing : State Disk
nothing = record { table = record { rows = []; chunks = [] }; disk = [] }

abbrev start : Flight Disk
start = record { state = nothing; waiting = [] }

-- Both are checked before either is inserted.
abbrev overlapping : List (Action Disk)
overlapping =
    checks tight first false ∷ checks tight second false ∷ inserts tight 0 ∷ inserts tight 0 ∷ []

-- The twelve bytes exceed the quota.
overlapping_run : sum_sizes "kim" (act_all overlapping start).state.table.rows ≡ pos 12
unfolding act_all act check_quota get_used_bytes_by_uploader create_storage
overlapping_run = refl

second_waits : (act (checks tight first false) start).waiting ≡ first ∷ []
unfolding act check_quota get_used_bytes_by_uploader
second_waits = refl

kims :
    (s : Storage) (waiting : List Storage)
    → s.uploader_public_key ≡ "kim"
    → pos 0 ≤ℤ s.size_bytes
    → ltb_ℤ (pos 6) s.size_bytes ≡ false
    → in_flight "kim" (s ∷ waiting) ≤ 2
    → IsChecked "kim" (pos 10) 6 1 tight s false waiting
kims s waiting k n m w = record {
  same_quota = refl;
  same_cap = refl;
  quota_on = refl;
  counted = λ u. refl;
  natural = n;
  capped = m;
  few = w;
}

overshoot_bounded_example : IsWithin "kim" (pos 16) (act_all overlapping start).state.table
unfolding act check_quota get_used_bytes_by_uploader
overshoot_bounded_example =
    overshoot_bounded "kim" (pos 10) 6 1 overlapping nothing (omega arith)
      (record { counted = tt; within = omega arith })
      (
        kims first [] refl (omega arith) refl (omega arith),
        (kims second (first ∷ []) refl (omega arith) refl (omega arith), (tt, (tt, tt))),
      )
