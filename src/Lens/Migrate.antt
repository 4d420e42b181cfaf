-- ===== src/Lens/Migrate.antt =====
-- The migration of an entry between versions (`migrate` and Migrate in
-- internal/component/lens/lens.go).
pub mod Versions
use prappser_spaces.Base.{
  ℕ, zero, suc, ◌+◌, ◌-◌, String, Bool, true, false, not, ◌&&◌, ◌||◌, Option, none, some, List, [],
  ◌∷◌, ◌==◌, any, ltb, leb, eqb, if◌then◌else◌,
}
use prappser_spaces.Base.Int.{ℤ, pos, negsuc, leb_ℤ}
use prappser_spaces.Result.{Result, ok, err, ◌>>=◌, ◌>>◌, guard, bad_version, breaking}
use prappser_spaces.Lens.{Json, number, rational, object, Entries, Op}
use prappser_spaces.Lens.Values.{max_safe, int_val, member, set_member}
use prappser_spaces.Lens.Ops.{apply, lossy}
use prappser_spaces.Lens.Steps.{lookup}

abbrev pub max_version : ℕ
max_version = 9007199254740991

-- checkArg
unfoldable pub check_arg : ℤ → Result ℕ
check_arg (pos n) = guard (leb 1 n && leb n max_version) [] >>= λ _. ok n
check_arg (negsuc n) = err []

abbrev version_of_int : Option ℤ → Result ℕ
version_of_int (some (pos n)) =
    guard (leb 1 n && leb n max_version) (bad_version ∷ []) >>= λ _. ok n
version_of_int _ = err (bad_version ∷ [])

abbrev version_of : Option Json → Result ℕ
version_of none = ok 1
version_of (some v) = version_of_int (int_val v)

-- Version
unfoldable pub version : Entries → Result ℕ
version m = version_of (member "v" m)

abbrev pub num : ℕ → Json
num n = number (rational (pos n) 0)

unfoldable pub apply_up : List Op → Entries → Entries
apply_up [] m = m
apply_up (o ∷ ops) m = apply_up ops (apply o true m)

-- From the last operation to the first.
unfoldable pub apply_down : List Op → Entries → Entries
apply_down [] m = m
apply_down (o ∷ ops) m = apply o false (apply_down ops m)

module _ (matches : String → String → Option Bool) (steps : Json) (key : String) where
  -- The loop from version `from` up, over as many steps as are left.
  unfoldable pub climb : (left : ℕ) → ℕ → Entries → Bool → Result (Entries × Bool)
  climb zero from m lost = ok (m, lost)
  climb (suc left) from m lost = lookup matches steps (suc from) key >>= λ (ops, _).
      climb left (suc from) (apply_up ops m) (lost || any (λ o. lossy o true) ops)

  -- The loop from version `from` down.
  unfoldable pub descend : (left : ℕ) → ℕ → Entries → Bool → Result (Entries × Bool)
  descend zero from m lost = ok (m, lost)
  descend (suc left) from m lost = lookup matches steps from key >>= λ (ops, broken).
      guard (not broken) (breaking ∷ []) >>= λ _.
      descend left (from - 1) (apply_down ops m)
        (lost || any (λ o. lossy o false || lossy o true) ops)

  abbrev stamped : ℕ → Result (Entries × Bool) → Result (Entries × Bool)
  stamped to r = r >>= λ (m, lost). ok (set_member "v" (num to) m, lost)

  unfoldable pub migrate_from : ℕ → Entries → ℕ → Result (Entries × Bool)
  migrate_from e m to =
      if eqb e to
      then ok (m, false)
      else stamped to (if ltb e to then climb (to - e) e m false else descend (e - to) e m false)

  -- migrate: the entry at the version, and whether something may be lost.
  unfoldable pub migrate : Entries → ℕ → Result (Entries × Bool)
  migrate m to = version m >>= λ e. migrate_from e m to

  abbrev migrate_value : Json → ℕ → Result (Json × Bool)
  migrate_value (object m) to = migrate m to >>= λ (m', lost). ok (object m', lost)
  migrate_value v to = ok (v, false)

  -- Migrate
  unfoldable pub migrate_any : Json → ℤ → Result (Json × Bool)
  migrate_any v to = check_arg to >>= λ n. migrate_value v n
