-- ===== src/Lens/Migrate/Versions.antt =====
-- The versions that a migration ends at and the steps that it takes
-- (`migrate` in internal/component/lens/lens.go).
use mathlib.Core.Path.{subst}
use prappser_spaces.Base.{
  ℕ, zero, suc, ◌+◌, ◌-◌, ◌≤◌, ◌<◌, String, ◌≡◌, refl, ap, ◌∙◌, inl, inr, Bool, true, false, not,
  ◌||◌, Option, some, List, [], ◌∷◌, any, ltb, eqb, eqb_iff, eq_refl, arith, Bool-cases,
  if◌then◌else◌,
}
use prappser_spaces.Result.{Result, ok, err, >>=-eq-ok, guard, guard-eq-ok, breaking}
use prappser_spaces.Lens.{Json, Entries, Op}
use prappser_spaces.Lens.Values.{int_val, member, set_member}
use prappser_spaces.Lens.Values.Laws.{member-set_member}
use prappser_spaces.Lens.Ops.{lossy}
use prappser_spaces.Lens.Steps.{lookup}
use prappser_spaces.Lens.Migrate.{
  max_version, version, version_of, num, apply_down, climb, descend, stamped, migrate_from, migrate,
}

version_of-num : (n : ℕ) → 1 ≤ n → n ≤ max_version → version_of (some (num n)) ≡ ok n
unfolding int_val
version_of-num n a b = ground arith

taken :
    (m m' : Entries) (lost : Bool) (r : Result (Entries × Bool))
    → r ≡ ok (m, false)
    → r ≡ ok (m', lost)
    → m ≡ m'
taken m m' lost r h k = cc

above_eqb : (e to : ℕ) → to < e → eqb e to ≡ false
above_eqb e to h = ground arith

above_ltb : (e to : ℕ) → to < e → ltb e to ≡ false
above_ltb e to h = ground arith

pub version-stamped :
    (m : Entries) (n : ℕ) → 1 ≤ n → n ≤ max_version → version (set_member "v" (num n) m) ≡ ok n
unfolding version
version-stamped m n a b =
    ap version_of (
      member-set_member "v" "v" (num n) m
      ∙ ap (λ c. if c then some (num n) else member "v" m) (eq_refl "v"))
    ∙ version_of-num n a b

module _ (matches : String → String → Option Bool) (steps : Json) (key : String) where
  stamped-version :
      (to : ℕ) (r : Result (Entries × Bool)) (m : Entries) (lost : Bool)
      → 1 ≤ to
      → to ≤ max_version
      → stamped matches steps key to r ≡ ok (m, lost)
      → version m ≡ ok to
  stamped-version to (ok (m', lost')) m lost a b h =
      let e : set_member "v" (num to) m' ≡ m = cc in
      subst (λ x. version x ≡ ok to) e (version-stamped m' to a b)
  stamped-version to (err e) m lost a b h = absurd (ground arith)

  -- A migration that succeeds ends at the version that was asked for.
  pub migrate-version :
      (m m' : Entries) (to : ℕ) (lost : Bool)
      → 1 ≤ to
      → to ≤ max_version
      → migrate matches steps key m to ≡ ok (m', lost)
      → version m' ≡ ok to
  unfolding migrate migrate_from
  migrate-version m m' to lost a b h =
      let v = >>=-eq-ok (version m) (λ e. migrate_from matches steps key e m to) h in
      let e = v.0 in
      elim (Bool-cases (eqb e to)) [
        | inl t ↦
            let q = taken m m' lost (ok (m, false)) refl (rw t at v.2) in
            let n = (eqb_iff e to).0 t in subst (λ x. version x ≡ ok to) q (v.1 ∙ ap (λ k. ok k) n)
        | inr f ↦
            stamped-version to
              (if ltb e to
                then climb matches steps key (to - e) e m false
                else descend matches steps key (e - to) e m false)
              m' lost a b (rw f at v.2)
      ]

  -- The steps of the loop are there, and none is breaking.
  descended :
      (left from : ℕ) (m m' : Entries) (lost lost' : Bool)
      → left ≤ from
      → descend matches steps key left from m lost ≡ ok (m', lost')
      → (k : ℕ) → from < k + left
      → k ≤ from
      → (ops : List Op) × (lookup matches steps k key ≡ ok (ops, false))
  unfolding descend
  descended zero from m m' lost lost' l h k a b = absurd (omega arith)
  descended (suc left) from m m' lost lost' l h k a b =
      let s = >>=-eq-ok (lookup matches steps from key) _ h in
      let g = >>=-eq-ok (guard (not s.0.1) (breaking ∷ [])) _ s.2 in
      elim (Bool-cases (eqb k from)) [
        | inl t ↦
            let e : from ≡ k = ground arith in
            let n = guard-eq-ok (not s.0.1) (breaking ∷ []) g.1 in
            let whole : s.0.1 ≡ false = ground arith in
            (
              s.0.0,
              subst (λ j. lookup matches steps j key ≡ ok (s.0.0, false)) e
                  (s.1 ∙ ap (λ c. ok (s.0.0, c)) whole),
            )
        | inr f ↦
            descended left (from - 1) (apply_down s.0.0 m) m'
              (lost || any (λ o. lossy o false || lossy o true) s.0.0) lost' (ground arith) g.2 k
              (ground arith) (ground arith)
      ]

  stamped-run :
      (to : ℕ) (r : Result (Entries × Bool)) (m' : Entries) (lost : Bool)
      → stamped matches steps key to r ≡ ok (m', lost)
      → (m : Entries) × (l : Bool) × (r ≡ ok (m, l))
  stamped-run to (ok (m, l)) m' lost h = (m, l, refl)
  stamped-run to (err e) m' lost h = cc

  -- A migration down that succeeds has a step for each version above the one asked for, up to the
  -- entry's, and none of these is breaking.
  pub down_not_breaking :
      (m m' : Entries) (e to : ℕ) (lost : Bool) (k : ℕ)
      → version m ≡ ok e
      → to < k
      → k ≤ e
      → migrate matches steps key m to ≡ ok (m', lost)
      → (ops : List Op) × (lookup matches steps k key ≡ ok (ops, false))
  unfolding migrate migrate_from
  down_not_breaking m m' e to lost k v a b h =
      let run : migrate_from matches steps key e m to ≡ ok (m', lost) = rw v at h in
      let d : stamped matches steps key to (descend matches steps key (e - to) e m false)
          ≡ ok (m', lost) =
        rw (above_eqb e to (omega arith), above_ltb e to (omega arith)) at run in
      let s = stamped-run to (descend matches steps key (e - to) e m false) m' lost d in
      descended (e - to) e m s.0 false s.1 (omega arith) s.2 k (omega arith) b
