-- ===== src/Event/Staleness/Laws.antt =====
-- What the staleness gate lets pass.
use prappser_spaces.Base.{
  ap, ◌⊎◌, inl, inr, Bool-cases, ℕ, suc, ◌+◌, ◌≤◌, ◌<◌, ◌≡◌, refl, ◌↔◌, true, false, arith,
  if◌then◌else◌, [], ◌∷◌,
}
use prappser_spaces.Base.Int.{
  ℤ, pos, negsuc, ◌-ℤ◌, ◌≤ℤ◌, ltb_ℤ, eqb_ℤ, wrap64, wrap64_exact, half64, mod64, IsInt64,
}
use prappser_spaces.Result.{Result, ok, err, stale}
use prappser_spaces.Event.{EventType}
use prappser_spaces.Event.Staleness.{
  is_destructive, window_seconds, normalize_minted_at, check_event_staleness,
}

zero_mint : (m : ℤ) → eqb_ℤ m (pos 0) ≡ true → m ≡ pos 0
zero_mint (pos n) h = ground arith
zero_mint (negsuc n) h = absurd (ground arith)

abbrev gate : ℤ → Result (Unit {0})
gate age = if ltb_ℤ (pos window_seconds) age then err (stale ∷ []) else ok tt

within : (age : ℤ) → gate age ≡ ok tt → age ≤ℤ pos window_seconds
within (pos n) h = ground arith
within (negsuc n) h = omega arith

passes : (age : ℤ) → age ≤ℤ pos window_seconds → gate age ≡ ok tt
passes (pos n) h = ground arith
passes (negsuc n) h = ground arith

minted_within : {P : Type 0} (m : ℤ) → eqb_ℤ m (pos 0) ≡ false → (m ≡ pos 0) ⊎ P → P
minted_within m n (inl e) = absurd (ground (arith, ap (λ z. eqb_ℤ z (pos 0)) e))
minted_within m n (inr p) = p

-- Where the age does not overflow an int64, a destructive event passes if and only if it has no mint
-- time or is at most 30 days old: one that was minted after the space's own time passes.
pub staleness_exact :
    (type : EventType) (minted now : ℤ)
    → is_destructive type ≡ true
    → IsInt64 (now -ℤ normalize_minted_at minted)
    → (check_event_staleness type minted now ≡ ok tt)
      ↔ ((minted ≡ pos 0) ⊎ ((now -ℤ normalize_minted_at minted) ≤ℤ pos window_seconds))
unfolding check_event_staleness
staleness_exact type minted now d i =
    let exact = wrap64_exact (now -ℤ normalize_minted_at minted) i in
    elim (Bool-cases (eqb_ℤ minted (pos 0))) [
      | inl t ↦ ((λ _. inl (zero_mint minted t)), λ _. rw t refl)
      | inr n ↦ (
        (λ h. inr (within (now -ℤ normalize_minted_at minted) (rw (n, d, exact) at h))),
        λ h.
            rw (n, d, exact)
              (passes (now -ℤ normalize_minted_at minted) (minted_within minted n h)),
      )
    ]

wrapped_age : (a : ℕ) → half64 ≤ a → a < mod64 → ltb_ℤ (pos window_seconds) (wrap64 (pos a)) ≡ false
wrapped_age a h k = ground arith

age_of : (now n : ℕ) → pos now -ℤ negsuc n ≡ pos (now + suc n)
age_of now n = ground arith

has_mint : (n : ℕ) → eqb_ℤ (negsuc n) (pos 0) ≡ false
has_mint n = ground arith

minted_before : (n : ℕ) → normalize_minted_at (negsuc n) ≡ negsuc n
unfolding normalize_minted_at
minted_before n = ground arith

-- Yet a mint time far enough in the past passes as well: where the age is 2 ^ 63 seconds or more,
-- for any int64 that is a mint time, it is negative as an int64.
pub ancient_accepted :
    (type : EventType) (n now : ℕ)
    → is_destructive type ≡ true
    → IsInt64 (negsuc n)
    → now < half64
    → half64 ≤ now + suc n
    → check_event_staleness type (negsuc n) (pos now) ≡ ok tt
unfolding check_event_staleness
ancient_accepted type n now d i h o =
    rw
      (
        d,
        has_mint n,
        minted_before n,
        age_of now n,
        wrapped_age (now + suc n) o (omega (arith, i.1)),
      )
      refl
