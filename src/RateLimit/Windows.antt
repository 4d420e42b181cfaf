-- ===== src/RateLimit/Windows.antt =====
-- How many requests of a key pass within a window.
use prappser_spaces.Base.{
  ℕ, suc, ◌-◌, max, min, String, ◌≡◌, ◌∙◌, inl, inr, Bool, true, false, ap, none, some, List, [],
  ◌∷◌, arith, Bool-cases, length, leb, if◌then◌else◌,
}
use prappser_spaces.Base.Int.{ℤ, pos, ◌+ℤ◌, ◌-ℤ◌, leb_ℤ}
use prappser_spaces.RateLimit.{Limiter, is_expired}
use prappser_spaces.RateLimit.Keys.{
  Request, run, answers_of, times_of, run_alone, allow_alone, InOrder, keys_are_independent,
}

abbrev pub count_true : List Bool → ℕ
count_true [] = 0
count_true (b ∷ l) = let rest = count_true l in if b then suc rest else rest

abbrev pub Within : ℤ → ℤ → List ℤ → Type 0
Within window start [] = Unit
Within window start (t ∷ ts) = (leb_ℤ window (t -ℤ start) ≡ false) × Within window start ts

counted :
    (l : Limiter) (n c : ℕ) (start : ℤ) (ts : List ℤ)
    → l.limit ≡ pos n
    → Within l.window start ts
    → count_true (run_alone l ts (some (record { count = pos c; window_start = start })))
      ≡ min (length ts) (n - c)
unfolding run_alone allow_alone is_expired
counted l n c start [] q h = ground arith
counted l n c start (t ∷ ts) q h = elim (Bool-cases (leb n c)) [
  | inl full ↦
      let rest = counted l n c start ts q h.1 in
      rw (h.0, q, full_test n c full) (ground (arith, rest, full))
  | inr free ↦
      let rest = counted l n (suc c) start ts q h.1 in
      rw (h.0, q, free_test n c free, next_count c) (ground (arith, rest, free))
]
  where
    full_test : (n c : ℕ) → leb n c ≡ true → leb_ℤ (pos n) (pos c) ≡ true
    full_test n c h = ground arith

    free_test : (n c : ℕ) → leb n c ≡ false → leb_ℤ (pos n) (pos c) ≡ false
    free_test n c h = ground arith

    next_count : (c : ℕ) → pos c +ℤ pos 1 ≡ pos (suc c)
    next_count c = ground arith

-- Where the clock does not go back, of the requests of a key from its first on, as long as they lie
-- within the window that the first opens, exactly as many pass as the limit allows, at min one:
-- all of them if there are no more.
pub window_exact :
    (l : Limiter) (n : ℕ) (key : String) (rs : List Request) (start first : ℤ) (ts : List ℤ)
    → InOrder start rs
    → l.limit ≡ pos n
    → times_of key rs ≡ first ∷ ts
    → Within l.window first ts
    → count_true (answers_of key (run l rs (λ _. none))) ≡ min (suc (length ts)) (max 1 n)
unfolding run_alone allow_alone
window_exact l n key rs start first ts h q own w =
    let alone = keys_are_independent l key rs start h ∙ ap (λ z. run_alone l z none) own in
    ap count_true alone ∙ (ap suc (counted l n 1 first ts q w) ∙ arithmetic n (length ts))
  where
    arithmetic : (n k : ℕ) → suc (min k (n - 1)) ≡ min (suc k) (max 1 n)
    arithmetic n k = ground arith
