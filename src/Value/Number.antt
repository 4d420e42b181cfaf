-- ===== src/Value/Number.antt =====
-- Go's float64 and its conversions, for the finite values that JSON decodes to: each is an integer
-- over a power of two, so comparisons and truncation are exact.
use prappser_spaces.Base.{
  ℕ, zero, suc, ◌+◌, ◌-◌, ◌*◌, ◌/◌, ◌%◌, ◌^◌, Bool, ◌&&◌, ◌||◌, ltb, eqb, if◌then◌else◌,
}
use prappser_spaces.Base.Int.{ℤ, pos, negsuc, pos_part, neg_part, ltb_ℤ}

-- num / 2 ^ scale
pub record Float : Type 0 where
  pub num : ℤ
  pub scale : ℕ

-- Division of an integer by a positive number, towards zero.
abbrev pub quot : ℤ → ℕ → ℤ
quot (pos n) d = pos (n / d)
quot (negsuc n) d = if ltb n (d - 1) then pos 0 else negsuc (suc n / d - 1)

-- int(f), within the range of int64.
unfoldable pub truncate : Float → ℤ
truncate f = quot f.num (2 ^ f.scale)

abbrev pub is_negative : Float → Bool
is_negative f = ltb_ℤ f.num (pos 0)

abbrev pub is_positive : Float → Bool
is_positive f = ltb_ℤ (pos 0) f.num

-- f == math.Trunc(f)
unfoldable pub is_integral : Float → Bool
is_integral f = eqb ((pos_part f.num + neg_part f.num) % 2 ^ f.scale) 0

-- The rounding of float64(n): to 53 bits, ties to even. An int64 has at most 11 bits too many.
abbrev round_at : ℕ → ℕ → ℕ
round_at n e =
    let q = n / 2 ^ e in
    let r = n % 2 ^ e in
    (if ltb (2 * r) (2 ^ e) || (eqb (2 * r) (2 ^ e) && eqb (q % 2) 0) then q else q + 1) * 2 ^ e

round53 : ℕ → ℕ → ℕ → ℕ
round53 zero e n = round_at n e
round53 (suc fuel) e n =
    let rest = round53 fuel (suc e) n in if ltb (n / 2 ^ e) (2 ^ 53) then round_at n e else rest

-- float64(n)
unfoldable pub from_int : ℤ → Float
unfolding round53
from_int (pos n) = record { num = pos (round53 11 0 n); scale = 0 }
from_int (negsuc n) = record { num = negsuc (round53 11 0 (suc n) - 1); scale = 0 }
