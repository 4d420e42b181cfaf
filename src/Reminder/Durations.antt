-- ===== src/Reminder/Durations.antt =====
-- The duration that an offset stands for, as long as it fits an int64 of nanoseconds.
use prappser_spaces.Base.{
  ℕ, ◌+◌, ◌*◌, ◌<◌, ◌≡◌, refl, sym, ◌∙◌, inl, inr, Bool, true, false, ap, not, ◌||◌, some, List, [],
  ◌∷◌, arith, Bool-cases, if◌then◌else◌,
}
use prappser_spaces.Base.Int.{ℤ, pos, ◌+ℤ◌, ◌-ℤ◌, wrap64_exact, half64}
use prappser_spaces.Result.{ok}
use prappser_spaces.Event.Validator.Offset.{is_empty}
use prappser_spaces.Reminder.{
  Match, find_offset, atoi, add_part, magnitude, signed, duration_of, parse_offset_duration, second,
  times,
}
use prappser_spaces.Reminder.Offsets.{has_part}

-- The seconds of a match: those of the days, or those of the hours, minutes and seconds.
unfoldable pub total_seconds : Match → ℕ
total_seconds m =
    if is_empty m.days
    then atoi m.hours * 3600 + (atoi m.minutes * 60 + atoi m.seconds)
    else atoi m.days * 86400

abbrev pub with_sign : Bool → ℕ → ℤ
with_sign neg n = if neg then pos 0 -ℤ pos n else pos n

times_exact : (n k : ℕ) → n * k < half64 → times (pos n) k ≡ pos (n * k)
times_exact n k h = wrap64_exact (pos (n * k)) (h, omega arith)

sum_pos : (a b : ℕ) → pos a +ℤ pos b ≡ pos (a + b)
sum_pos a b = ground arith

atoi_none : atoi [] ≡ 0
unfolding atoi
atoi_none = refl

add_part_exact :
    (ds : List ℕ) (unit d : ℕ)
    → d + atoi ds * unit < half64
    → add_part ds unit (pos d) ≡ pos (d + atoi ds * unit)
unfolding add_part
add_part_exact [] unit d h = sym (ap (λ z. pos (d + z * unit)) atoi_none ∙ ap pos (omega arith))
add_part_exact (c ∷ ds) unit d h =
    rw (times_exact (atoi (c ∷ ds)) unit (omega arith), sum_pos d (atoi (c ∷ ds) * unit))
      (wrap64_exact (pos (d + atoi (c ∷ ds) * unit)) (h, omega arith))

magnitude_exact :
    (m : Match)
    → has_part (some m) ≡ true
    → total_seconds m * second < half64
    → magnitude m ≡ some (pos (total_seconds m * second))
unfolding magnitude total_seconds
magnitude_exact m p h = elim (Bool-cases (is_empty m.days)) [
  | inr f ↦
      let small : atoi m.days * 86400 * second < half64 = rw f at h in
      rw
        (
          f,
          times_exact (atoi m.days) 24 (omega arith),
          times_exact (atoi m.days * 24) (3600 * second) (omega arith),
        )
        (ap (λ z. some (pos z)) (omega arith))
  | inl t ↦
      let small : (atoi m.hours * 3600 + (atoi m.minutes * 60 + atoi m.seconds)) * second < half64 =
        rw t at h in
      let present : (not (is_empty m.hours) || not (is_empty m.minutes) || not (is_empty m.seconds))
          ≡ true =
        rw t at p in
      rw
        (
          t,
          present,
          add_part_exact m.hours (3600 * second) 0 (omega arith),
          add_part_exact m.minutes (60 * second) (0 + atoi m.hours * (3600 * second)) (omega arith),
          add_part_exact m.seconds second
              (0 + atoi m.hours * (3600 * second) + atoi m.minutes * (60 * second)) (omega arith),
        )
        (ap (λ z. some (pos z)) (omega arith))
]

signed_exact : (neg : Bool) (n : ℕ) → n < half64 → signed neg (some (pos n)) ≡ ok (with_sign neg n)
unfolding signed
signed_exact false n h = refl
signed_exact true n h = ap ok (wrap64_exact (pos 0 -ℤ pos n) (ground arith))

-- An offset of less than 2 ^ 63 nanoseconds, that has a component, is parsed to its signed duration
-- exactly: the seconds of its parts together, in nanoseconds.
pub parse_exact :
    (spec : List ℕ) (m : Match)
    → find_offset spec ≡ some m
    → has_part (some m) ≡ true
    → total_seconds m * second < half64
    → parse_offset_duration spec ≡ ok (with_sign m.negative (total_seconds m * second))
unfolding parse_offset_duration duration_of
parse_exact spec m f p h =
    rw (f, magnitude_exact m p h) (signed_exact m.negative (total_seconds m * second) (omega arith))
