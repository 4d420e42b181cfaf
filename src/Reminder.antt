-- ===== src/Reminder.antt =====
-- The offsets of reminders (ParseOffsetDuration in internal/reminder/recurrence.go). Its pattern,
-- `^(-)?P(?:T(?:(\d+)H)?(?:(\d+)M)?(?:(\d+)S)?|(\d+)D)$`, captures the digits without their unit.
-- Texts are lists of code points.
pub mod Offsets
pub mod Durations
use prappser_spaces.Base.{
  ℕ, zero, suc, ◌+◌, ◌-◌, ◌*◌, ◌≡◌, Bool, true, false, not, ◌&&◌, ◌||◌, Option, none, some, List,
  [], ◌∷◌, eqb, ltb, if◌then◌else◌,
}
use prappser_spaces.Base.Int.{ℤ, pos, negsuc, ◌+ℤ◌, ◌-ℤ◌, wrap64, half64}
use prappser_spaces.Result.{Result, ok, err}
use prappser_spaces.Event.Validator.Offset.{is_empty, match_unit}

-- `(?:(\d+)U)?`: the digits, none where nothing matches, and the rest.
digits_group : Option (List ℕ × List ℕ) → List ℕ → List ℕ × List ℕ
digits_group none s = ([], s)
digits_group (some (ds, rest)) s = (ds, rest)

unfoldable pub group : ℕ → List ℕ → List ℕ × List ℕ
unfolding digits_group
group u s = digits_group (match_unit u s) s

-- The groups of a match: whether there is a sign, and 2 to 5.
pub record Match : Type 0 where
  pub negative : Bool
  pub hours : List ℕ
  pub minutes : List ℕ
  pub seconds : List ℕ
  pub days : List ℕ

ends : Bool → List ℕ → List ℕ → List ℕ → List ℕ → Option Match
ends neg h m s [] = some (record { negative = neg; hours = h; minutes = m; seconds = s; days = [] })
ends neg h m s (_ ∷ _) = none

time_part : Bool → List ℕ → Option Match
unfolding group ends
time_part neg s =
    let (h, s₁) = group b'H' s in
    let (m, s₂) = group b'M' s₁ in let (sec, s₃) = group b'S' s₂ in ends neg h m sec s₃

days_end : Bool → Option (List ℕ × List ℕ) → Option Match
days_end neg none = none
days_end neg (some (ds, [])) =
    some (record { negative = neg; hours = []; minutes = []; seconds = []; days = ds })
days_end neg (some (ds, _ ∷ _)) = none

period : Bool → List ℕ → Option Match
unfolding time_part days_end
period neg [] = none
period neg (c ∷ s) = if eqb c b'T' then time_part neg s else days_end neg (match_unit b'D' (c ∷ s))

after_sign : Bool → List ℕ → Option Match
unfolding period
after_sign neg [] = none
after_sign neg (c ∷ s) = if eqb c b'P' then period neg s else none

-- offsetPattern.FindStringSubmatch
unfoldable pub find_offset : List ℕ → Option Match
unfolding after_sign
find_offset [] = none
find_offset (c ∷ s) = if eqb c b'-' then after_sign true s else after_sign false (c ∷ s)

-- The value of a run of digits.
abbrev pub value_from : ℕ → List ℕ → ℕ
value_from n [] = n
value_from n (d ∷ ds) = value_from (10 * n + (d - b'0')) ds

-- strconv.Atoi, its error ignored: too large a number is the largest int.
unfoldable pub atoi : List ℕ → ℕ
atoi ds = let n = value_from 0 ds in if ltb n half64 then n else half64 - 1

-- The product of two int64, the second one positive.
abbrev pub times : ℤ → ℕ → ℤ
times (pos n) k = wrap64 (pos (n * k))
times (negsuc n) k = wrap64 (negsuc (suc n * k - 1))

abbrev pub second : ℕ
second = 1_000_000_000

-- The part `if m[i] != "" { … d += time.Duration(n) * unit }`.
add_part : List ℕ → ℕ → ℤ → ℤ
add_part [] unit d = d
add_part (c ∷ ds) unit d = wrap64 (d +ℤ times (pos (atoi (c ∷ ds))) unit)

-- The switch: the duration without its sign, if a part is there.
unfoldable pub magnitude : Match → Option ℤ
unfolding add_part
magnitude m =
    if not (is_empty m.days)
    then some (times (times (pos (atoi m.days)) 24) (3600 * second))
    else if not (is_empty m.hours) || not (is_empty m.minutes) || not (is_empty m.seconds)
    then some (
        add_part m.seconds second
          (add_part m.minutes (60 * second) (add_part m.hours (3600 * second) (pos 0))))
    else none

signed : Bool → Option ℤ → Result ℤ
signed neg none = err []
signed neg (some d) = ok (if neg then wrap64 (pos 0 -ℤ d) else d)

duration_of : Option Match → Result ℤ
unfolding signed
duration_of none = err []
duration_of (some m) = signed m.negative (magnitude m)

-- ParseOffsetDuration, in nanoseconds.
unfoldable pub parse_offset_duration : List ℕ → Result ℤ
unfolding duration_of
parse_offset_duration spec = duration_of (find_offset spec)
