-- ===== src/Event/Validator/Offset.antt =====
-- The pattern of a reminder offset, `^(-)?P(?:T(\d+H)?(\d+M)?(\d+S)?|(\d+)D)$`, as the matcher of
-- internal/event/event_validator.go. A run of digits is maximal, since no digit can follow it in
-- the pattern, so the match needs no backtracking. Texts are lists of code points.
use prappser_spaces.Base.{
  ℕ, Bool, true, false, not, ◌&&◌, ◌||◌, Option, none, some, List, [], ◌∷◌, ◌++◌, leb, eqb,
  if◌then◌else◌,
}

abbrev pub is_digit : ℕ → Bool
is_digit c = leb b'0' c && leb c b'9'

-- The longest run of digits at the front, and what follows it.
unfoldable pub span_digits : List ℕ → List ℕ × List ℕ
span_digits [] = ([], [])
span_digits (c ∷ s) =
    let (ds, rest) = span_digits s in if is_digit c then (c ∷ ds, rest) else ([], c ∷ s)

abbrev pub is_empty : List ℕ → Bool
is_empty [] = true
is_empty (_ ∷ _) = false

-- `\d+U` at the front, for a letter U: the digits, and the rest.
unfoldable pub unit_at : ℕ → List ℕ → List ℕ → Option (List ℕ × List ℕ)
unit_at u [] rest = none
unit_at u (d ∷ ds) [] = none
unit_at u (d ∷ ds) (c ∷ rest) = if eqb c u then some (d ∷ ds, rest) else none

unfoldable pub match_unit : ℕ → List ℕ → Option (List ℕ × List ℕ)
unfolding unit_at
match_unit u s = let (ds, rest) = span_digits s in unit_at u ds rest

-- The group `(\d+U)?`: the text that it takes, empty where it takes none, and the rest.
unfoldable pub optional_group : Option (List ℕ × List ℕ) → ℕ → List ℕ → List ℕ × List ℕ
optional_group none u s = ([], s)
optional_group (some (ds, rest)) u s = (ds ++ u ∷ [], rest)

unfoldable pub group_at : ℕ → List ℕ → List ℕ × List ℕ
unfolding optional_group
group_at u s = optional_group (match_unit u s) u s

-- The groups 2 to 5 of a match, the sign aside.
pub record Groups : Type 0 where
  pub hours : List ℕ
  pub minutes : List ℕ
  pub seconds : List ℕ
  pub days : List ℕ

unfoldable pub end_of_time : List ℕ → List ℕ → List ℕ → List ℕ → Option Groups
end_of_time h m s [] = some (record { hours = h; minutes = m; seconds = s; days = [] })
end_of_time h m s (_ ∷ _) = none

unfoldable pub match_time : List ℕ → Option Groups
unfolding group_at end_of_time
match_time s =
    let (h, s₁) = group_at b'H' s in
    let (m, s₂) = group_at b'M' s₁ in let (sec, s₃) = group_at b'S' s₂ in end_of_time h m sec s₃

unfoldable pub end_of_days : Option (List ℕ × List ℕ) → Option Groups
end_of_days none = none
end_of_days (some (ds, [])) = some (record { hours = []; minutes = []; seconds = []; days = ds })
end_of_days (some (ds, _ ∷ _)) = none

unfoldable pub match_days : List ℕ → Option Groups
unfolding end_of_days
match_days s = end_of_days (match_unit b'D' s)

unfoldable pub match_period : List ℕ → Option Groups
unfolding match_time match_days
match_period [] = none
match_period (c ∷ s) = if eqb c b'T' then match_time s else match_days (c ∷ s)

unfoldable pub match_sign : List ℕ → Option Groups
unfolding match_period
match_sign [] = none
match_sign (c ∷ s) = if eqb c b'P' then match_period s else none

-- offsetSpecPattern.FindStringSubmatch
unfoldable pub find_submatch : List ℕ → Option Groups
unfolding match_sign
find_submatch [] = none
find_submatch (c ∷ s) = if eqb c b'-' then match_sign s else match_sign (c ∷ s)

unfoldable pub has_component : Option Groups → Bool
has_component none = false
has_component (some g) =
    not (is_empty g.days)
    || not (is_empty g.hours)
    || not (is_empty g.minutes)
    || not (is_empty g.seconds)

unfoldable pub is_valid_offset_spec : List ℕ → Bool
unfolding find_submatch has_component
is_valid_offset_spec spec = has_component (find_submatch spec)
