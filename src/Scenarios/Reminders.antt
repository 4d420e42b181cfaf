-- ===== src/Scenarios/Reminders.antt =====
-- Runs of the parser of reminder offsets (internal/reminder/recurrence.go).
use prappser_spaces.Base.{ℕ, ◌*◌, ◌≡◌, refl, true, some, List, [], ◌∷◌, arith}
use prappser_spaces.Base.Int.{negsuc}
use prappser_spaces.Result.{ok}
use prappser_spaces.Event.Validator.Offset.{is_valid_offset_spec, match_unit, span_digits}
use prappser_spaces.Reminder.{
  Match, find_offset, parse_offset_duration, group, atoi, magnitude, second,
}
use prappser_spaces.Reminder.Offsets.{is_ok, valid_iff_parsed}
use prappser_spaces.Reminder.Durations.{total_seconds, with_sign, parse_exact}

-- -PT1H30M
abbrev early : List ℕ
early = b'-' ∷ b'P' ∷ b'T' ∷ b'1' ∷ b'H' ∷ b'3' ∷ b'0' ∷ b'M' ∷ []

abbrev early_match : Match
early_match = record {
  negative = true;
  hours = b'1' ∷ [];
  minutes = b'3' ∷ b'0' ∷ [];
  seconds = [];
  days = [];
}

valid_iff_parsed_example : is_valid_offset_spec early ≡ is_ok (parse_offset_duration early)
valid_iff_parsed_example = valid_iff_parsed early

early_run : find_offset early ≡ some early_match
unfolding find_offset group match_unit span_digits
early_run = refl

early_seconds : total_seconds early_match ≡ 5400
unfolding total_seconds atoi
early_seconds = refl

parse_exact_example :
    parse_offset_duration early ≡ ok (with_sign true (total_seconds early_match * second))
parse_exact_example = parse_exact early early_match early_run refl (omega (arith, early_seconds))

-- P106752D: the duration of a valid offset, of 292 years, overflows to one into the past.
overflow_run :
    parse_offset_duration (b'P' ∷ b'1' ∷ b'0' ∷ b'6' ∷ b'7' ∷ b'5' ∷ b'2' ∷ b'D' ∷ [])
    ≡ ok (negsuc 9223371273709551615)
unfolding parse_offset_duration find_offset group match_unit span_digits magnitude atoi
overflow_run = refl
