-- ===== src/Event/Validator/Checks.antt =====
-- The checks of single fields (internal/event/event_validator.go).
mod Text
use prappser_spaces.Base.{
  ℕ, String, ◌≡◌, refl, Bool, true, false, not, ◌&&◌, ◌||◌, Option, none, some, List, [], ◌∷◌, ◌==◌,
  leb, if◌then◌else◌,
}
use prappser_spaces.Base.Int.{ℤ, pos, ltb_ℤ, leb_ℤ}
use prappser_spaces.Value.{
  Value, Fields, nil, bool, str, float64, int64, int, strs, arr, obj, read, as_string,
}
use prappser_spaces.Value.Number.{Float, from_int, is_negative, is_positive, is_integral}
use prappser_spaces.Result.{Result, ok, err, ◌>>=◌, ◌>>◌, guard, Error, validation}
pub use Text.{codes}

abbrev pub invalid : Error
invalid = validation ∷ []

-- The string of an assertion `v, _ := x.(string)`: empty where it fails.
abbrev pub or_empty : Option String → String
or_empty none = ""
or_empty (some s) = s

-- `v, ok := data[key].(string); !ok || v == ""` is an error.
unfoldable pub required : String → Fields → Result (Unit {0})
required key m = guard (not (or_empty (as_string (read key m)) == "")) invalid

-- numberValue
unfoldable pub number_value : Value → Option Float
number_value (float64 f) = some f
number_value (int64 n) = some (from_int n)
number_value (int n) = some (from_int n)
number_value _ = none

-- `n, ok := numberValue(v); !ok || n < 0` is an error.
unfoldable pub nonnegative : Option Float → Bool
nonnegative none = false
nonnegative (some f) = not (is_negative f)

-- `n, ok := numberValue(v); !ok || n <= 0` is an error.
unfoldable pub positive : Option Float → Bool
positive none = false
positive (some f) = is_positive f

unfoldable pub integral : Option Float → Bool
integral none = false
integral (some f) = is_integral f

-- `sizeBytes` is an int64 or a float64.
unfoldable pub is_size : Value → Bool
is_size (int64 _) = true
is_size (float64 _) = true
is_size _ = false

unfoldable pub is_object : Value → Bool
is_object (obj _) = true
is_object _ = false

-- What the checks ask of the platform: whether time.LoadLocation knows a name, and the length of
-- json.Marshal of an object, or none where it fails.
pub record Platform : Type 0 where
  pub knows_tz : String → Bool
  pub json_size : Fields → Option ℕ
