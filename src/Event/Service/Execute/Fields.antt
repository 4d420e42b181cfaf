-- ===== src/Event/Service/Execute/Fields.antt =====
-- Safe reads of event data (the helper functions of internal/event/event_service.go).
use prappser_spaces.Base.{String, Option, none, some, List, [], ◌∷◌, ◌==◌, if◌then◌else◌}
use prappser_spaces.Base.Int.{ℤ, pos}
use prappser_spaces.Value.{
  Value, Fields, Items, nil, float64, int64, strs, arr, empty, field, end, item, read, write,
  as_string, as_fields,
}
use prappser_spaces.Value.Number.{Float, truncate}
use prappser_spaces.Result.{Result, ok, err}
use prappser_spaces.Event.Validator.Checks.{number_value, or_empty}

-- data[key] of a map that may be nil
abbrev pub value_at : String → Option Fields → Value
value_at key none = nil
value_at key (some m) = read key m

unfoldable pub get_string : String → Fields → String
get_string key m = or_empty (as_string (read key m))

abbrev pub int_of : Option Float → ℤ
int_of none = pos 0
int_of (some f) = truncate f

unfoldable pub get_int : String → Fields → ℤ
get_int key m = int_of (number_value (read key m))

int64_of : Value → Option ℤ
int64_of (int64 n) = some n
int64_of (float64 f) = some (truncate f)
int64_of _ = none

unfoldable pub get_int64_ptr : String → Option Fields → Option ℤ
unfolding int64_of
get_int64_ptr key body = int64_of (value_at key body)

-- `v, ok := x.(string); !ok || v == ""` is an error.
unfoldable pub nonempty : Option String → Result String
nonempty none = err []
nonempty (some s) = if s == "" then err [] else ok s

text_items : Items → List String
text_items end = []
text_items (item v l) =
    let rest = text_items l in let s = or_empty (as_string v) in if s == "" then rest else s ∷ rest

recipients_of : Value → List String
unfolding text_items
recipients_of (strs l) = l
recipients_of (arr l) = text_items l
recipients_of _ = []

unfoldable pub extract_recipients : Option Fields → List String
unfolding recipients_of
extract_recipients body = recipients_of (value_at "recipients" body)

-- component.Data[name] = change["newValue"], for a change that is an object
write_change : String → Option Fields → Fields → Fields
write_change name none m = m
write_change name (some change) m = write name (read "newValue" change) m

-- The loop over changedFields.
unfoldable pub apply_delta : Fields → Fields → Fields
unfolding write_change
apply_delta empty m = m
apply_delta (field name v changes) m = apply_delta changes (write_change name (as_fields v) m)
