-- ===== src/Value.antt =====
-- The dynamic values of Go's `interface{}` that event data holds, and their type assertions
-- (internal/event/event_service.go, internal/event/event_validator.go).
pub mod Number
use prappser_spaces.Base.{
  ℕ, String, ◌≡◌, Bool, true, false, not, Option, none, some, List, [], ◌∷◌, ◌==◌, if◌then◌else◌,
}
use prappser_spaces.Base.Int.{ℤ}
use Number.{Float}

mutual
  -- `strs` is a []string, which only code that builds a map by hand makes.
  pub data Value : Type 0 where
    nil : Value
    bool : Bool → Value
    str : String → Value
    float64 : Float → Value
    int64 : ℤ → Value
    int : ℤ → Value
    strs : List String → Value
    arr : Items → Value
    obj : Fields → Value

  pub data Items : Type 0 where
    end : Items
    item : Value → Items → Items

  -- A map[string]interface{}: the first entry for a key counts.
  pub data Fields : Type 0 where
    empty : Fields
    field : String → Value → Fields → Fields

-- m[key], where a missing key reads as nil.
unfoldable pub read : String → Fields → Value
read key empty = nil
read key (field k v m) = if k == key then v else read key m

-- v.(string)
unfoldable pub as_string : Value → Option String
as_string (str s) = some s
as_string _ = none

-- v.(map[string]interface{})
unfoldable pub as_fields : Value → Option Fields
as_fields (obj m) = some m
as_fields _ = none

-- v.([]interface{})
unfoldable pub as_items : Value → Option Items
as_items (arr l) = some l
as_items _ = none

-- m[key] = v
unfoldable pub write : String → Value → Fields → Fields
write key v empty = field key v empty
write key v (field k w m) =
    let rest = write key v m in if k == key then field k v m else field k w rest
