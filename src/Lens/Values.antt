-- ===== src/Lens/Values.antt =====
-- Equality of values and reads and writes of maps (internal/component/lens/json.go).
pub mod Laws
use prappser_spaces.Base.{
  ℕ, zero, suc, ◌+◌, ◌-◌, ◌*◌, ◌/◌, ◌%◌, ◌^◌, String, Bool, true, false, not, ◌&&◌, Option, none,
  some, List, [], ◌∷◌, ◌==◌, eqb, if◌then◌else◌,
}
use prappser_spaces.Base.Int.{ℤ, pos, negsuc, eqb_ℤ, pos_part, neg_part}
use prappser_spaces.Lens.{
  Number, rational, huge, Json, null, boolean, text, number, list, object, Items, end, item,
  Entries, empty, entry,
}

abbrev pub max_safe : ℤ
max_safe = pos 9007199254740991

-- n * 10 ^ s
abbrev pub scaled : ℤ → ℕ → ℤ
scaled (pos n) s = pos (n * 10 ^ s)
scaled (negsuc n) s = negsuc (suc n * 10 ^ s - 1)

-- Of rationals by value, of the others by text; `toRat` makes no rational of a huge number.
unfoldable pub equal_number : Number → Number → Bool
equal_number (rational n s) (rational m t) = eqb_ℤ (scaled n t) (scaled m s)
equal_number (huge a) (huge b) = a == b
equal_number (rational n s) (huge b) = false
equal_number (huge a) (rational m t) = false

abbrev whole_part : ℤ → ℕ → ℤ
whole_part (pos n) d = pos (n / d)
whole_part (negsuc n) d = negsuc (suc n / d - 1)

-- intVal
unfoldable pub int_val : Json → Option ℤ
int_val (number (rational n s)) =
    if eqb ((pos_part n + neg_part n) % 10 ^ s) 0 then some (whole_part n (10 ^ s)) else none
int_val _ = none

-- m[key]
unfoldable pub member : String → Entries → Option Json
member k empty = none
member k (entry j v m) = if j == k then some v else member k m

-- m[key] = v
unfoldable pub set_member : String → Json → Entries → Entries
set_member k v empty = entry k v empty
set_member k v (entry j w m) =
    let rest = set_member k v m in if j == k then entry j v m else entry j w rest

-- delete(m, key)
unfoldable pub delete_member : String → Entries → Entries
delete_member k empty = empty
delete_member k (entry j w m) =
    let rest = delete_member k m in if j == k then rest else entry j w rest

-- len(m)
abbrev pub size : Entries → ℕ
size empty = 0
size (entry k v m) = suc (size m)

abbrev pub items_length : Items → ℕ
items_length end = 0
items_length (item v l) = suc (items_length l)

unfoldable mutual
  pub equal : Json → Json → Bool
  equal null null = true
  equal (boolean a) (boolean b) = if a then b else not b
  equal (text a) (text b) = a == b
  equal (number a) (number b) = equal_number a b
  equal (list a) (list b) = eqb (items_length a) (items_length b) && equal_items a b
  equal (object a) (object b) = eqb (size a) (size b) && equal_entries a b
  equal _ _ = false

  pub equal_items : Items → Items → Bool
  equal_items end _ = true
  equal_items (item v l) end = false
  equal_items (item v l) (item w k) = equal v w && equal_items l k

  -- Every entry of the first map is in the second.
  pub equal_entries : Entries → Entries → Bool
  equal_entries empty b = true
  equal_entries (entry k v m) b = elim (member k b) [
    | none ↦ false
    | some w ↦ equal v w && equal_entries m b
  ]

unfoldable pub is_scalar : Json → Bool
is_scalar (list _) = false
is_scalar (object _) = false
is_scalar _ = true
