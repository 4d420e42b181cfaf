-- ===== src/Lens/Paths.antt =====
-- Paths into the entries of a component (internal/component/lens/lens.go).
pub mod Laws
use Prim.Native.Char.{code}
use Prim.Native.String.{◌++◌}
use prappser_spaces.Base.{
  ℕ, String, Bool, true, false, not, ◌&&◌, ◌||◌, Option, none, some, List, [], ◌∷◌, ◌==◌, eqb, leb,
  if◌then◌else◌,
}
use prappser_spaces.Lens.{Json, text, object, Entries, empty}
use prappser_spaces.Lens.Values.{member, set_member, delete_member, size}

-- The letters of a name: '_', 'a' to 'z' and 'A' to 'Z'.
abbrev is_letter : ℕ → Bool
is_letter c = eqb c 95 || (leb 97 c && leb c 122) || (leb 65 c && leb c 90)

abbrev is_digit : ℕ → Bool
is_digit c = leb 48 c && leb c 57

rest_valid : String → Bool
rest_valid String.[] = true
rest_valid (String.◌∷◌ c s) = (is_letter (code c) || is_digit (code c)) && rest_valid s

-- validName
unfoldable pub valid_name : String → Bool
unfolding rest_valid
valid_name String.[] = false
valid_name (String.◌∷◌ c s) = is_letter (code c) && rest_valid s

-- The names between the dots.
abbrev with_first : String → List String → List String
with_first c [] = c ∷ []
with_first c (name ∷ names) = (c ++ name) ∷ names

unfoldable pub dotted_names : String → List String
dotted_names String.[] = "" ∷ []
dotted_names (String.◌∷◌ c s) =
    let rest = dotted_names s in
    if eqb (code c) 46 then "" ∷ rest else with_first (String.◌∷◌ c String.[]) rest

abbrev all_valid : List String → Bool
all_valid [] = true
all_valid (n ∷ ns) = valid_name n && all_valid ns

abbrev starts_at_version : List String → Bool
starts_at_version [] = false
starts_at_version (n ∷ ns) = n == "v"

-- parsePath
unfoldable pub parse_path : Json → Option (List String)
parse_path (text s) =
    let names = dotted_names s in
    if not (s == "") && all_valid names && not (starts_at_version names) then some names else none
parse_path _ = none

-- isPrefix: one of the paths begins with the other.
unfoldable pub is_prefix : List String → List String → Bool
is_prefix [] b = true
is_prefix (x ∷ a) [] = true
is_prefix (x ∷ a) (y ∷ b) = x == y && is_prefix a b

-- getPath
unfoldable pub get_path : List String → Json → Option Json
get_path [] v = some v
get_path (k ∷ ks) (object m) = elim (member k m) [ none ↦ none | some v ↦ get_path ks v ]
get_path (k ∷ ks) _ = none

-- The map that a value is, if it is one.
abbrev pub as_object : Option Json → Option Entries
as_object (some (object m)) = some m
as_object _ = none

-- removePath, on the path k ∷ ks: none where there is nothing to remove. A map that becomes empty
-- is removed as well where `prune` holds.
abbrev put_back : Bool → String → Entries → Entries → Entries
put_back prune k sub m =
    if prune && eqb (size sub) 0 then delete_member k m else set_member k (object sub) m

unfoldable pub remove_at : Bool → String → List String → Entries → Option Entries
remove_at prune k [] m = elim (member k m) [ none ↦ none | some v ↦ some (delete_member k m) ]
remove_at prune k (j ∷ ks) m = elim (as_object (member k m)) [
  | none ↦ none
  | some sub ↦ elim (remove_at prune j ks sub) [
    | none ↦ none
    | some sub' ↦ some (put_back prune k sub' m)
  ]
]

unfoldable pub remove_path : Bool → List String → Entries → Entries
remove_path prune [] m = m
remove_path prune (k ∷ ks) m = elim (remove_at prune k ks m) [ none ↦ m | some m' ↦ m' ]

-- canSet
unfoldable pub can_set : List String → Entries → Bool
can_set [] m = true
can_set (k ∷ []) m = true
can_set (k ∷ j ∷ ks) m = elim (member k m) [
  | none ↦ true
  | some v ↦ elim (as_object (some v)) [ none ↦ false | some sub ↦ can_set (j ∷ ks) sub ]
]

-- setPath, on the path k ∷ ks: what is no map on the way is replaced by one.
abbrev pub or_empty_map : Option Entries → Entries
or_empty_map none = empty
or_empty_map (some m) = m

unfoldable pub set_at : String → List String → Json → Entries → Entries
set_at k [] v m = set_member k v m
set_at k (j ∷ ks) v m =
    set_member k (object (set_at j ks v (or_empty_map (as_object (member k m))))) m

unfoldable pub set_path : List String → Json → Entries → Entries
set_path [] v m = m
set_path (k ∷ ks) v m = set_at k ks v m
