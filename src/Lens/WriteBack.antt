-- ===== src/Lens/WriteBack.antt =====
-- What an edit at a reader's version writes back into an entry
-- (internal/component/lens/writeback.go).
pub mod Frame
use prappser_spaces.Base.{
  ℕ, String, Bool, true, false, not, ◌&&◌, ◌||◌, Option, none, some, List, [], ◌∷◌, ◌++◌, ◌==◌, ltb,
  eqb, if◌then◌else◌,
}
use prappser_spaces.Base.Int.{ℤ}
use prappser_spaces.Result.{Result, ok, err, ◌>>=◌, ◌>>◌, guard, read_only}
use prappser_spaces.Lens.{Json, null, object, Entries, empty, entry}
use prappser_spaces.Lens.Values.{member, set_member, delete_member, equal}
use prappser_spaces.Lens.Paths.{remove_path, set_path}
use prappser_spaces.Lens.Migrate.{check_arg, version, num, migrate}

-- State
pub data State : Type 0 where
  state_full state_read_only state_needs_update : State

-- `prefix == nil && k == "v"`
abbrev pub is_version_key : List String → String → Bool
is_version_key [] k = k == "v"
is_version_key (p ∷ ps) k = false

abbrev is_member : Option Json → Bool
is_member none = false
is_member (some v) = true

-- The loop over the second map: what the first has not is set.
unfoldable pub add_new : Entries → List String → Entries → Entries → Entries
add_new u prefix empty res = res
add_new u prefix (entry k b rest) res = add_new u prefix rest (
    if is_member (member k u) || is_version_key prefix k
    then res
    else set_path (prefix ++ (k ∷ [])) b res)

unfoldable mutual
  -- diffValue
  pub diff_value : Json → Json → List String → Entries → Entries
  diff_value (object a) (object b) p res =
      if equal (object a) (object b) then res else add_new a p b (diff_members a b p res)
  diff_value a b p res = if equal a b then res else set_path p b res

  -- The loop of diffApply over the first map.
  pub diff_members : Entries → Entries → List String → Entries → Entries
  diff_members empty u2 prefix res = res
  diff_members (entry k a rest) u2 prefix res = diff_members rest u2 prefix (
      if is_version_key prefix k then res else elim (member k u2) [
        | none ↦ remove_path false (prefix ++ (k ∷ [])) res
        | some b ↦ diff_value a b (prefix ++ (k ∷ [])) res
      ])

-- diffApply at the top
unfoldable pub diff_apply : Entries → Entries → Entries → Entries
diff_apply u u2 res = add_new u [] u2 (diff_members u u2 [] res)

-- The result and whether it is to be written.
abbrev pub Written : Type 0
Written = Entries × Bool

abbrev unless_equal : Entries → Entries → Written
unless_equal res original =
    if equal (object res) (object original) then (original, false) else (res, true)

abbrev keep_version : ℕ → Entries → Entries
keep_version e res = if is_member (member "v" res) then set_member "v" (num e) res else res

module _ (matches : String → String → Option Bool) (steps : Json) (key : String) where
  -- An entry that is older than the reader is written at the reader's version.
  unfoldable pub write_older : Entries → Entries → ℕ → Entries → Written
  write_older original view reader edited =
      if equal (object (delete_member "v" view)) (object (delete_member "v" edited))
      then (original, false)
      else (set_member "v" (num reader) edited, true)

  abbrev pub carried : ℕ → ℕ → Entries → Result Entries
  carried reader e m =
      if ltb reader e then (migrate matches steps key m e >>= λ (m', _). ok m') else ok m

  -- Into another, what the edit changed is carried.
  unfoldable pub write_into : Entries → Entries → ℕ → ℕ → Entries → Result Written
  write_into original view reader e edited = do
    u ← carried reader e view
    u2 ← carried reader e (set_member "v" (num reader) edited)
    ok (unless_equal (keep_version e (diff_apply u u2 original)) original)

  unfoldable pub write_at : Entries → ℕ → Entries → Result Written
  write_at original reader edited = do
    (view, lost) ← migrate matches steps key original reader
    guard (not lost) (read_only ∷ [])
    e ← version original
    (if ltb e reader
        then ok (write_older original view reader edited)
        else write_into original view reader e edited)

  abbrev write_entry : Json → ℕ → Entries → Result Written
  write_entry (object o) r edited = write_at o r edited
  write_entry _ r edited = err []

  -- WriteBack
  unfoldable pub write_back : Json → ℤ → Entries → Result Written
  write_back original reader edited = check_arg reader >>= λ r. write_entry original r edited

-- The loop of ComponentState; an entry that is no map or has no version is skipped.
skip_unversioned : Result ℕ → Result State → Result State → Result State
skip_unversioned (err e) skipped taken = skipped
skip_unversioned (ok v) skipped taken = taken

module _ (matches : String → String → Option Bool) (steps : Json) (reader : ℕ) where
  unfoldable pub state_of : List (String × Json) → State → Result State
  unfolding skip_unversioned
  state_of [] s = ok s
  state_of ((key, object m) ∷ rest) s =
      let skipped = state_of rest s in
      let lossy = state_of rest state_read_only in
      skip_unversioned (version m) skipped (elim (migrate matches steps key m reader) [
        | err e ↦ ok state_needs_update
        | ok (m', lost) ↦ if lost then lossy else skipped
      ])
  state_of ((key, _) ∷ rest) s = state_of rest s

unfoldable pub component_state :
    (String → String → Option Bool) → Json → ℤ → List (String × Json) → Result State
component_state matches steps reader entries =
    check_arg reader >>= λ r. state_of matches steps r entries state_full
