-- ===== src/Scenarios/Entries.antt =====
-- Entries of a component (internal/component/lens): a step that renames a member and maps another.
use prappser_spaces.Base.{
  String, ◌≡◌, refl, Bool, true, false, Option, some, List, [], ◌∷◌, ◌==◌, arith,
}
use prappser_spaces.Result.{ok}
use prappser_spaces.Scenarios.{apart}
use prappser_spaces.Lens.{
  Json, boolean, text, list, object, Items, end, item, Entries, empty, entry, Op,
}
use prappser_spaces.Lens.Values.{
  member, set_member, delete_member, equal, int_val, is_scalar, equal_number,
}
use prappser_spaces.Lens.Paths.{
  get_path, set_at, set_path, remove_path, remove_at, can_set, parse_path, valid_name, dotted_names,
  is_prefix,
}
use prappser_spaces.Lens.Paths.Laws.{get_path-set_at}
use prappser_spaces.Lens.Ops.{
  translate, compile_pairs, compile_op, required_member, apply, relocate, lossy, repeats,
}
use prappser_spaces.Lens.Ops.Undo.{mapped_value_returns}
use prappser_spaces.Lens.Steps.{lookup, matching, step_to, all_known, hits, compile_all}
use prappser_spaces.Lens.Migrate.{
  version, num, migrate, migrate_from, climb, descend, apply_up, apply_down,
}
use prappser_spaces.Lens.Migrate.Versions.{migrate-version, down_not_breaking}
use prappser_spaces.Lens.WriteBack.{carried, write_into, diff_apply, diff_members, add_new}
use prappser_spaces.Lens.WriteBack.Frame.{IsUntouched, IsKnown, unchanged_members_stay}

abbrev exact : String → String → Option Bool
exact pattern key = some (pattern == key)

abbrev renaming : Json
renaming =
    object (entry "op" (text "rename") (entry "from" (text "a") (entry "to" (text "b") empty)))

abbrev steps : Json
steps = list (
    item
      (object (
        entry "to" (num 2) (
          entry "breaking" (boolean false)
            (entry "entries" (object (entry "note" (list (item renaming end)) empty)) empty))))
      end)

abbrev first_version : Entries
first_version = entry "a" (text "x") (entry "c" (text "z") empty)

abbrev second_version : Entries
second_version = entry "c" (text "z") (entry "b" (text "x") (entry "v" (num 2) empty))

up_run : migrate exact steps "note" first_version 2 ≡ ok (second_version, false)
unfolding migrate version member migrate_from climb descend lookup matching step_to int_val
    all_known hits compile_all compile_op required_member parse_path dotted_names valid_name
    is_prefix apply_down apply_up apply relocate lossy can_set get_path remove_at remove_path set_at
    set_path delete_member set_member
up_run = refl

migrate-version_example : version second_version ≡ ok 2
migrate-version_example =
    migrate-version exact steps "note" first_version second_version 2 false (omega arith)
      (omega arith) up_run

abbrev back_again : Entries
back_again = entry "c" (text "z") (entry "v" (num 1) (entry "a" (text "x") empty))

down_run : migrate exact steps "note" second_version 1 ≡ ok (back_again, false)
unfolding migrate version member migrate_from climb descend lookup matching step_to int_val
    all_known hits compile_all compile_op required_member parse_path dotted_names valid_name
    is_prefix apply_down apply_up apply relocate lossy can_set get_path remove_at remove_path set_at
    set_path delete_member set_member
down_run = refl

second_run : version second_version ≡ ok 2
unfolding version member int_val
second_run = refl

down_not_breaking_example : (ops : List Op) × (lookup exact steps 2 "note" ≡ ok (ops, false))
down_not_breaking_example =
    down_not_breaking exact steps "note" second_version back_again 2 1 false 2 second_run
      (omega arith) (omega arith) down_run

get_path-set_at_example :
    get_path ("b" ∷ "c" ∷ []) (object (set_at "b" ("c" ∷ []) (text "y") second_version))
    ≡ some (text "y")
get_path-set_at_example = get_path-set_at "b" ("c" ∷ []) (text "y") second_version

abbrev pairs_json : Items
pairs_json =
    item (list (item (text "low") (item (num 1) end)))
      (item (list (item (text "high") (item (num 2) end))) end)

abbrev pairs : List (Json × Json)
pairs = (text "low", num 1) ∷ (text "high", num 2) ∷ []

pairs_run : compile_pairs [] pairs_json ≡ ok pairs
unfolding compile_pairs is_scalar repeats equal equal_number
pairs_run = refl

translate_run : translate true pairs (text "high") ≡ some (num 2)
unfolding translate equal equal_number
translate_run = refl

mapped_value_returns_example :
    (v' : Json) × (translate false pairs (num 2) ≡ some v') × (equal (text "high") v' ≡ true)
mapped_value_returns_example =
    mapped_value_returns pairs_json pairs (text "high") (num 2) pairs_run translate_run

-- A reader at version 1 of the entry at version 2 changes "a", and "c" stays.
abbrev edited : Entries
edited = entry "c" (text "z") (entry "v" (num 1) (entry "a" (text "y") empty))

abbrev viewed_up : Entries
viewed_up = entry "c" (text "z") (entry "v" (num 2) (entry "b" (text "x") empty))

abbrev edited_up : Entries
edited_up = entry "c" (text "z") (entry "v" (num 2) (entry "b" (text "y") empty))

viewed_run : carried exact steps "note" 1 2 back_again ≡ ok viewed_up
unfolding migrate version member migrate_from climb descend lookup matching step_to int_val
    all_known hits compile_all compile_op required_member parse_path dotted_names valid_name
    is_prefix apply_down apply_up apply relocate lossy can_set get_path remove_at remove_path set_at
    set_path delete_member set_member
viewed_run = refl

edited_run : carried exact steps "note" 1 2 (set_member "v" (num 1) edited) ≡ ok edited_up
unfolding migrate version member migrate_from climb descend lookup matching step_to int_val
    all_known hits compile_all compile_op required_member parse_path dotted_names valid_name
    is_prefix apply_down apply_up apply relocate lossy can_set get_path remove_at remove_path set_at
    set_path delete_member set_member
edited_run = refl

abbrev changed : Entries
changed = entry "c" (text "z") (entry "b" (text "y") (entry "v" (num 2) empty))

write_run : write_into exact steps "note" second_version back_again 1 2 edited ≡ ok (changed, true)
unfolding write_into diff_apply diff_members add_new equal equal_number migrate version member
    migrate_from climb descend lookup matching step_to int_val all_known hits compile_all compile_op
    required_member parse_path dotted_names valid_name is_prefix apply_down apply_up apply relocate
    lossy can_set get_path remove_at remove_path set_at set_path delete_member set_member
write_run = refl

here : IsUntouched "c" edited_up viewed_up
unfolding member equal
here = (
  λ e. (text "z", refl, refl),
  (λ e. absurd (apart "v" "c" refl e), (λ e. absurd (apart "b" "c" refl e), tt)),
)

known : IsKnown "c" viewed_up edited_up
unfolding member
known = (λ e. refl, (λ e. refl, (λ e. refl, tt)))

unchanged_members_stay_example : member "c" changed ≡ member "c" second_version
unchanged_members_stay_example =
    unchanged_members_stay exact steps "note" second_version back_again edited viewed_up edited_up 1
      2 (changed, true) "c" (apart "c" "v" refl) viewed_run edited_run here known write_run
