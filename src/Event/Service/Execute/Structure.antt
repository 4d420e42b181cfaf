-- ===== src/Event/Service/Execute/Structure.antt =====
-- The structural changes of an edit-mode save, and deltas of component data
-- (internal/event/event_service.go).
use prappser_spaces.Base.{
  String, Bool, true, false, not, ◌&&◌, ◌||◌, Option, none, some, [], ◌∷◌, ◌==◌, any, if◌then◌else◌,
}
use prappser_spaces.Base.Int.{ℤ}
use prappser_spaces.Value.{Fields, Items, empty, end, item, read, as_fields}
use prappser_spaces.Value.Number.{Float, truncate}
use prappser_spaces.Result.{
  Result, ok, err, ◌>>=◌, ◌>>◌, guard, Error, validation, unappliable, is_not_found, is_unappliable,
}
use prappser_spaces.Application.{Component, ComponentGroup}
use prappser_spaces.Application.Memory.{
  Repository, get_component_by_id, get_component_group_by_id, update_component_data,
  create_component, create_component_group, delete_component, delete_component_group,
  update_component_index, update_component_group_index, update_component_group,
}
use prappser_spaces.Event.Validator.{
  ChangeType, component_added, component_removed, component_reordered, component_data_delta,
  group_added, group_removed, group_reordered, group_changed, other_change, change_type_of,
}
use prappser_spaces.Event.Validator.Checks.{number_value}
use prappser_spaces.Event.Service.Execute.Fields.{get_string, get_int, apply_delta}

-- `errors.Is(err, ErrNotFound) || (err == nil && entity.ApplicationID != appID)`
component_of_app : String → Result Component → Result Component
component_of_app app_id (ok c) = if c.application_id == app_id then ok c else err (unappliable ∷ [])
component_of_app app_id (err e) = if any is_not_found e then err (unappliable ∷ []) else err e

unfoldable pub component_in_app : String → String → Repository → Result Component
unfolding component_of_app
component_in_app app_id id r = component_of_app app_id (get_component_by_id id r)

group_of_app : String → Result ComponentGroup → Result ComponentGroup
group_of_app app_id (ok g) = if g.application_id == app_id then ok g else err (unappliable ∷ [])
group_of_app app_id (err e) = if any is_not_found e then err (unappliable ∷ []) else err e

unfoldable pub group_in_app : String → String → Repository → Result ComponentGroup
unfolding group_of_app
group_in_app app_id id r = group_of_app app_id (get_component_group_by_id id r)

-- upsertTarget, where a lookup that succeeds gives the application of what it found
unfoldable pub upsert_target : String → Fields → Result String → Result (Unit {0})
upsert_target app_id data_fields (err e) =
    let target = get_string "applicationId" data_fields in
    if not (any is_not_found e)
    then err e
    else guard (target == "" || target == app_id) (unappliable ∷ [])
upsert_target app_id data_fields (ok existing) =
    let target = get_string "applicationId" data_fields in
    guard ((target == "" || target == app_id) && existing == app_id) (unappliable ∷ [])

abbrev pub object_or_error : Option Fields → Error → Result Fields
object_or_error none e = err e
object_or_error (some m) e = ok m

unfoldable pub execute_component_added : String → Fields → Repository → Result Repository
execute_component_added app_id change r = do
  m ← object_or_error (as_fields (read "data" change)) []
  let id = get_string "id" m
  upsert_target app_id m (get_component_by_id id r >>= λ c. ok c.application_id)
  g ← group_in_app app_id (get_string "componentGroupId" m) r
  create_component
      (record {
        id = id;
        group_id = get_string "componentGroupId" m;
        application_id = app_id;
        name = get_string "name" m;
        content = as_fields (read "data" m);
        index = get_int "index" m;
      })
      r

unfoldable pub execute_component_group_added : String → Fields → Repository → Result Repository
execute_component_group_added app_id change r = do
  m ← object_or_error (as_fields (read "data" change)) []
  let id = get_string "id" m
  upsert_target app_id m (get_component_group_by_id id r >>= λ g. ok g.application_id)
  create_component_group
      (record {
        id = id;
        application_id = app_id;
        name = get_string "name" m;
        index = get_int "index" m;
        components = [];
      })
      r

abbrev pub or_no_fields : Option Fields → Fields
or_no_fields none = empty
or_no_fields (some m) = m

-- The common part of executeComponentDataChanged and executeComponentDataDelta.
unfoldable pub change_component : String → String → Fields → Repository → Result Repository
change_component app_id id changes r = do
  c ← component_in_app app_id id r
  update_component_data id (some (apply_delta changes (or_no_fields c.content))) r

unfoldable pub execute_component_data_delta :
    String → String → Fields → Repository → Result Repository
execute_component_data_delta app_id id change r = do
  changes ← object_or_error (as_fields (read "changedFields" change)) []
  change_component app_id id changes r

abbrev or_index : Option Float → ℤ → ℤ
or_index none i = i
or_index (some f) i = truncate f

unfoldable pub change_group : String → String → Fields → Repository → Result Repository
change_group app_id id change r = do
  g ← group_in_app app_id id r
  let m = or_no_fields (as_fields (read "data" change))
  let name = get_string "name" m
  update_component_group id (if name == "" then g.name else name)
      (or_index (number_value (read "index" m)) g.index) r

-- The switch of the loop: what one change does.
unfoldable pub apply_change : ChangeType → String → String → Fields → Repository → Result Repository
unfolding change_group
apply_change component_added app_id id change r = execute_component_added app_id change r
apply_change component_removed app_id id change r =
    component_in_app app_id id r >>= λ c. delete_component id r
apply_change component_reordered app_id id change r =
    component_in_app app_id id r >>= λ c. update_component_index id (get_int "index" change) r
apply_change component_data_delta app_id id change r =
    execute_component_data_delta app_id id change r
apply_change group_added app_id id change r = execute_component_group_added app_id change r
apply_change group_removed app_id id change r =
    group_in_app app_id id r >>= λ g. delete_component_group id r
apply_change group_reordered app_id id change r =
    group_in_app app_id id r >>= λ g. update_component_group_index id (get_int "index" change) r
apply_change group_changed app_id id change r = change_group app_id id change r
apply_change other_change app_id id change r = err (validation ∷ [])

-- The changes that may name what someone else removed meanwhile.
abbrev pub is_tolerant : ChangeType → Bool
is_tolerant component_removed = true
is_tolerant component_reordered = true
is_tolerant group_removed = true
is_tolerant group_reordered = true
is_tolerant group_changed = true
is_tolerant _ = false

unfoldable pub skip_stale : Bool → Repository → Result Repository → Result Repository
skip_stale tolerant r (ok r') = ok r'
skip_stale tolerant r (err e) = if tolerant && any is_unappliable e then ok r else err e

unfoldable pub step_change : String → Option Fields → Repository → Result Repository
unfolding skip_stale
step_change app_id none r = err (validation ∷ [])
step_change app_id (some change) r =
    let type = change_type_of (get_string "changeType" change) in
    skip_stale (is_tolerant type) r
      (apply_change type app_id (get_string "entityId" change) change r)

-- The loop of executeApplicationAfterEditModeChanged.
unfoldable pub apply_changes : String → Items → Repository → Result Repository
apply_changes app_id end r = ok r
apply_changes app_id (item v l) r =
    step_change app_id (as_fields v) r >>= λ r'. apply_changes app_id l r'
