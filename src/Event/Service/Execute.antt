-- ===== src/Event/Service/Execute.antt =====
-- The execution of a persisted event on the application repository (executeEvent and its handlers
-- in internal/event/event_service.go).
pub mod Fields
pub mod Structure
pub mod Keeps
pub mod Targets
use prappser_spaces.Base.{
  String, ◌≡◌, refl, Bool, true, false, not, Option, none, some, [], ◌∷◌, ◌==◌, any, if◌then◌else◌,
}
use prappser_spaces.Base.Int.{ℤ}
use prappser_spaces.Value
use prappser_spaces.Value.{Value, Items, as_string, as_fields, as_items}
use prappser_spaces.Result.{
  Result, ok, err, ◌>>=◌, ◌>>◌, guard, validation, unappliable, is_not_found,
}
use prappser_spaces.Application.{Member, role_of}
use prappser_spaces.Application.Memory.{
  Repository, create_member, delete_member, get_member_by_public_key, update_member_role,
  delete_application, update_application_metadata,
}
use prappser_spaces.Event.{
  Event, EventType, member_added, member_removed, member_role_changed, application_data_changed,
  application_deleted, component_data_changed, application_after_edit_mode_changed,
  reminder_changed,
}
use prappser_spaces.Event.Validator.Checks.{or_empty}
use prappser_spaces.Event.Authorizer.{string_at}
use Fields.{get_int64_ptr, nonempty, value_at}
use Structure.{change_component, apply_changes, object_or_error, or_no_fields}

-- The injected ReminderStore: whether reminder_changed data decodes to its struct, and what
-- ApplyRuleChange answers. The reminder table is not part of the repository.
pub record ReminderStore : Type 0 where
  pub decodes : Value.Fields → Bool
  pub apply_rule_change : Value.Fields → Result (Unit {0})

-- What an execution finds around it: the time, a fresh uuid, and the optional reminder store.
pub record Context : Type 0 where
  pub now : ℤ
  pub fresh_id : String
  pub reminders : Option ReminderStore

unfoldable pub execute_member_added : Context → Event → Repository → Result Repository
execute_member_added c e r = do
  app_id ← nonempty (string_at "applicationId" e.body)
  key ← nonempty (string_at "memberPublicKey" e.body)
  create_member
      (record {
        id = c.fresh_id;
        application_id = app_id;
        role = role_of (or_empty (string_at "role" e.body));
        public_key = key;
        display_name = none;
        avatar_storage_id = none;
        expires_at = get_int64_ptr "membershipExpiresAt" e.body;
      })
      r

-- A member that is already gone is no error.
remove_found : Repository → Result Member → Result Repository
remove_found r (ok m) = delete_member m.id r
remove_found r (err e) = if any is_not_found e then ok r else err e

unfoldable pub execute_member_removed : Context → Event → Repository → Result Repository
unfolding remove_found
execute_member_removed c e r = do
  app_id ← nonempty (string_at "applicationId" e.body)
  key ← nonempty (string_at "memberPublicKey" e.body)
  remove_found r (get_member_by_public_key c.now app_id key r)

abbrev icon_of : Option String → Option String
icon_of none = none
icon_of (some s) = if s == "" then none else some s

unfoldable pub execute_application_data_changed : Context → Event → Repository → Result Repository
execute_application_data_changed c e r = do
  app_id ← nonempty (string_at "applicationId" e.body)
  name ← nonempty (string_at "name" e.body)
  update_application_metadata c.now app_id name (icon_of (string_at "icon" e.body)) r

unfoldable pub execute_application_deleted : Context → Event → Repository → Result Repository
execute_application_deleted c e r = do
  app_id ← nonempty (string_at "applicationId" e.body)
  delete_application c.now app_id r

change_found : Repository → String → Result Member → Result Repository
change_found r role (ok m) = update_member_role m.id (role_of role) r
change_found r role (err e) = if any is_not_found e then err (unappliable ∷ e) else err e

unfoldable pub execute_member_role_changed : Context → Event → Repository → Result Repository
unfolding change_found
execute_member_role_changed c e r = do
  app_id ← nonempty (string_at "applicationId" e.body)
  key ← nonempty (string_at "memberPublicKey" e.body)
  role ← nonempty (string_at "newRole" e.body)
  change_found r role (get_member_by_public_key c.now app_id key r)

abbrev as_validation : Result String → Result String
as_validation (ok s) = ok s
as_validation (err e) = err (validation ∷ e)

unfoldable pub execute_component_data_changed : Context → Event → Repository → Result Repository
execute_component_data_changed c e r = do
  id ← as_validation (nonempty (string_at "componentId" e.body))
  changes ← object_or_error (as_fields (value_at "changedFields" e.body)) (validation ∷ [])
  change_component e.application_id id changes r

apply_rule : Option ReminderStore → Value.Fields → Result (Unit {0})
apply_rule none m = ok tt
apply_rule (some s) m = guard (s.decodes m) (validation ∷ []) >> s.apply_rule_change m

unfoldable pub execute_reminder_changed : Context → Event → Repository → Result Repository
unfolding apply_rule
execute_reminder_changed c e r = apply_rule c.reminders (or_no_fields e.body) >>= λ _. ok r

change_list : Option Items → String → Repository → Result Repository
change_list none app_id r = err []
change_list (some l) app_id r = apply_changes app_id l r

unfoldable pub execute_application_after_edit_mode_changed :
    Context → Event → Repository → Result Repository
unfolding change_list
execute_application_after_edit_mode_changed c e r =
    change_list (as_items (value_at "changes" e.body)) e.application_id r

dispatch : EventType → Context → Event → Repository → Result Repository
dispatch member_added c e r = execute_member_added c e r
dispatch member_removed c e r = execute_member_removed c e r
dispatch application_deleted c e r = execute_application_deleted c e r
dispatch member_role_changed c e r = execute_member_role_changed c e r
dispatch component_data_changed c e r = execute_component_data_changed c e r
dispatch application_after_edit_mode_changed c e r =
    execute_application_after_edit_mode_changed c e r
dispatch reminder_changed c e r = execute_reminder_changed c e r
dispatch application_data_changed c e r = execute_application_data_changed c e r
dispatch _ c e r = ok r

-- executeEvent; the types without a case here have no effect on the repository.
unfoldable pub execute_event : Context → Event → Repository → Result Repository
unfolding dispatch
execute_event c e r = dispatch e.type c e r
