-- ===== src/Event/Validator.antt =====
-- Validation of an event's shape (internal/event/event_validator.go).
pub mod Offset
pub mod Checks
use prappser_spaces.Base.{
  ℕ, ◌*◌, String, ◌≡◌, refl, Bool, true, false, not, ◌||◌, Option, none, some, List, [], ◌∷◌, ◌==◌,
  leb, if◌then◌else◌,
}
use prappser_spaces.Value.{Value, Fields, Items, end, item, as_string, as_fields, as_items, read}
use prappser_spaces.Value.Number.{Float}
use prappser_spaces.Result.{Result, ok, err, ◌>>=◌, ◌>>◌, guard}
use prappser_spaces.Application.{role_of, is_grantable}
use prappser_spaces.Event.{
  Event, EventType, member_added, member_removed, member_role_changed, application_data_changed,
  application_deleted, application_moved, invite_revoked, component_data_changed,
  application_after_edit_mode_changed, user_settings_changed, member_details_changed,
  application_created, application_file_created, application_file_deleted, reminder_changed,
  reminder_fired, template_changed, space_profile_changed, unknown, type_name,
}
use Offset.{is_valid_offset_spec}
use Checks.{
  codes, invalid, or_empty, required, number_value, nonnegative, positive, integral, is_size,
  is_object, Platform,
}

abbrev pub require_all : List String → Fields → Result (Unit {0})
require_all [] m = ok tt
require_all (k ∷ ks) m = required k m >> require_all ks m

grantable_role : String → Fields → Result (Unit {0})
grantable_role key m =
    required key m >> guard (is_grantable (role_of (or_empty (as_string (read key m))))) invalid

unfoldable pub validate_member_added_data : Fields → Result (Unit {0})
unfolding grantable_role
validate_member_added_data m =
    require_all ("applicationId" ∷ "memberPublicKey" ∷ "userDisplayName" ∷ []) m
    >> grantable_role "role" m

unfoldable pub validate_member_removed_data : Fields → Result (Unit {0})
validate_member_removed_data = require_all ("applicationId" ∷ "memberPublicKey" ∷ [])

unfoldable pub validate_member_role_changed_data : Fields → Result (Unit {0})
unfolding grantable_role
validate_member_role_changed_data m =
    require_all ("applicationId" ∷ "memberPublicKey" ∷ "oldRole" ∷ []) m
    >> grantable_role "newRole" m

unfoldable pub validate_application_data_changed_data : Fields → Result (Unit {0})
validate_application_data_changed_data = require_all ("applicationId" ∷ "name" ∷ [])

unfoldable pub validate_application_deleted_data : Fields → Result (Unit {0})
validate_application_deleted_data = require_all ("applicationId" ∷ [])

unfoldable pub validate_application_moved_data : Fields → Result (Unit {0})
validate_application_moved_data =
    require_all ("applicationId" ∷ "targetSpaceUrl" ∷ "inviteToken" ∷ [])

unfoldable pub validate_invite_revoked_data : Fields → Result (Unit {0})
validate_invite_revoked_data = require_all ("applicationId" ∷ "inviteId" ∷ [])

unfoldable pub validate_component_data_changed_data : Fields → Result (Unit {0})
validate_component_data_changed_data m = ok tt

-- The keys of editModeChangeTypes, and any other text.
pub data ChangeType : Type 0 where
  component_added component_removed component_reordered component_data_delta : ChangeType
  group_added group_removed group_reordered group_changed : ChangeType
  other_change : ChangeType

unfoldable pub change_type_of : String → ChangeType
change_type_of s =
    if s == "component_added"
    then component_added
    else if s == "component_removed"
    then component_removed
    else if s == "component_reordered"
    then component_reordered
    else if s == "component_data_changed"
    then component_data_delta
    else if s == "component_group_added"
    then group_added
    else if s == "component_group_removed"
    then group_removed
    else if s == "component_group_reordered"
    then group_reordered
    else if s == "component_group_changed"
    then group_changed
    else other_change

abbrev pub is_number : Option Float → Bool
is_number none = false
is_number (some _) = true

-- The switch on the change type, with the refusal of an unsupported one.
unfoldable pub validate_change_fields : ChangeType → Fields → Result (Unit {0})
validate_change_fields component_added m = guard (is_object (read "data" m)) invalid
validate_change_fields group_added m = guard (is_object (read "data" m)) invalid
validate_change_fields group_changed m = guard (is_object (read "data" m)) invalid
validate_change_fields component_reordered m =
    guard (is_number (number_value (read "index" m))) invalid
validate_change_fields group_reordered m = guard (is_number (number_value (read "index" m))) invalid
validate_change_fields component_data_delta m = guard (is_object (read "changedFields" m)) invalid
validate_change_fields component_removed m = ok tt
validate_change_fields group_removed m = ok tt
validate_change_fields other_change m = err invalid

abbrev is_supported : ChangeType → Bool
is_supported other_change = false
is_supported _ = true

validate_change : Option Fields → Result (Unit {0})
validate_change none = err invalid
validate_change (some m) =
    let type = change_type_of (or_empty (as_string (read "changeType" m))) in
    guard (is_supported type) invalid >> (required "entityId" m >> validate_change_fields type m)

validate_changes : Items → Result (Unit {0})
unfolding validate_change
validate_changes end = ok tt
validate_changes (item v l) = validate_change (as_fields v) >> validate_changes l

validate_change_list : Option Items → Result (Unit {0})
unfolding validate_changes
validate_change_list none = err invalid
validate_change_list (some l) = validate_changes l

unfoldable pub validate_application_after_edit_mode_changed_data : Fields → Result (Unit {0})
unfolding validate_change_list
validate_application_after_edit_mode_changed_data m =
    validate_change_list (as_items (read "changes" m))

unfoldable pub validate_user_settings_changed_data : Fields → Result (Unit {0})
validate_user_settings_changed_data = require_all ("userPublicKey" ∷ [])

unfoldable pub validate_member_details_changed_data : Fields → Result (Unit {0})
validate_member_details_changed_data = require_all ("applicationId" ∷ "memberPublicKey" ∷ [])

unfoldable pub validate_application_file_created_data : Fields → Result (Unit {0})
validate_application_file_created_data m =
    require_all ("applicationId" ∷ "fileId" ∷ "filename" ∷ "contentType" ∷ []) m
    >> (guard (is_size (read "sizeBytes" m)) invalid >> required "remoteUrl" m)

unfoldable pub validate_application_file_deleted_data : Fields → Result (Unit {0})
validate_application_file_deleted_data = require_all ("applicationId" ∷ "fileId" ∷ [])

valid_offsets : Items → Result (Unit {0})
valid_offsets end = ok tt
valid_offsets (item v l) =
    let spec = as_string v in
    elim spec [
      | none ↦ err invalid
      | some s ↦ guard (is_valid_offset_spec (codes s)) invalid >> valid_offsets l
    ]

some_offsets : Option Items → Result (Unit {0})
unfolding valid_offsets
some_offsets none = err invalid
some_offsets (some end) = err invalid
some_offsets (some (item v l)) = valid_offsets (item v l)

one_of : String → String → Fields → String → Result (Unit {0})
one_of a b m key = let s = or_empty (as_string (read key m)) in guard (s == a || s == b) invalid

unfoldable pub validate_reminder_changed_data : Platform → Fields → Result (Unit {0})
unfolding some_offsets one_of
validate_reminder_changed_data p m =
    require_all ("id" ∷ "componentId" ∷ "targetKey" ∷ "tz" ∷ []) m
    >> (guard (p.knows_tz (or_empty (as_string (read "tz" m)))) invalid
        >> (guard (positive (number_value (read "dueAt" m))) invalid
            >> (some_offsets (as_items (read "offsets" m))
                >> (one_of "pending" "cancelled" m "state"
                    >> guard (nonnegative (number_value (read "rev" m))) invalid))))

unfoldable pub validate_reminder_fired_data : Fields → Result (Unit {0})
validate_reminder_fired_data = require_all ("applicationId" ∷ "componentId" ∷ "ruleId" ∷ [])

unfoldable pub validate_application_created_data : Fields → Result (Unit {0})
validate_application_created_data =
    require_all ("userPublicKey" ∷ "applicationId" ∷ "applicationName" ∷ [])

abbrev pub max_template_doc_bytes : ℕ
max_template_doc_bytes = 64 * 1024

fits : Option ℕ → Bool
fits none = false
fits (some n) = leb n max_template_doc_bytes

doc_fits : Platform → Option Fields → Result (Unit {0})
unfolding fits
doc_fits p none = err invalid
doc_fits p (some doc) = guard (fits (p.json_size doc)) invalid

unfoldable pub validate_template_changed_data : Platform → Fields → Result (Unit {0})
unfolding one_of doc_fits
validate_template_changed_data p m =
    let rev = number_value (read "rev" m) in
    require_all ("userPublicKey" ∷ "id" ∷ []) m
    >> (guard (nonnegative rev) invalid
        >> (guard (integral rev) invalid
            >> (one_of "active" "deleted" m "state"
                >> (one_of "user" "imported" m "source"
                    >> (doc_fits p (as_fields (read "doc" m))
                        >> (guard (nonnegative (number_value (read "createdAt" m))) invalid
                            >> guard (nonnegative (number_value (read "updatedAt" m))) invalid))))))

-- The switch of ValidateEvent.
validate_data : Platform → EventType → Fields → Result (Unit {0})
validate_data p member_added m = validate_member_added_data m
validate_data p member_removed m = validate_member_removed_data m
validate_data p member_role_changed m = validate_member_role_changed_data m
validate_data p application_data_changed m = validate_application_data_changed_data m
validate_data p application_deleted m = validate_application_deleted_data m
validate_data p application_moved m = validate_application_moved_data m
validate_data p invite_revoked m = validate_invite_revoked_data m
validate_data p component_data_changed m = validate_component_data_changed_data m
validate_data p application_after_edit_mode_changed m =
    validate_application_after_edit_mode_changed_data m
validate_data p user_settings_changed m = validate_user_settings_changed_data m
validate_data p member_details_changed m = validate_member_details_changed_data m
validate_data p application_created m = validate_application_created_data m
validate_data p application_file_created m = validate_application_file_created_data m
validate_data p application_file_deleted m = validate_application_file_deleted_data m
validate_data p reminder_changed m = validate_reminder_changed_data p m
validate_data p reminder_fired m = validate_reminder_fired_data m
validate_data p space_profile_changed m = required "applicationId" m
validate_data p template_changed m = validate_template_changed_data p m
validate_data p (unknown s) m = err invalid

validate_body : Platform → EventType → Option Fields → Result (Unit {0})
unfolding validate_data
validate_body p type none = err invalid
validate_body p type (some m) = validate_data p type m

unfoldable pub validate_event : Platform → Event → Result (Unit {0})
unfolding validate_body
validate_event p e =
    guard (not (e.id == "")) invalid
    >> (guard (not (type_name e.type == "")) invalid
        >> (guard (not (e.creator_public_key == "")) invalid >> validate_body p e.type e.body))
