-- ===== src/Event.antt =====
-- Events and their types (internal/event/event.go).
pub mod Staleness
pub mod Validator
pub mod Authorizer
pub mod Store
pub mod Service
use prappser_spaces.Base.{
  ℕ, String, ◌≡◌, refl, Bool, true, false, Option, none, some, ◌==◌, if◌then◌else◌,
}
use prappser_spaces.Base.Int.{ℤ}
use prappser_spaces.Value.{Fields}

-- EventType is a string; `unknown` is any string but the constants.
pub data EventType : Type 0 where
  member_added member_removed member_role_changed : EventType
  application_data_changed application_deleted application_moved : EventType
  invite_revoked component_data_changed application_after_edit_mode_changed : EventType
  user_settings_changed member_details_changed application_created : EventType
  application_file_created application_file_deleted : EventType
  reminder_changed reminder_fired template_changed space_profile_changed : EventType
  unknown : String → EventType

-- The string of a type, as the events table and the wire hold it.
unfoldable pub type_name : EventType → String
type_name member_added = "member_added"
type_name member_removed = "member_removed"
type_name member_role_changed = "member_role_changed"
type_name application_data_changed = "application_data_changed"
type_name application_deleted = "application_deleted"
type_name application_moved = "application_moved"
type_name invite_revoked = "invite_revoked"
type_name component_data_changed = "component_data_changed"
type_name application_after_edit_mode_changed = "application_after_edit_mode_changed"
type_name user_settings_changed = "user_settings_changed"
type_name member_details_changed = "member_details_changed"
type_name application_created = "application_created"
type_name application_file_created = "application_file_created"
type_name application_file_deleted = "application_file_deleted"
type_name reminder_changed = "reminder_changed"
type_name reminder_fired = "reminder_fired"
type_name template_changed = "template_changed"
type_name space_profile_changed = "space_profile_changed"
type_name (unknown s) = s

-- a == b
unfoldable pub type_eq : EventType → EventType → Bool
unfolding type_name
type_eq a b = type_name a == type_name b

abbrev pub is_user_scoped : EventType → Bool
is_user_scoped user_settings_changed = true
is_user_scoped application_created = true
is_user_scoped template_changed = true
is_user_scoped _ = false

-- `body` is the field Data; a nil map is `none`. Sequence numbers stay below 2 ^ 63.
pub record Event : Type 0 where
  pub id : String
  pub created_at : ℤ
  pub application_id : String
  pub sequence_number : ℕ
  pub type : EventType
  pub creator_public_key : String
  pub version : ℤ
  pub body : Option Fields
  pub space_id : String
