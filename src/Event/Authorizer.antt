-- ===== src/Event/Authorizer.antt =====
-- Authorization of a submitted event (internal/event/event_authorizer.go). A submitter and an
-- application that the code holds by pointers are optional.
pub mod Targets
use prappser_spaces.Base.{
  String, ◌≡◌, refl, Bool, true, false, not, ◌&&◌, ◌||◌, Option, none, some, [], ◌∷◌, ◌==◌, find,
  if◌then◌else◌,
}
use prappser_spaces.Value.{Fields, as_string, read}
use prappser_spaces.Result.{Result, ok, err, ◌>>=◌, ◌>>◌, guard, Error, unauthorized}
use prappser_spaces.Application.{
  Application, Member, Role, User, role_of, role_eq, is_owner, is_admin, agent_allowed,
}
use prappser_spaces.Event.{
  Event, EventType, member_added, member_removed, member_role_changed, application_data_changed,
  application_deleted, application_moved, invite_revoked, component_data_changed,
  application_after_edit_mode_changed, user_settings_changed, member_details_changed,
  application_created, application_file_created, application_file_deleted, reminder_changed,
  reminder_fired, template_changed, space_profile_changed, unknown,
}
use prappser_spaces.Event.Validator.Checks.{or_empty}

abbrev pub refused : Error
refused = unauthorized ∷ []

-- A nil map reads as an empty one.
abbrev pub string_at : String → Option Fields → Option String
string_at key none = none
string_at key (some m) = as_string (read key m)

-- findMember
unfoldable pub find_member : Application → String → Option Member
find_member app key = find (λ m. m.public_key == key) app.members

abbrev pub can_manage : Member → Bool
can_manage m = is_owner m.role || is_admin m.role

-- `target == nil || target.Role == MemberRoleOwner` is refused.
abbrev pub is_other_member : Option Member → Bool
is_other_member none = false
is_other_member (some t) = not (is_owner t.role)

abbrev pub has_role : Option Member → Role → Bool
has_role none r = false
has_role (some t) r = role_eq r t.role

authorize_removal : Application → User → Member → Option String → Result (Unit {0})
authorize_removal app submitter m none = err refused
authorize_removal app submitter m (some key) =
    guard (is_other_member (find_member app key)) refused
    >> guard (key == submitter.public_key || can_manage m) refused

authorize_role_change : Application → User → Member → String → String → Result (Unit {0})
authorize_role_change app submitter m key old_role =
    guard (can_manage m) refused
    >> (guard (not (key == submitter.public_key)) refused
        >> (guard (is_other_member (find_member app key)) refused
            >> guard (has_role (find_member app key) (role_of old_role)) refused))

abbrev pub is_text : Option String → String → Bool
is_text none s = false
is_text (some t) s = t == s

-- The switch of AuthorizeEvent, for a submitter who is the member `m`.
unfoldable pub authorize_type :
    EventType → Option Fields → Application → User → Member → Result (Unit {0})
unfolding authorize_removal authorize_role_change
authorize_type application_deleted body app submitter m = guard (is_owner m.role) refused
authorize_type member_removed body app submitter m =
    authorize_removal app submitter m (string_at "memberPublicKey" body)
authorize_type member_added body app submitter m = err refused
authorize_type member_role_changed body app submitter m =
    authorize_role_change app submitter m (or_empty (string_at "memberPublicKey" body))
      (or_empty (string_at "oldRole" body))
authorize_type application_data_changed body app submitter m = ok tt
authorize_type invite_revoked body app submitter m = guard (can_manage m) refused
authorize_type component_data_changed body app submitter m = ok tt
authorize_type reminder_changed body app submitter m = ok tt
authorize_type application_after_edit_mode_changed body app submitter m = ok tt
authorize_type member_details_changed body app submitter m =
    guard (is_text (string_at "memberPublicKey" body) submitter.public_key) refused
authorize_type application_file_created body app submitter m = err refused
authorize_type application_file_deleted body app submitter m = err refused
authorize_type reminder_fired body app submitter m = err refused
authorize_type space_profile_changed body app submitter m = err refused
authorize_type application_moved body app submitter m = err refused
authorize_type user_settings_changed body app submitter m = err refused
authorize_type application_created body app submitter m = err refused
authorize_type template_changed body app submitter m = err refused
authorize_type (unknown s) body app submitter m = err refused

authorize_member : Event → User → Application → Option Member → Result (Unit {0})
authorize_member e submitter app none = err refused
authorize_member e submitter app (some m) =
    guard (agent_allowed app submitter) refused >> authorize_type e.type e.body app submitter m

-- AuthorizeEvent
unfoldable pub authorize_event : Event → Option User → Option Application → Result (Unit {0})
unfolding authorize_member
authorize_event e none app = err refused
authorize_event e (some submitter) none = err refused
authorize_event e (some submitter) (some app) =
    authorize_member e submitter app (find_member app submitter.public_key)

-- The switch of AuthorizeUserScopedEvent.
authorize_own : EventType → Option Fields → User → Result (Unit {0})
authorize_own user_settings_changed body submitter =
    guard (is_text (string_at "userPublicKey" body) submitter.public_key) refused
authorize_own application_created body submitter =
    guard (is_text (string_at "userPublicKey" body) submitter.public_key) refused
authorize_own template_changed body submitter =
    guard (is_text (string_at "userPublicKey" body) submitter.public_key) refused
authorize_own _ body submitter = err refused

unfoldable pub authorize_user_scoped_event : Event → Option User → Result (Unit {0})
unfolding authorize_own
authorize_user_scoped_event e none = err refused
authorize_user_scoped_event e (some submitter) = authorize_own e.type e.body submitter
