-- ===== src/Invitation/Options.antt =====
-- The options of a new invitation and their checks (CreateInvitation in
-- internal/invitation/invitation_service.go).
use prappser_spaces.Base.{
  String, Bool, true, false, ◌&&◌, Option, none, some, List, [], ◌∷◌, ◌==◌, length, if◌then◌else◌,
}
use prappser_spaces.Base.Int.{ℤ, pos, leb_ℤ}
use prappser_spaces.Result.{Result, guard, ◌>>◌, Error, invalid_invite_role, invalid_invite_options}
use prappser_spaces.Application.{role_of, is_grantable}

pub record CreateInvitationOptions : Type 0 where
  pub application_id : String
  pub role : String
  pub max_uses : Option ℤ
  pub expires_in_hours : Option ℤ
  pub space_url : String
  pub grants_membership : Option Bool
  pub grants_identity : Option Bool
  pub grants_space_use : Option Bool
  pub membership_duration_hours : Option ℤ
  pub member_public_keys : List String

-- MaxExpirationHours, MaxMemberBoundExpirationHours and MaxMembershipDurationHours
abbrev pub max_expiration_hours : ℤ
max_expiration_hours = pos 48

abbrev pub max_member_bound_expiration_hours : ℤ
max_member_bound_expiration_hours = pos 720

abbrev pub max_membership_duration_hours : ℤ
max_membership_duration_hours = pos 8760

abbrev pub is_empty : List String → Bool
is_empty [] = true
is_empty (k ∷ l) = false

-- A set option within its bounds, the first and the last included.
abbrev pub is_between : ℤ → ℤ → Option ℤ → Bool
is_between low high none = true
is_between low high (some n) = leb_ℤ low n && leb_ℤ n high

abbrev pub at_least : ℤ → Option ℤ → Bool
at_least low none = true
at_least low (some n) = leb_ℤ low n

abbrev pub otherwise {ℓ} : {A : Type ℓ} → A → Option A → A
otherwise d none = d
otherwise d (some a) = a

abbrev pub map_option {ℓ κ} : {A : Type ℓ} {B : Type κ} → (A → B) → Option A → Option B
map_option f none = none
map_option f (some a) = some (f a)

abbrev pub or_text : String → String → String
or_text s t = if s == "" then t else s

-- A guard on the options of an invitation.
abbrev pub option_error : Error
option_error = invalid_invite_options ∷ []

-- A member-bound invitation has one use for each key.
abbrev pub bound_uses : CreateInvitationOptions → Option ℤ
bound_uses opts =
    if is_empty opts.member_public_keys
    then opts.max_uses
    else some (pos (length opts.member_public_keys))

abbrev pub max_expiry : CreateInvitationOptions → ℤ
max_expiry opts =
    if is_empty opts.member_public_keys
    then max_expiration_hours
    else max_member_bound_expiration_hours

abbrev pub role_or_default : CreateInvitationOptions → String
role_or_default opts = if opts.role == "" then "member" else opts.role

abbrev pub membership : CreateInvitationOptions → Bool
membership opts = otherwise true opts.grants_membership

abbrev pub identity : CreateInvitationOptions → Bool
identity opts = membership opts && otherwise true opts.grants_identity

abbrev pub space_use : CreateInvitationOptions → Bool
space_use opts = membership opts && otherwise false opts.grants_space_use

-- What grants an identity or space use has a single use unless it says otherwise.
abbrev pub single_by_default : Bool → Option ℤ → Option ℤ
single_by_default true none = some (pos 1)
single_by_default _ uses = uses

unfoldable pub check_options : CreateInvitationOptions → Result (Unit {0})
check_options opts = do
  guard (is_grantable (role_of (role_or_default opts))) (invalid_invite_role ∷ [])
  guard (is_between (pos 0) (max_expiry opts) opts.expires_in_hours) option_error
  guard (at_least (pos 1) (bound_uses opts)) option_error
  guard (is_between (pos 1) max_membership_duration_hours opts.membership_duration_hours)
      option_error

abbrev pub text_of : Option String → String
text_of none = ""
text_of (some s) = s
