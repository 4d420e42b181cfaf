-- ===== src/Application.antt =====
-- The application's data (internal/application/application.go), and the parts of a user that
-- authorization reads (internal/user/user.go).
pub mod Memory
use prappser_spaces.Base.{
  ℕ, String, ◌≡◌, refl, Bool, true, false, not, ◌&&◌, ◌||◌, Option, none, some, List, [], ◌∷◌, ◌==◌,
  find, if◌then◌else◌,
}
use prappser_spaces.Base.Int.{ℤ}
use prappser_spaces.Value.{Fields}
use prappser_spaces.Result.{Result, ok, err}

-- MemberRole is a string; `other` is any string but the four constants.
pub data Role : Type 0 where
  owner admin member viewer : Role
  other : String → Role

-- MemberRole(s)
unfoldable pub role_of : String → Role
role_of s =
    if s == "owner"
    then owner
    else if s == "admin"
    then admin
    else if s == "member"
    then member
    else if s == "viewer"
    then viewer
    else other s

abbrev pub is_owner : Role → Bool
is_owner owner = true
is_owner _ = false

abbrev pub is_admin : Role → Bool
is_admin admin = true
is_admin _ = false

-- r == s, on the strings
unfoldable pub role_eq : Role → Role → Bool
role_eq owner owner = true
role_eq admin admin = true
role_eq member member = true
role_eq viewer viewer = true
role_eq (other a) (other b) = a == b
role_eq _ _ = false

-- IsGrantable
unfoldable pub is_grantable : Role → Bool
is_grantable admin = true
is_grantable member = true
is_grantable viewer = true
is_grantable _ = false

pub record Member : Type 0 where
  pub id : String
  pub application_id : String
  pub role : Role
  pub public_key : String
  pub display_name : Option String
  pub avatar_storage_id : Option String
  pub expires_at : Option ℤ

pub record Component : Type 0 where
  pub id : String
  pub group_id : String
  pub application_id : String
  pub name : String
  pub content : Option Fields
  pub index : ℤ

pub record ComponentGroup : Type 0 where
  pub id : String
  pub application_id : String
  pub name : String
  pub index : ℤ
  pub components : List Component

pub record Application : Type 0 where
  pub id : String
  pub name : String
  pub icon : Option String
  pub space_public_key : Option String
  pub space_id : Option String
  pub created_at : ℤ
  pub updated_at : ℤ
  pub deleted_at : Option ℤ
  pub groups : List ComponentGroup
  pub members : List Member
  pub last_sequence : Option ℕ
  pub agent_read_enabled : Bool

-- The fields of a User that the events and the hub read.
pub record User : Type 0 where
  pub public_key : String
  pub role : String
  pub space_id : String
  pub device_public_key : String
  pub agent : Bool

-- GetOwner
unfoldable pub get_owner : Application → Option Member
get_owner app = find (λ m. is_owner m.role) app.members

owned_by : Option Member → String → Bool
owned_by none key = false
owned_by (some m) key = m.public_key == key

-- AgentAllowed
unfoldable pub agent_allowed : Application → User → Bool
unfolding get_owner owned_by
agent_allowed app caller =
    if not caller.agent || app.agent_read_enabled
    then true
    else owned_by (get_owner app) caller.public_key
