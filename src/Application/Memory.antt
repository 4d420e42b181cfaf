-- ===== src/Application/Memory.antt =====
-- The application repository, as its in-memory implementation keeps it
-- (internal/application/memory_repository.go). An operation that fails changes nothing, so it
-- returns the new repository or an error. `now` is time.Now().Unix() at the call.
pub mod Members
pub mod Sorting
pub mod Versions
pub mod Registration
pub mod Listing
use prappser_spaces.Base.{
  ℕ, ◌<◌, String, ◌≡◌, refl, Bool, true, false, not, ◌&&◌, ◌||◌, Option, none, some, List, [], ◌∷◌,
  ◌==◌, map, filter, find, any, length, ltb, leb, if◌then◌else◌,
}
use prappser_spaces.Base.Dict.{Dict, get, put, remove}
use prappser_spaces.Base.Int.{ℤ, ltb_ℤ}
use prappser_spaces.Value.{Fields}
use prappser_spaces.Result.{Result, ok, err, not_found}
use prappser_spaces.Application.{
  Role, owner, admin, member, viewer, other, is_owner, Member, Component, ComponentGroup,
  Application,
}

pub record Repository : Type 0 where
  pub applications : Dict Application
  pub groups : Dict ComponentGroup
  pub components : Dict Component
  pub members : Dict Member

-- NewMemoryRepository
abbrev pub new : Repository
new = record { applications = []; groups = []; components = []; members = [] }

abbrev pub is_none {ℓ} : {A : Type ℓ} → Option A → Bool
is_none none = true
is_none (some _) = false

-- isMemberActive
unfoldable pub is_member_active : ℤ → Member → Bool
is_member_active now m = elim m.expires_at [ none ↦ true | some t ↦ ltb_ℤ now t ]

-- The test of the searches by application and public key.
abbrev pub member_of : ℤ → String → String → Member → Bool
member_of now app_id key m =
    m.application_id == app_id && m.public_key == key && is_member_active now m

module _ {ℓ} {V : Type ℓ} where
  abbrev pub values : Dict V → List V
  values [] = []
  values ((k, v) ∷ m) = v ∷ values m

  -- sort.Slice by `lt`; among equals the source leaves the order open, and this one keeps it.
  insert_by : (V → V → Bool) → V → List V → List V
  insert_by lt a [] = a ∷ []
  insert_by lt a (x ∷ xs) = let rest = insert_by lt a xs in if lt x a then x ∷ rest else a ∷ x ∷ xs

  unfoldable pub sort_by : (V → V → Bool) → List V → List V
  unfolding insert_by
  sort_by lt [] = []
  sort_by lt (x ∷ xs) = insert_by lt x (sort_by lt xs)

-- The roleOrder of GetMembersByApplicationID: a role that is not in the map counts as 0.
abbrev pub role_order : Role → ℕ
role_order owner = 0
role_order admin = 1
role_order member = 2
role_order viewer = 3
role_order (other _) = 0

unfoldable pub get_members_by_application_id : ℤ → String → Repository → List Member
get_members_by_application_id now app_id r =
    sort_by (λ a b. ltb (role_order a.role) (role_order b.role))
      (filter (λ m. m.application_id == app_id && is_member_active now m) (values r.members))

unfoldable pub get_groups_by_application_id : String → Repository → List ComponentGroup
get_groups_by_application_id app_id r =
    sort_by (λ a b. ltb_ℤ a.index b.index)
      (filter (λ g. g.application_id == app_id) (values r.groups))

unfoldable pub get_components_by_group_id : String → Repository → List Component
get_components_by_group_id group_id r =
    sort_by (λ a b. ltb_ℤ a.index b.index)
      (filter (λ c. c.group_id == group_id) (values r.components))

abbrev with_components : Repository → ComponentGroup → ComponentGroup
with_components r g = record g { components = get_components_by_group_id g.id r }

-- GetApplicationByID
unfoldable pub get_application_by_id : ℤ → String → Repository → Result Application
get_application_by_id now id r = elim (get id r.applications) [
  | none ↦ err (not_found ∷ [])
  | some app ↦
      if is_none app.deleted_at
      then ok (record app {
        groups = map (with_components r) (get_groups_by_application_id id r);
        members = get_members_by_application_id now id r;
      })
      else err (not_found ∷ [])
]

unfoldable pub set_agent_read_enabled : String → Bool → Repository → Result Repository
set_agent_read_enabled id enabled r = elim (get id r.applications) [
  | none ↦ err (not_found ∷ [])
  | some app ↦
      if is_none app.deleted_at
      then ok (record r {
        applications = put id (record app { agent_read_enabled = enabled }) r.applications;
      })
      else err (not_found ∷ [])
]

unfoldable pub update_application_metadata :
    ℤ → String → String → Option String → Repository → Result Repository
update_application_metadata now id name icon r = elim (get id r.applications) [
  | none ↦ err []
  | some app ↦
      if is_none app.deleted_at
      then ok (record r {
        applications =
            put id (record app { name = name; icon = icon; updated_at = now }) r.applications;
      })
      else err []
]

unfoldable pub delete_application : ℤ → String → Repository → Result Repository
delete_application now id r = elim (get id r.applications) [
  | none ↦ err []
  | some app ↦
      ok (record r { applications = put id (record app { deleted_at = some now }) r.applications })
]

-- `app.LastSequence == nil || sequence > *app.LastSequence`
abbrev is_higher : ℕ → Option ℕ → Bool
is_higher seq none = true
is_higher seq (some n) = ltb n seq

-- UpdateLastSequence
unfoldable pub update_last_sequence : ℤ → String → ℕ → Repository → Result Repository
update_last_sequence now id seq r = elim (get id r.applications) [
  | none ↦ err []
  | some app ↦
      if is_none app.deleted_at
      then ok (record r {
        applications =
            put id
              (record app {
                last_sequence =
                    if is_higher seq app.last_sequence then some seq else app.last_sequence;
                updated_at = now;
              })
              r.applications;
      })
      else err []
]

unfoldable pub create_component_group : ComponentGroup → Repository → Result Repository
create_component_group g r = ok (record r { groups = put g.id g r.groups })

unfoldable pub create_component : Component → Repository → Result Repository
create_component c r = ok (record r { components = put c.id c r.components })

unfoldable pub get_component_by_id : String → Repository → Result Component
get_component_by_id id r = elim (get id r.components) [
  | none ↦ err (not_found ∷ [])
  | some c ↦ ok c
]

unfoldable pub update_component_data : String → Option Fields → Repository → Result Repository
update_component_data id content r = elim (get id r.components) [
  | none ↦ err []
  | some c ↦ ok (record r { components = put id (record c { content = content }) r.components })
]

unfoldable pub update_component_index : String → ℤ → Repository → Result Repository
update_component_index id index r = elim (get id r.components) [
  | none ↦ err []
  | some c ↦ ok (record r { components = put id (record c { index = index }) r.components })
]

unfoldable pub delete_component : String → Repository → Result Repository
delete_component id r = elim (get id r.components) [
  | none ↦ err []
  | some c ↦ ok (record r { components = remove id r.components })
]

unfoldable pub get_component_group_by_id : String → Repository → Result ComponentGroup
get_component_group_by_id id r = elim (get id r.groups) [
  | none ↦ err (not_found ∷ [])
  | some g ↦ ok g
]

unfoldable pub update_component_group_index : String → ℤ → Repository → Result Repository
update_component_group_index id index r = elim (get id r.groups) [
  | none ↦ err []
  | some g ↦ ok (record r { groups = put id (record g { index = index }) r.groups })
]

unfoldable pub update_component_group : String → String → ℤ → Repository → Result Repository
update_component_group id name index r = elim (get id r.groups) [
  | none ↦ err []
  | some g ↦ ok (record r { groups = put id (record g { name = name; index = index }) r.groups })
]

-- The loops of DeleteComponentGroup: the components whose group it is are deleted.
remove_components : String → Dict Component → Dict Component
remove_components group_id [] = []
remove_components group_id ((id, c) ∷ m) =
    let rest = remove_components group_id m in
    if c.group_id == group_id then rest else (id, c) ∷ rest

unfoldable pub delete_component_group : String → Repository → Result Repository
unfolding remove_components
delete_component_group id r = elim (get id r.groups) [
  | none ↦ err []
  | some g ↦
      ok (record r { components = remove_components id r.components; groups = remove id r.groups })
]

-- The loop of CreateMember: the row of the same application and key is updated in place.
same_member : Member → Member → Bool
same_member m existing =
    existing.application_id == m.application_id && existing.public_key == m.public_key

update_member : Member → Dict Member → Option (Dict Member)
unfolding same_member
update_member m [] = none
update_member m ((id, existing) ∷ rest) =
    let later = update_member m rest in
    if same_member m existing
    then some ((id, record existing { role = m.role; expires_at = m.expires_at }) ∷ rest)
    else elim later [ none ↦ none | some rest' ↦ some ((id, existing) ∷ rest') ]

unfoldable pub create_member : Member → Repository → Result Repository
unfolding update_member
create_member m r = elim (update_member m r.members) [
  | none ↦ ok (record r { members = put m.id m r.members })
  | some updated ↦ ok (record r { members = updated })
]

unfoldable pub update_member_role : String → Role → Repository → Result Repository
update_member_role id role r = elim (get id r.members) [
  | none ↦ err []
  | some m ↦ ok (record r { members = put id (record m { role = role }) r.members })
]

unfoldable pub delete_member : String → Repository → Result Repository
delete_member id r = elim (get id r.members) [
  | none ↦ err []
  | some m ↦ ok (record r { members = remove id r.members })
]

unfoldable pub get_member_by_public_key : ℤ → String → String → Repository → Result Member
get_member_by_public_key now app_id key r =
    elim (find (member_of now app_id key) (values r.members)) [
      | none ↦ err (not_found ∷ [])
      | some m ↦ ok m
    ]

unfoldable pub is_member : ℤ → String → String → Repository → Bool
is_member now app_id key r = any (member_of now app_id key) (values r.members)

unfoldable pub get_member_count : ℤ → String → Repository → ℕ
get_member_count now app_id r =
    length (filter (λ m. m.application_id == app_id && is_member_active now m) (values r.members))
