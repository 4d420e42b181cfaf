-- ===== src/Application/Memory/Registration.antt =====
-- Registering an application, and the questions that are asked before (RegisterApplication,
-- HasOtherOwner, IsApplicationLive and CountOwnedApplications in
-- internal/application/memory_repository.go).
use prappser_spaces.Base.{
  ℕ, String, Bool, true, false, not, ◌&&◌, ◌||◌, Option, none, some, List, [], ◌∷◌, ◌==◌, any,
  length, if◌then◌else◌,
}
use prappser_spaces.Base.Dict.{Dict, get, put}
use prappser_spaces.Base.Int.{ℤ}
use prappser_spaces.Result.{Result, ok, err}
use prappser_spaces.Application.{Application, Component, ComponentGroup, Member, is_owner}
use prappser_spaces.Application.Memory.{
  Repository, values, is_none, is_member_active, create_member, create_component_group,
  create_component,
}

-- An id that is missing fails the registration before anything is written.
abbrev lacks_id : ComponentGroup → Bool
lacks_id g = g.id == "" || any (λ c. c.id == "") g.components

unfoldable pub is_unnamed : Application → Bool
is_unnamed app = any (λ m. m.id == "") app.members || any lacks_id app.groups

abbrev reads_agents : Option Application → Bool
reads_agents none = true
reads_agents (some existing) = existing.agent_read_enabled

-- The row of an application: a new one may be read by agents, a known one keeps its setting.
unfoldable pub stored_application : Application → Repository → Application
stored_application app r = record app {
  members = [];
  groups = [];
  agent_read_enabled = reads_agents (get app.id r.applications);
}

-- `_ = r.CreateMember(m)` and the like
abbrev ignoring : Repository → Result Repository → Repository
ignoring r (ok r') = r'
ignoring r (err _) = r

add_members : String → List Member → Repository → Repository
add_members app_id [] r = r
add_members app_id (m ∷ l) r =
    add_members app_id l (ignoring r (create_member (record m { application_id = app_id }) r))

add_groups : String → List ComponentGroup → Repository → Repository
add_groups app_id [] r = r
add_groups app_id (g ∷ l) r =
    add_groups app_id l (
      ignoring r (create_component_group (record g { application_id = app_id; components = [] }) r))

add_components : String → String → List Component → Repository → Repository
add_components app_id group_id [] r = r
add_components app_id group_id (c ∷ l) r =
    add_components app_id group_id l
      (ignoring r (create_component (record c { group_id = group_id; application_id = app_id }) r))

add_all_components : String → List ComponentGroup → Repository → Repository
unfolding add_components
add_all_components app_id [] r = r
add_all_components app_id (g ∷ l) r =
    add_all_components app_id l (add_components app_id g.id g.components r)

unfoldable pub register_application : Application → Repository → Result Repository
unfolding add_members add_groups add_all_components stored_application
register_application app r =
    if is_unnamed app
    then err []
    else ok (
        add_all_components app.id app.groups (
          add_groups app.id app.groups (
            add_members app.id app.members
              (record r { applications = put app.id (stored_application app r) r.applications }))))

-- HasOtherOwner, which counts members whose membership has expired as well
unfoldable pub has_other_owner : String → String → Repository → Bool
has_other_owner app_id key r =
    any (λ m. m.application_id == app_id && is_owner m.role && not (m.public_key == key))
      (values r.members)

abbrev pub is_live_row : Option Application → Bool
is_live_row none = false
is_live_row (some app) = is_none app.deleted_at

unfoldable pub is_application_live : String → Repository → Bool
is_application_live id r = is_live_row (get id r.applications)

-- owned[id] = true
abbrev pub with_id : String → List String → List String
with_id id ids = if any (λ j. j == id) ids then ids else id ∷ ids

abbrev owned_id : Option Application → List String → List String
owned_id none ids = ids
owned_id (some app) ids = if is_none app.deleted_at then with_id app.id ids else ids

owned_ids : ℤ → String → Dict Application → List Member → List String
owned_ids now key apps [] = []
owned_ids now key apps (m ∷ rows) =
    let rest = owned_ids now key apps rows in
    if m.public_key == key && is_owner m.role && is_member_active now m
    then owned_id (get m.application_id apps) rest
    else rest

unfoldable pub count_owned_applications : ℤ → String → Repository → ℕ
unfolding owned_ids
count_owned_applications now key r = length (owned_ids now key r.applications (values r.members))
