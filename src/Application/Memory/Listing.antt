-- ===== src/Application/Memory/Listing.antt =====
-- What is read of applications beside the whole of one (internal/application/memory_repository.go).
pub mod Laws
use prappser_spaces.Base.{
  String, Bool, true, false, ◌&&◌, Option, none, some, List, [], ◌∷◌, ◌==◌, filter, if◌then◌else◌,
}
use prappser_spaces.Base.Dict.{Dict, get, put}
use prappser_spaces.Base.Int.{ℤ, ltb_ℤ}
use prappser_spaces.Result.{Result, ok, err}
use prappser_spaces.Application.{Application, Component, Member}
use prappser_spaces.Application.Memory.{
  Repository, values, is_none, is_member_active, sort_by, get_application_by_id,
}
use prappser_spaces.Application.Memory.Registration.{with_id}

pub record ApplicationState : Type 0 where
  pub id : String
  pub name : String
  pub updated_at : ℤ

-- GetApplicationState, which a deleted application has as well
unfoldable pub get_application_state : String → Repository → Result ApplicationState
get_application_state id r = elim (get id r.applications) [
  | none ↦ err []
  | some app ↦ ok (record { id = app.id; name = app.name; updated_at = app.updated_at })
]

-- UpdateApplicationTimestamp
unfoldable pub update_application_timestamp : ℤ → String → Repository → Result Repository
update_application_timestamp now id r = elim (get id r.applications) [
  | none ↦ err []
  | some app ↦
      ok (record r { applications = put id (record app { updated_at = now }) r.applications })
]

unfoldable pub get_components_by_application_id : String → Repository → List Component
get_components_by_application_id app_id r =
    sort_by (λ a b. ltb_ℤ a.index b.index)
      (filter (λ c. c.application_id == app_id) (values r.components))

unfoldable pub get_member_by_id : String → Repository → Result Member
get_member_by_id id r = elim (get id r.members) [ none ↦ err [] | some m ↦ ok m ]

-- The set of GetApplicationsByMemberPublicKey
unfoldable pub joined_ids : ℤ → String → List Member → List String
joined_ids now key [] = []
joined_ids now key (m ∷ rows) =
    let rest = joined_ids now key rows in
    if m.public_key == key && is_member_active now m then with_id m.application_id rest else rest

abbrev pub with_application : Result Application → List Application → List Application
with_application (err _) apps = apps
with_application (ok app) apps = if is_none app.deleted_at then app ∷ apps else apps

unfoldable pub load_applications : ℤ → Repository → List String → List Application
load_applications now r [] = []
load_applications now r (id ∷ ids) =
    with_application (get_application_by_id now id r) (load_applications now r ids)

-- GetApplicationsByMemberPublicKey, the newest first
unfoldable pub get_applications_by_member_public_key : ℤ → String → Repository → List Application
unfolding joined_ids load_applications
get_applications_by_member_public_key now key r =
    sort_by (λ a b. ltb_ℤ b.created_at a.created_at)
      (load_applications now r (joined_ids now key (values r.members)))
