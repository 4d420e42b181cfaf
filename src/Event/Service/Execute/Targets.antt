-- ===== src/Event/Service/Execute/Targets.antt =====
-- What the execution of an event does to the members: nothing, or one row of them goes or changes
-- its role, and which one it is.
use prappser_spaces.Base.{
  String, ◌≡◌, ◌≢◌, refl, inl, inr, Option, none, some, [], ◌∷◌, arith, Option-cases, find, In,
  eq_iff,
}
use prappser_spaces.Base.Int.{ℤ}
use prappser_spaces.Base.Dict.{get, put, remove}
use prappser_spaces.Base.Members.{find-some}
use prappser_spaces.Value.{Items, as_fields, as_items}
use prappser_spaces.Result.{Result, ok, err, validation, >>=-eq-ok}
use prappser_spaces.Application.{Member, Role, role_of}
use prappser_spaces.Application.Memory.{
  Repository, values, member_of, get_member_by_public_key, delete_member, update_member_role,
  update_application_metadata, delete_application,
}
use prappser_spaces.Event.{
  Event, EventType, member_added, member_removed, member_role_changed, application_data_changed,
  application_deleted, application_moved, invite_revoked, component_data_changed,
  application_after_edit_mode_changed, user_settings_changed, member_details_changed,
  application_created, application_file_created, application_file_deleted, reminder_changed,
  reminder_fired, template_changed, space_profile_changed, unknown,
}
use prappser_spaces.Event.Authorizer.{string_at}
use prappser_spaces.Event.Validator.Checks.{or_empty}
use prappser_spaces.Event.Service.Execute.{
  Context, execute_event, dispatch, execute_member_removed, execute_member_role_changed,
  execute_application_data_changed, execute_application_deleted, execute_component_data_changed,
  execute_reminder_changed, execute_application_after_edit_mode_changed, apply_rule, change_list,
  remove_found, change_found, as_validation,
}
use prappser_spaces.Event.Service.Execute.Fields.{nonempty, value_at}
use prappser_spaces.Event.Service.Execute.Structure.{object_or_error, or_no_fields}
use prappser_spaces.Event.Service.Execute.Keeps.{
  Keeps, Keeps-bind, Keeps-found, Keeps-if, Keeps-ok, err≢ok, change_component-Keeps,
  apply_changes-Keeps,
}

-- `m` is the row that an event names by the application and the key of its data.
pub record IsTarget (now : ℤ) (e : Event) (r : Repository) (m : Member) : Type 0 where
  pub row : In m (values r.members)
  pub application : m.application_id ≡ or_empty (string_at "applicationId" e.body)
  pub key : m.public_key ≡ or_empty (string_at "memberPublicKey" e.body)

pub data MemberStep (now : ℤ) (e : Event) (r r' : Repository) : Type 0 where
  kept : r'.members ≡ r.members → MemberStep now e r r'
  removed :
      (m : Member)
      → IsTarget now e r m
      → e.type ≡ member_removed
      → r'.members ≡ remove m.id r.members
      → MemberStep now e r r'
  changed :
      (m : Member)
      → IsTarget now e r m
      → e.type ≡ member_role_changed
      → (role : Role) → (row : Member) → get m.id r.members ≡ some row
      → r'.members ≡ put m.id (record row { role = role }) r.members
      → MemberStep now e r r'

nonempty-ok : (s : Option String) {t : String} → nonempty s ≡ ok t → or_empty s ≡ t
unfolding nonempty
nonempty-ok none h = absurd (ground arith)
nonempty-ok (some s) h = ground arith

found-IsTarget :
    (now : ℤ) (e : Event) (r : Repository) (app_id key : String) (m : Member)
    → nonempty (string_at "applicationId" e.body) ≡ ok app_id
    → nonempty (string_at "memberPublicKey" e.body) ≡ ok key
    → get_member_by_public_key now app_id key r ≡ ok m
    → IsTarget now e r m
unfolding get_member_by_public_key
found-IsTarget now e r app_id key m ha hk h =
    elim (Option-cases (find (member_of now app_id key) (values r.members))) [
      | inl n ↦ absurd (ground (arith, n))
      | inr (x, f) ↦
          let (i, t) =
            find-some (member_of now app_id key) (values r.members) m (ground (arith, f)) in
          let a = nonempty-ok (string_at "applicationId" e.body) ha in
          let k = nonempty-ok (string_at "memberPublicKey" e.body) hk in
          record {
            row = i;
            application = ground (arith, t, a, eq_iff m.application_id app_id);
            key = ground (arith, t, k, eq_iff m.public_key key);
          }
    ]

-- The rest of member_removed and member_role_changed, behind the lookup.
removed-MemberStep :
    (now : ℤ) (e : Event) (r r' : Repository) (found : Result Member)
    → ((m : Member) → found ≡ ok m → IsTarget now e r m)
    → e.type ≡ member_removed
    → remove_found r found ≡ ok r'
    → MemberStep now e r r'
unfolding remove_found delete_member
removed-MemberStep now e r r' (ok m) t type h = elim (Option-cases (get m.id r.members)) [
  | inl n ↦ absurd (ground (arith, n))
  | inr (x, f) ↦ removed m (t m refl) type (ground (arith, f))
]
removed-MemberStep now e r r' (err x) t type h = kept (ground arith)

changed-MemberStep :
    (now : ℤ) (e : Event) (r r' : Repository) (role : String) (found : Result Member)
    → ((m : Member) → found ≡ ok m → IsTarget now e r m)
    → e.type ≡ member_role_changed
    → change_found r role found ≡ ok r'
    → MemberStep now e r r'
unfolding change_found update_member_role
changed-MemberStep now e r r' role (ok m) t type h = elim (Option-cases (get m.id r.members)) [
  | inl n ↦ absurd (ground (arith, n))
  | inr (x, f) ↦ changed m (t m refl) type (role_of role) x f (ground (arith, f))
]
changed-MemberStep now e r r' role (err x) t type h = absurd (ground arith)

execute_member_removed-MemberStep :
    (c : Context) (e : Event) (r r' : Repository)
    → e.type ≡ member_removed
    → execute_member_removed c e r ≡ ok r'
    → MemberStep c.now e r r'
unfolding execute_member_removed
execute_member_removed-MemberStep c e r r' type h =
    let (a, ha, h₁) = >>=-eq-ok (nonempty (string_at "applicationId" e.body)) _ h in
    let (k, hk, h₂) = >>=-eq-ok (nonempty (string_at "memberPublicKey" e.body)) _ h₁ in
    removed-MemberStep c.now e r r' (get_member_by_public_key c.now a k r)
      (λ m f. found-IsTarget c.now e r a k m ha hk f) type h₂

execute_member_role_changed-MemberStep :
    (c : Context) (e : Event) (r r' : Repository)
    → e.type ≡ member_role_changed
    → execute_member_role_changed c e r ≡ ok r'
    → MemberStep c.now e r r'
unfolding execute_member_role_changed
execute_member_role_changed-MemberStep c e r r' type h =
    let (a, ha, h₁) = >>=-eq-ok (nonempty (string_at "applicationId" e.body)) _ h in
    let (k, hk, h₂) = >>=-eq-ok (nonempty (string_at "memberPublicKey" e.body)) _ h₁ in
    let (role, hr, h₃) = >>=-eq-ok (nonempty (string_at "newRole" e.body)) _ h₂ in
    changed-MemberStep c.now e r r' role (get_member_by_public_key c.now a k r)
      (λ m f. found-IsTarget c.now e r a k m ha hk f) type h₃

execute_application_data_changed-Keeps :
    (c : Context) (e : Event) (r : Repository) → Keeps r (execute_application_data_changed c e r)
unfolding execute_application_data_changed update_application_metadata
execute_application_data_changed-Keeps c e r =
    Keeps-bind r (nonempty (string_at "applicationId" e.body)) _ (λ a.
      Keeps-bind r (nonempty (string_at "name" e.body)) _ (λ n.
        Keeps-found r (get a r.applications) _ (λ app. Keeps-if _ r _ [] (Keeps-ok r _ refl))))

execute_application_deleted-Keeps :
    (c : Context) (e : Event) (r : Repository) → Keeps r (execute_application_deleted c e r)
unfolding execute_application_deleted delete_application
execute_application_deleted-Keeps c e r =
    Keeps-bind r (nonempty (string_at "applicationId" e.body)) _
      (λ a. Keeps-found r (get a r.applications) _ (λ app. Keeps-ok r _ refl))

execute_component_data_changed-Keeps :
    (c : Context) (e : Event) (r : Repository) → Keeps r (execute_component_data_changed c e r)
unfolding execute_component_data_changed
execute_component_data_changed-Keeps c e r =
    Keeps-bind r (as_validation (nonempty (string_at "componentId" e.body))) _ (λ id.
      Keeps-bind r (object_or_error (as_fields (value_at "changedFields" e.body)) (validation ∷ []))
        _ (λ changes. change_component-Keeps e.application_id id changes r))

execute_reminder_changed-Keeps :
    (c : Context) (e : Event) (r : Repository) → Keeps r (execute_reminder_changed c e r)
unfolding execute_reminder_changed
execute_reminder_changed-Keeps c e r =
    Keeps-bind r (apply_rule c.reminders (or_no_fields e.body)) _ (λ u. Keeps-ok r r refl)

change_list-Keeps :
    (l : Option Items) (app_id : String) (r : Repository) → Keeps r (change_list l app_id r)
unfolding change_list
change_list-Keeps none app_id r = λ r' h. absurd (err≢ok h)
change_list-Keeps (some l) app_id r = apply_changes-Keeps app_id l r

execute_edit-Keeps :
    (c : Context) (e : Event) (r : Repository)
    → Keeps r (execute_application_after_edit_mode_changed c e r)
unfolding execute_application_after_edit_mode_changed
execute_edit-Keeps c e r =
    change_list-Keeps (as_items (value_at "changes" e.body)) e.application_id r

-- An execution of any type but member_added.
dispatch-MemberStep :
    (type : EventType) (c : Context) (e : Event) (r r' : Repository)
    → e.type ≡ type
    → type ≢ member_added
    → dispatch type c e r ≡ ok r'
    → MemberStep c.now e r r'
unfolding dispatch
dispatch-MemberStep member_added c e r r' t n h = absurd (n refl)
dispatch-MemberStep member_removed c e r r' t n h = execute_member_removed-MemberStep c e r r' t h
dispatch-MemberStep application_deleted c e r r' t n h =
    kept (execute_application_deleted-Keeps c e r r' h)
dispatch-MemberStep member_role_changed c e r r' t n h =
    execute_member_role_changed-MemberStep c e r r' t h
dispatch-MemberStep component_data_changed c e r r' t n h =
    kept (execute_component_data_changed-Keeps c e r r' h)
dispatch-MemberStep application_after_edit_mode_changed c e r r' t n h =
    kept (execute_edit-Keeps c e r r' h)
dispatch-MemberStep reminder_changed c e r r' t n h =
    kept (execute_reminder_changed-Keeps c e r r' h)
dispatch-MemberStep application_data_changed c e r r' t n h =
    kept (execute_application_data_changed-Keeps c e r r' h)
dispatch-MemberStep application_moved c e r r' t n h = kept (Keeps-ok r r refl r' h)
dispatch-MemberStep invite_revoked c e r r' t n h = kept (Keeps-ok r r refl r' h)
dispatch-MemberStep user_settings_changed c e r r' t n h = kept (Keeps-ok r r refl r' h)
dispatch-MemberStep member_details_changed c e r r' t n h = kept (Keeps-ok r r refl r' h)
dispatch-MemberStep application_created c e r r' t n h = kept (Keeps-ok r r refl r' h)
dispatch-MemberStep application_file_created c e r r' t n h = kept (Keeps-ok r r refl r' h)
dispatch-MemberStep application_file_deleted c e r r' t n h = kept (Keeps-ok r r refl r' h)
dispatch-MemberStep reminder_fired c e r r' t n h = kept (Keeps-ok r r refl r' h)
dispatch-MemberStep template_changed c e r r' t n h = kept (Keeps-ok r r refl r' h)
dispatch-MemberStep space_profile_changed c e r r' t n h = kept (Keeps-ok r r refl r' h)
dispatch-MemberStep (unknown u) c e r r' t n h = kept (Keeps-ok r r refl r' h)

pub execute-MemberStep :
    (c : Context) (e : Event) (r r' : Repository)
    → e.type ≢ member_added
    → execute_event c e r ≡ ok r'
    → MemberStep c.now e r r'
unfolding execute_event
execute-MemberStep c e r r' n h = dispatch-MemberStep e.type c e r r' refl n h
