-- ===== src/Event/Service/Execute/Keeps.antt =====
-- The changes of an edit-mode save leave the members as they are.
use prappser_spaces.Base.{
  String, ◌≡◌, refl, sym, ◌∙◌, Bool, true, false, ap, Option, none, some, [], arith, any, ◌&&◌,
  if◌then◌else◌,
}
use prappser_spaces.Base.Int.{ℤ}
use prappser_spaces.Base.Dict.{get}
use prappser_spaces.Value.{Fields, Items, end, item, read, as_fields}
use prappser_spaces.Result.{Result, ok, err, ◌>>=◌, >>=-eq-ok, Error, is_unappliable}
use prappser_spaces.Application.Memory.{
  Repository, update_component_data, create_component, create_component_group, delete_component,
  delete_component_group, update_component_index, update_component_group_index,
  update_component_group, get_component_by_id, get_component_group_by_id,
}
use prappser_spaces.Event.Validator.{
  ChangeType, component_added, component_removed, component_reordered, component_data_delta,
  group_added, group_removed, group_reordered, group_changed, other_change, change_type_of,
}
use prappser_spaces.Event.Service.Execute.Fields.{get_string, get_int}
use prappser_spaces.Event.Service.Execute.Structure.{
  change_component, component_in_app, group_in_app, upsert_target, object_or_error,
  execute_component_added, execute_component_group_added, execute_component_data_delta,
  change_group, apply_change, skip_stale, is_tolerant, step_change, apply_changes,
}

-- The members are the same.
abbrev pub Keeps : Repository → Result Repository → Type 0
Keeps r m = (r' : Repository) → m ≡ ok r' → r'.members ≡ r.members

pub Keeps-bind :
    {A : Type 0} (r : Repository) (m : Result A) (f : A → Result Repository)
    → ((a : A) → Keeps r (f a))
    → Keeps r (m >>= f)
Keeps-bind r m f k r' h = let (a, _, q) = >>=-eq-ok m f h in k a r' q

pub Keeps-found :
    {A : Type 0} (r : Repository) (found : Option A) (f : A → Result Repository)
    → ((a : A) → Keeps r (f a))
    → Keeps r (elim found [ none ↦ err [] | some a ↦ f a ])
Keeps-found r none f k r' h = absurd (ground arith)
Keeps-found r (some a) f k r' h = k a r' h

pub Keeps-ok : (r r₁ : Repository) → r₁.members ≡ r.members → Keeps r (ok r₁)
Keeps-ok r r₁ q r' h = sym (ap (λ (z : Repository). z.members) (unwrap h)) ∙ q
  where
    unwrap : ok r₁ ≡ ok r' → r₁ ≡ r'
    unwrap h = ground arith

pub err≢ok : {e : Error} {r : Repository} → err e ≡ ok r → ⊥
err≢ok h = ground arith

pub Keeps-if :
    (b : Bool) (r : Repository) (m : Result Repository) (x : Error)
    → Keeps r m
    → Keeps r (if b then m else err x)
Keeps-if true r m x k = k
Keeps-if false r m x k = λ r' h. absurd (err≢ok h)

update_component_data-Keeps :
    (id : String) (content : Option Fields) (r : Repository)
    → Keeps r (update_component_data id content r)
unfolding update_component_data
update_component_data-Keeps id content r =
    Keeps-found r (get id r.components) _ (λ c. Keeps-ok r _ refl)

update_component_index-Keeps :
    (id : String) (index : ℤ) (r : Repository) → Keeps r (update_component_index id index r)
unfolding update_component_index
update_component_index-Keeps id index r =
    Keeps-found r (get id r.components) _ (λ c. Keeps-ok r _ refl)

update_component_group_index-Keeps :
    (id : String) (index : ℤ) (r : Repository) → Keeps r (update_component_group_index id index r)
unfolding update_component_group_index
update_component_group_index-Keeps id index r =
    Keeps-found r (get id r.groups) _ (λ c. Keeps-ok r _ refl)

delete_component-Keeps : (id : String) (r : Repository) → Keeps r (delete_component id r)
unfolding delete_component
delete_component-Keeps id r = Keeps-found r (get id r.components) _ (λ c. Keeps-ok r _ refl)

delete_component_group-Keeps :
    (id : String) (r : Repository) → Keeps r (delete_component_group id r)
unfolding delete_component_group
delete_component_group-Keeps id r = Keeps-found r (get id r.groups) _ (λ c. Keeps-ok r _ refl)

update_component_group-Keeps :
    (id name : String) (index : ℤ) (r : Repository)
    → Keeps r (update_component_group id name index r)
unfolding update_component_group
update_component_group-Keeps id name index r =
    Keeps-found r (get id r.groups) _ (λ g. Keeps-ok r _ refl)

pub change_component-Keeps :
    (app_id id : String) (changes : Fields) (r : Repository)
    → Keeps r (change_component app_id id changes r)
unfolding change_component
change_component-Keeps app_id id changes r =
    Keeps-bind r (component_in_app app_id id r) _ (λ c. update_component_data-Keeps id _ r)

execute_component_added-Keeps :
    (app_id : String) (change : Fields) (r : Repository)
    → Keeps r (execute_component_added app_id change r)
unfolding execute_component_added create_component
execute_component_added-Keeps app_id change r =
    Keeps-bind r (object_or_error (as_fields (read "data" change)) []) _ (λ m.
      Keeps-bind r
        (upsert_target app_id m
          (get_component_by_id (get_string "id" m) r >>= λ c. ok c.application_id))
        _
        (λ u.
          Keeps-bind r (group_in_app app_id (get_string "componentGroupId" m) r) _
            (λ g. Keeps-ok r _ refl)))

execute_component_group_added-Keeps :
    (app_id : String) (change : Fields) (r : Repository)
    → Keeps r (execute_component_group_added app_id change r)
unfolding execute_component_group_added create_component_group
execute_component_group_added-Keeps app_id change r =
    Keeps-bind r (object_or_error (as_fields (read "data" change)) []) _ (λ m.
      Keeps-bind r
        (upsert_target app_id m
          (get_component_group_by_id (get_string "id" m) r >>= λ g. ok g.application_id))
        _ (λ u. Keeps-ok r _ refl))

execute_component_data_delta-Keeps :
    (app_id id : String) (change : Fields) (r : Repository)
    → Keeps r (execute_component_data_delta app_id id change r)
unfolding execute_component_data_delta
execute_component_data_delta-Keeps app_id id change r =
    Keeps-bind r (object_or_error (as_fields (read "changedFields" change)) []) _
      (λ m. change_component-Keeps app_id id m r)

apply_change-Keeps :
    (type : ChangeType) (app_id id : String) (change : Fields) (r : Repository)
    → Keeps r (apply_change type app_id id change r)
unfolding apply_change change_group
apply_change-Keeps component_added app_id id change r =
    execute_component_added-Keeps app_id change r
apply_change-Keeps component_removed app_id id change r =
    Keeps-bind r (component_in_app app_id id r) _ (λ c. delete_component-Keeps id r)
apply_change-Keeps component_reordered app_id id change r =
    Keeps-bind r (component_in_app app_id id r) _
      (λ c. update_component_index-Keeps id (get_int "index" change) r)
apply_change-Keeps component_data_delta app_id id change r =
    execute_component_data_delta-Keeps app_id id change r
apply_change-Keeps group_added app_id id change r =
    execute_component_group_added-Keeps app_id change r
apply_change-Keeps group_removed app_id id change r =
    Keeps-bind r (group_in_app app_id id r) _ (λ g. delete_component_group-Keeps id r)
apply_change-Keeps group_reordered app_id id change r =
    Keeps-bind r (group_in_app app_id id r) _
      (λ g. update_component_group_index-Keeps id (get_int "index" change) r)
apply_change-Keeps group_changed app_id id change r =
    Keeps-bind r (group_in_app app_id id r) _ (λ g. update_component_group-Keeps id _ _ r)
apply_change-Keeps other_change app_id id change r = λ r' h. absurd (err≢ok h)

skipped : (b : Bool) (r : Repository) (e : Error) → Keeps r (if b then ok r else err e)
skipped true r e = Keeps-ok r r refl
skipped false r e = λ r' h. absurd (err≢ok h)

skip_stale-Keeps :
    (tolerant : Bool) (r : Repository) (m : Result Repository)
    → Keeps r m
    → Keeps r (skip_stale tolerant r m)
unfolding skip_stale
skip_stale-Keeps tolerant r (ok r₁) k = k
skip_stale-Keeps tolerant r (err e) k = skipped (tolerant && any is_unappliable e) r e

step_change-Keeps :
    (app_id : String) (change : Option Fields) (r : Repository)
    → Keeps r (step_change app_id change r)
unfolding step_change
step_change-Keeps app_id none r = λ r' h. absurd (err≢ok h)
step_change-Keeps app_id (some change) r =
    let type = change_type_of (get_string "changeType" change) in
    let id = get_string "entityId" change in
    skip_stale-Keeps (is_tolerant type) r (apply_change type app_id id change r)
      (apply_change-Keeps type app_id id change r)

pub apply_changes-Keeps :
    (app_id : String) (l : Items) (r : Repository) → Keeps r (apply_changes app_id l r)
unfolding apply_changes
apply_changes-Keeps app_id end r = Keeps-ok r r refl
apply_changes-Keeps app_id (item v l) r = λ r' h.
    let (r₁, p, q) =
      >>=-eq-ok (step_change app_id (as_fields v) r) (λ r₂. apply_changes app_id l r₂) h in
    apply_changes-Keeps app_id l r₁ r' q ∙ step_change-Keeps app_id (as_fields v) r r₁ p
