-- ===== src/Event/Authorizer/Targets.antt =====
-- What an authorized event names (AuthorizeEvent in internal/event/event_authorizer.go).
use prappser_spaces.Base.{
  String, ◌≡◌, ◌≢◌, sym, ◌∙◌, ◌⊎◌, inl, inr, true, false, not, Option, none, some, ◌==◌, ◌&&◌,
  arith, eq_iff, In, find, Option-cases,
}
use mathlib.Core.Path.{subst}
use prappser_spaces.Base.Int.{ℤ}
use prappser_spaces.Base.Dict.{get}
use prappser_spaces.Base.Members.{find-some, In-of_filter}
use prappser_spaces.Result.{ok, ◌>>◌, guard, guard-eq-ok, >>-eq-ok, >>-holds}
use prappser_spaces.Application.{Application, Member, User, is_owner, agent_allowed}
use prappser_spaces.Application.Memory.{
  Repository, values, get_application_by_id, get_members_by_application_id, is_member_active,
}
use prappser_spaces.Application.Memory.Members.{IsKeyed, same_member_of_key}
use prappser_spaces.Application.Memory.Sorting.{In-of_sort}
use prappser_spaces.Event.{Event, EventType, member_added, member_removed, member_role_changed}
use prappser_spaces.Event.Validator.Checks.{or_empty}
use prappser_spaces.Event.Authorizer.{
  refused, string_at, find_member, can_manage, is_other_member, authorize_removal,
  authorize_role_change, authorize_type, authorize_member, authorize_event,
}

-- The member as whom the submitter acts.
pub record IsActing (e : Event) (submitter : User) (app : Application) : Type 0 where
  pub actor : Member
  pub found : find_member app submitter.public_key ≡ some actor
  pub agent : agent_allowed app submitter ≡ true
  pub type : authorize_type e.type e.body app submitter actor ≡ ok tt

pub authorized-IsActing :
    (e : Event) (submitter : User) (app : Application)
    → authorize_event e (some submitter) (some app) ≡ ok tt
    → IsActing e submitter app
unfolding authorize_event authorize_member
authorized-IsActing e submitter app h = elim (Option-cases (find_member app submitter.public_key)) [
  | inl n ↦ absurd (ground (arith, n))
  | inr (m, f) ↦
      let allowed = guard (agent_allowed app submitter) refused in
      let h' : (allowed >> authorize_type e.type e.body app submitter m) ≡ ok tt = rw f at h in
      record {
        actor = m;
        found = f;
        agent = guard-eq-ok (agent_allowed app submitter) refused (>>-holds allowed _ h');
        type = >>-eq-ok allowed _ h';
      }
]

removal-other :
    (app : Application) (submitter : User) (m : Member) (key : Option String)
    → authorize_removal app submitter m key ≡ ok tt
    → is_other_member (find_member app (or_empty key)) ≡ true
unfolding authorize_removal
removal-other app submitter m none h = absurd (ground arith)
removal-other app submitter m (some key) h =
    guard-eq-ok (is_other_member (find_member app key)) refused
      (>>-holds (guard (is_other_member (find_member app key)) refused) _ h)

role_change-other :
    (app : Application) (submitter : User) (m : Member) (key old : String)
    → authorize_role_change app submitter m key old ≡ ok tt
    → is_other_member (find_member app key) ≡ true
unfolding authorize_role_change
role_change-other app submitter m key old h =
    let target = guard (is_other_member (find_member app key)) refused in
    let h₁ = >>-eq-ok (guard (can_manage m) refused) _ h in
    let h₂ = >>-eq-ok (guard (not (key == submitter.public_key)) refused) _ h₁ in
    guard-eq-ok (is_other_member (find_member app key)) refused (>>-holds target _ h₂)

pub as_type :
    (e : Event) (submitter : User) (app : Application) (a : IsActing e submitter app)
    (type : EventType)
    → e.type ≡ type
    → authorize_type type e.body app submitter a.actor ≡ ok tt
as_type e submitter app a type t =
    subst (λ z. authorize_type z e.body app submitter a.actor ≡ ok tt) t a.type

-- No member is added by an event.
pub authorized-type :
    (e : Event) (submitter : User) (app : Application)
    → authorize_event e (some submitter) (some app) ≡ ok tt
    → e.type ≢ member_added
unfolding authorize_type
authorized-type e submitter app h t =
    absurd (
      ground
        (arith, as_type e submitter app (authorized-IsActing e submitter app h) member_added t))

-- The member whom an event removes, or gives another role, is active and no owner.
pub authorized-other :
    (e : Event) (submitter : User) (app : Application)
    → authorize_event e (some submitter) (some app) ≡ ok tt
    → (e.type ≡ member_removed) ⊎ (e.type ≡ member_role_changed)
    → is_other_member (find_member app (or_empty (string_at "memberPublicKey" e.body))) ≡ true
unfolding authorize_type
authorized-other e submitter app h (inl t) =
    let a = authorized-IsActing e submitter app h in
    removal-other app submitter a.actor (string_at "memberPublicKey" e.body)
      (as_type e submitter app a member_removed t)
authorized-other e submitter app h (inr t) =
    let a = authorized-IsActing e submitter app h in
    role_change-other app submitter a.actor (or_empty (string_at "memberPublicKey" e.body))
      (or_empty (string_at "oldRole" e.body)) (as_type e submitter app a member_role_changed t)

-- A member of a loaded application is an active row of it.
pub loaded-member :
    (now : ℤ) (id : String) (r : Repository) (app : Application) (m : Member)
    → get_application_by_id now id r ≡ ok app
    → In m app.members
    → In m (values r.members) × (m.application_id ≡ id) × (is_member_active now m ≡ true)
unfolding get_application_by_id get_members_by_application_id
loaded-member now id r app m h i = elim (Option-cases (get id r.applications)) [
  | inl n ↦ absurd (ground (arith, n))
  | inr (x, f) ↦
      let q : app.members ≡ get_members_by_application_id now id r =
        unfold get_members_by_application_id in ground (arith, f) in
      let test = λ (m : Member). m.application_id == id && is_member_active now m in
      let (j, t) =
        In-of_filter test (values r.members) m (In-of_sort _ m _ (subst (λ l. In m l) q i)) in
      (j, ground (arith, t, eq_iff m.application_id id), ground (arith, t))
]

-- The row that an authorized removal or change of role names is no owner's.
pub target-not_owner :
    (now : ℤ) (id : String) (r : Repository) (app : Application) (m : Member)
    → IsKeyed r
    → get_application_by_id now id r ≡ ok app
    → is_other_member (find_member app m.public_key) ≡ true
    → In m (values r.members)
    → m.application_id ≡ id
    → is_owner m.role ≡ false
unfolding find_member
target-not_owner now id r app m k h o i a =
    elim (Option-cases (find (λ (x : Member). x.public_key == m.public_key) app.members)) [
      | inl n ↦ absurd (ground (arith, n))
      | inr (x, f) ↦
          let (j, t) = find-some (λ (x : Member). x.public_key == m.public_key) app.members x f in
          let (row, application, _) = loaded-member now id r app x h j in
          let q : x ≡ m =
            same_member_of_key (values r.members) x m k.differ row i (application ∙ sym a)
              ((eq_iff x.public_key m.public_key).0 t) in
          subst (λ (z : Member). is_owner z.role ≡ false) q (ground (arith, f))
    ]
