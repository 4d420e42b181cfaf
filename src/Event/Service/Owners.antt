-- ===== src/Event/Service/Owners.antt =====
-- Owners are safe from events: what a submitted event does to the rows of the members.
use prappser_spaces.Base.{
  ℕ, String, ◌≡◌, ◌≢◌, refl, sym, ◌∙◌, ◌⊎◌, inl, inr, Bool, true, false, ap, not, [], ◌==◌, arith,
  In, Bool-cases, if◌then◌else◌,
}
use mathlib.Core.Path.{subst}
use prappser_spaces.Base.Int.{ℤ}
use prappser_spaces.Base.Dict.{get}
use prappser_spaces.Result.{Result, ok, err}
use prappser_spaces.Application.{Member, User, is_owner}
use prappser_spaces.Application.Memory.{Repository, values, update_last_sequence}
use prappser_spaces.Application.Memory.Members.{IsKeyed}
use prappser_spaces.Application.Memory.Members.Owners.{
  OwnersKept, same-OwnersKept, removed-OwnersKept, changed-OwnersKept, then_same,
}
use prappser_spaces.Event.{
  Event, EventType, is_user_scoped, member_added, member_removed, member_role_changed,
}
use prappser_spaces.Event.Authorizer.{string_at, find_member, is_other_member}
use prappser_spaces.Event.Authorizer.Targets.{authorized-type, authorized-other, target-not_owner}
use prappser_spaces.Event.Validator.Checks.{or_empty}
use prappser_spaces.Event.Store.{Store, completed}
use prappser_spaces.Event.Service.Execute.Targets.{
  IsTarget, MemberStep, kept, removed, changed, execute-MemberStep,
}
use prappser_spaces.Event.Service.Execute.Keeps.{Keeps, Keeps-found, Keeps-if, Keeps-ok}
use prappser_spaces.Event.Service.Persist.{Environment, update_app_version}
use prappser_spaces.Event.Service.Persist.Laws.{IsApplied, numbered, persist-ok}
use prappser_spaces.Event.Service.{World, Reply, accept_event, now_of}
use prappser_spaces.Event.Service.Cases.{persisted, replayed, refused, accept-ending, admitted}
use prappser_spaces.Event.Service.Admission.{
  IsRouted, routed-ok, admit-ok, IsAdmitted, admitted-same,
}
use prappser_spaces.Event.Service.Log.{announce-store}

step-OwnersKept :
    (now : ℤ) (e : Event) (r r' : Repository)
    → IsKeyed r
    → ((t : Member)
        → IsTarget now e r t
        → (e.type ≡ member_removed) ⊎ (e.type ≡ member_role_changed)
        → is_owner t.role ≡ false)
    → MemberStep now e r r'
    → OwnersKept r r'
step-OwnersKept now e r r' k f (kept q) = same-OwnersKept r r' q k
step-OwnersKept now e r r' k f (removed t i type q) =
    removed-OwnersKept r r' t k i.row (f t i (inl type)) q
step-OwnersKept now e r r' k f (changed t i type role row g q) =
    changed-OwnersKept r r' t row (record row { role = role }) k i.row (f t i (inr type)) g refl
      refl refl q

update_last_sequence-Keeps :
    (now : ℤ) (id : String) (n : ℕ) (r : Repository) → Keeps r (update_last_sequence now id n r)
unfolding update_last_sequence
update_last_sequence-Keeps now id n r =
    Keeps-found r (get id r.applications) _ (λ app. Keeps-if _ r _ [] (Keeps-ok r _ refl))

update_app_version-members :
    (env : Environment) (sequenced : Bool) (e : Event) (r : Repository)
    → (update_app_version env sequenced e r).members ≡ r.members
unfolding update_app_version
update_app_version-members env false e r = refl
update_app_version-members env true e r = elim (Bool-cases (e.application_id == "")) [
  | inl t ↦ rw t refl
  | inr f ↦ rw f (
      result (update_last_sequence env.context.now e.application_id e.sequence_number r)
        (update_last_sequence-Keeps env.context.now e.application_id e.sequence_number r))
]
  where
    result :
        (m : Result Repository)
        → Keeps r m
        → (elim m as (λ x. Repository) [ ok r' ↦ r' | err x ↦ r ]).members ≡ r.members
    result (ok r') k = k r' refl
    result (err x) k = refl

numbered-body :
    (env : Environment) (sequenced : Bool) (e : Event) (s : Store)
    → ((numbered env sequenced e s).body ≡ e.body) × ((numbered env sequenced e s).type ≡ e.type)
unfolding completed
numbered-body env sequenced e s = (refl, refl)

-- What an application-scoped event names is no owner's row.
admitted-not_owner :
    (w : World) (event : Event) (submitter : User) (s : Store) (e a e' : Event) (t : Member)
    → IsKeyed s.repo
    → IsRouted w event submitter e
    → is_user_scoped e.type ≡ false
    → IsAdmitted w e submitter s a
    → e'.body ≡ a.body
    → e'.type ≡ a.type
    → IsTarget (now_of w) e' s.repo t
    → (e'.type ≡ member_removed) ⊎ (e'.type ≡ member_role_changed)
    → is_owner t.role ≡ false
admitted-not_owner w event submitter s e a e' t k routed scoped p body type target which =
    let o =
      authorized-other a submitter p.app p.authorized
        (elim which [ inl z ↦ inl (sym type ∙ z) | inr z ↦ inr (sym type ∙ z) ]) in
    let key : t.public_key ≡ or_empty (string_at "memberPublicKey" a.body) =
      target.key ∙ ap (λ b. or_empty (string_at "memberPublicKey" b)) body in
    let from_event : a.body ≡ event.body =
      ap (λ (z : Event). z.body) p.event ∙ ap (λ (z : Event). z.body) routed.same in
    let user : is_user_scoped event.type ≡ false =
      ap is_user_scoped (sym (ap (λ (z : Event). z.type) routed.same)) ∙ scoped in
    let id : e.application_id ≡ or_empty (string_at "applicationId" event.body) =
      ap (λ (z : Event). z.application_id) routed.same
      ∙ ap (λ b. if b then "" else or_empty (string_at "applicationId" event.body)) user in
    target-not_owner (now_of w) e.application_id s.repo p.app t k p.loaded
      (subst (λ z. is_other_member (find_member p.app z) ≡ true) (sym key) o) target.row
      (target.application
        ∙ (ap (λ b. or_empty (string_at "applicationId" b)) (body ∙ from_event) ∙ sym id))

not_scoped : (t u : EventType) → is_user_scoped t ≡ true → is_user_scoped u ≡ false → t ≡ u → ⊥
not_scoped t u h f q = ground (arith, ap is_user_scoped q)

-- What an admitted event is executed as.
applied-OwnersKept :
    (w : World) (event : Event) (submitter : User) (s : Store) (e a e' : Event) (s' : Store)
    → IsKeyed s.repo
    → IsRouted w event submitter e
    → admitted w e submitter s ≡ ok a
    → IsApplied w.env (not (is_user_scoped e.type)) a s e' s'
    → OwnersKept s.repo s'.repo
applied-OwnersKept w event submitter s e a e' s' k routed h done =
    let sequenced = not (is_user_scoped e.type) in
    let nb = numbered-body w.env sequenced a s in
    let body : e'.body ≡ a.body = ap (λ (z : Event). z.body) done.event ∙ nb.0 in
    let type : e'.type ≡ a.type = ap (λ (z : Event). z.type) done.event ∙ nb.1 in
    let e_type : e'.type ≡ e.type =
      type ∙ ap (λ (z : Event). z.type) (admitted-same w e submitter s a h) in
    let stored : s'.repo.members ≡ done.repo.members =
      ap (λ (z : Store). z.repo.members) done.store
      ∙ update_app_version-members w.env sequenced e' done.repo in
    let step = λ (n : e'.type ≢ member_added).
      execute-MemberStep w.env.context e' s.repo done.repo n done.executed in
    let finish = then_same s.repo done.repo s'.repo stored in
    elim (Bool-cases (is_user_scoped e.type)) [
      | inl u ↦
          let never = λ (t : EventType) (f : is_user_scoped t ≡ false) (z : e'.type ≡ t).
            not_scoped e.type t u f (sym e_type ∙ z) in
          finish (
            step-OwnersKept (now_of w) e' s.repo done.repo k
              (λ t i which. absurd (elim which [
                | inl z ↦ never member_removed refl z
                | inr z ↦ never member_role_changed refl z
              ]))
              (step (never member_added refl)))
      | inr f ↦
          let p = admit-ok w e submitter s a (rw f at h) in
          finish (
            step-OwnersKept (now_of w) e' s.repo done.repo k
              (λ t i which.
                admitted-not_owner w event submitter s e a e' t k routed f p body type i which)
              (step (λ z. authorized-type a submitter p.app p.authorized (sym type ∙ z))))
    ]

-- Where member rows have unique ids, and one row stands for a key in an application, a submitted
-- event leaves them so, and neither removes the row of an owner nor changes it, whoever submits it.
pub accept_keeps_owners :
    (w : World) (event : Event) (submitter : User) (s : Store)
    → IsKeyed s.repo
    → OwnersKept s.repo (accept_event w event submitter s).1.repo
accept_keeps_owners w event submitter s k = elim (accept-ending w event submitter s) [
  | persisted p ↦
      let scoped = is_user_scoped p.e.type in
      let store : p.stored.2 ≡ (accept_event w event submitter s).1 =
        sym (announce-store w scoped submitter.agent p.stored)
        ∙ sym (ap (λ (z : Reply). z.1) p.reply) in
      subst (λ z. OwnersKept s.repo z.repo) store
        (elim (persist-ok w.env (not scoped) p.a s p.stored.0 p.stored.1 p.stored.2 p.persisted) [
          | inl (d, dup) ↦
              same-OwnersKept s.repo p.stored.2.repo (ap (λ (z : Store). z.repo.members) dup.store)
                k
          | inr (d, done) ↦
              applied-OwnersKept w event submitter s p.e p.a p.stored.0 p.stored.2 k
                (routed-ok w event submitter p.e p.is_routed) p.is_admitted done
        ])
  | replayed p ↦
      subst (λ (z : Reply). OwnersKept s.repo z.1.repo) (sym p.reply)
        (same-OwnersKept s.repo s.repo refl k)
  | refused p ↦
      subst (λ (z : Reply). OwnersKept s.repo z.1.repo) (sym p.reply)
        (same-OwnersKept s.repo s.repo refl k)
]

-- Requests that follow one another.
pub data Requests (s : Store) : Store → Type 0 where
  none_yet : Requests s s
  request :
      {t : Store}
      → Requests s t
      → (w : World) (event : Event) (submitter : User)
      → Requests s (accept_event w event submitter t).1

Requests-OwnersKept : {s t : Store} → Requests s t → IsKeyed s.repo → OwnersKept s.repo t.repo
Requests-OwnersKept {s} none_yet k = same-OwnersKept s.repo s.repo refl k
Requests-OwnersKept {s} (request {t} h w event submitter) k =
    let o = Requests-OwnersKept h k in
    let o' = accept_keeps_owners w event submitter t o.keyed in
    record { keyed = o'.keyed; owners = λ m i z. o'.owners m (o.owners m i z) z }

-- Where member rows have unique ids and one row stands for a key in an application, no sequence of
-- submitted events, at whatever times, under whatever database errors and by whatever users,
-- deletes or changes the row of an owner, and the rows keep their unique ids and keys.
pub owners_survive :
    (s t : Store) (m : Member)
    → Requests s t
    → IsKeyed s.repo
    → In m (values s.repo.members)
    → is_owner m.role ≡ true
    → In m (values t.repo.members) × IsKeyed t.repo
owners_survive s t m h k i o = let kept = Requests-OwnersKept h k in (kept.owners m i o, kept.keyed)
