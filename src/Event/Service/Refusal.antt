-- ===== src/Event/Service/Refusal.antt =====
-- Requests that change nothing: refusals, and requests of those who are not in the application.
use prappser_spaces.Base.{
  ◌≡◌, sym, ◌∙◌, inl, inr, Bool, true, false, ap, none, some, List, [], ◌∷◌, ◌==◌, any, arith,
  eq_iff, In, if◌then◌else◌,
}
use mathlib.Core.Path.{subst}
use prappser_spaces.Base.Members.{find-some}
use prappser_spaces.Result.{ok, err, Error}
use prappser_spaces.Application.{Member, User}
use prappser_spaces.Application.Memory.{values, member_of, is_member}
use prappser_spaces.Event.{Event, is_user_scoped}
use prappser_spaces.Event.Authorizer.{string_at, find_member}
use prappser_spaces.Event.Authorizer.Targets.{authorized-IsActing, loaded-member}
use prappser_spaces.Event.Validator.Checks.{or_empty}
use prappser_spaces.Event.Store.{Store, get_by_id}
use prappser_spaces.Event.Service.{World, Reply, accept_event, now_of}
use prappser_spaces.Event.Service.Cases.{persisted, replayed, refused, accept-ending}
use prappser_spaces.Event.Service.Admission.{routed-ok, admit-ok, IsAdmitted}
use prappser_spaces.Event.Service.Numbers.{announce-event}

-- A request that is answered with an error commits nothing and calls neither the hub nor the
-- pusher, whatever step refused it.
pub refused_unchanged :
    (w : World) (event : Event) (submitter : User) (s : Store) (x : Error)
    → (accept_event w event submitter s).0 ≡ err x
    → accept_event w event submitter s ≡ (err x, s, [])
refused_unchanged w event submitter s x h = elim (accept-ending w event submitter s) [
  | persisted p ↦ absurd (
      ok≢err (
        sym (announce-event w (is_user_scoped p.e.type) submitter.agent p.stored)
        ∙ (sym (ap (λ (z : Reply). z.0) p.reply) ∙ h)))
  | replayed p ↦ absurd (ok≢err (sym (ap (λ (z : Reply). z.0) p.reply) ∙ h))
  | refused p ↦ p.reply ∙ ap (λ z. (z, s, [])) (sym (ap (λ (z : Reply). z.0) p.reply) ∙ h)
]
  where
    ok≢err : {a : Event} {y : Error} → ok a ≡ err y → ⊥
    ok≢err z = ground arith

any-In :
    (p : Member → Bool) (xs : List Member) (m : Member) → In m xs → p m ≡ true → any p xs ≡ true
any-In p [] m i h = absurd i
any-In p (x ∷ xs) m (inl e) h = ground (arith, ap p e, h)
any-In p (x ∷ xs) m (inr i) h = ground (arith, any-In p xs m i h)

-- Who is admitted to an application is an active member of it.
pub admitted-is_member :
    (w : World) (e a : Event) (submitter : User) (s : Store)
    → IsAdmitted w e submitter s a
    → is_member (now_of w) e.application_id submitter.public_key s.repo ≡ true
unfolding is_member find_member
admitted-is_member w e a submitter s p =
    let acting = authorized-IsActing a submitter p.app p.authorized in
    let (i, t) =
      find-some (λ (m : Member). m.public_key == submitter.public_key) p.app.members acting.actor
        acting.found in
    let (j, app, active) =
      loaded-member (now_of w) e.application_id s.repo p.app acting.actor p.loaded i in
    any-In (member_of (now_of w) e.application_id submitter.public_key) (values s.repo.members)
      acting.actor j
      (ground (arith, eq_iff acting.actor.application_id e.application_id, app, t, active))

-- An event of an application, not in the log yet, that no check can admit, leaves the store as it is
-- and sends nothing out.
pub unadmitted_refused :
    (w : World) (event : Event) (submitter : User) (s : Store)
    → is_user_scoped event.type ≡ false
    → get_by_id event.id s ≡ none
    → ((e a : Event)
        → e.application_id ≡ or_empty (string_at "applicationId" event.body)
        → IsAdmitted w e submitter s a
        → ⊥)
    → ((accept_event w event submitter s).1 ≡ s) × ((accept_event w event submitter s).2 ≡ [])
unadmitted_refused w event submitter s u f never = elim (accept-ending w event submitter s) [
  | persisted p ↦
      let r = routed-ok w event submitter p.e p.is_routed in
      let scoped : is_user_scoped p.e.type ≡ false =
        ap is_user_scoped (ap (λ (z : Event). z.type) r.same) ∙ u in
      absurd (
        never p.e p.a
          (ap (λ (z : Event). z.application_id) r.same
            ∙ ap (λ b. if b then "" else or_empty (string_at "applicationId" event.body)) u)
          (admit-ok w p.e submitter s p.a (rw scoped at p.is_admitted)))
  | replayed p ↦
      let r = routed-ok w event submitter p.e p.is_routed in
      absurd (
        none≢some (
          sym f
          ∙ subst (λ z. get_by_id z s ≡ some p.stored) (ap (λ (z : Event). z.id) r.same) p.found))
  | refused p ↦ (ap (λ (z : Reply). z.1) p.reply, ap (λ (z : Reply). z.2) p.reply)
]
  where
    none≢some : {y : Event} → none ≡ some y → ⊥
    none≢some z = ground arith

-- An event of an application, not in the log yet, leaves the log and the applications as they are
-- and sends nothing out, if its submitter is no active member of the application that its data
-- names.
pub outsider_refused :
    (w : World) (event : Event) (submitter : User) (s : Store)
    → is_user_scoped event.type ≡ false
    → is_member
        (now_of w)
        (or_empty (string_at "applicationId" event.body))
        submitter.public_key
        s.repo
      ≡ false
    → get_by_id event.id s ≡ none
    → ((accept_event w event submitter s).1 ≡ s) × ((accept_event w event submitter s).2 ≡ [])
outsider_refused w event submitter s u n f = unadmitted_refused w event submitter s u f (λ e a id q.
    true≢false (
      sym (
        subst (λ z. is_member (now_of w) z submitter.public_key s.repo ≡ true) id
          (admitted-is_member w e a submitter s q))
      ∙ n))
  where
    true≢false : true ≡ false → ⊥
    true≢false z = ground arith
