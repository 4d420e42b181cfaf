-- ===== src/Event/Service/Retry.antt =====
-- Retries: an event that was accepted is answered again with what is stored, and changes nothing.
use prappser_spaces.Base.{◌≡◌, refl, sym, ◌∙◌, inl, inr, true, ap, not, none, some, [], arith}
use mathlib.Core.Path.{subst, subst₂}
use prappser_spaces.Result.{ok, ◌>>=◌, >>=-eq-ok, >>-eq-ok, >>-holds}
use prappser_spaces.Application.{User}
use prappser_spaces.Event.{Event, is_user_scoped}
use prappser_spaces.Event.Validator.{validate_event}
use prappser_spaces.Event.Store.{Store, get_by_id}
use prappser_spaces.Event.Service.Persist.{is_retry_of, struck}
use prappser_spaces.Event.Service.Persist.Laws.{persist-ok}
use prappser_spaces.Event.Service.Persist.Log.{applied-found, applied-is_retry_of}
use prappser_spaces.Event.Service.{World, Reply, accept_event, accept_routed, route}
use prappser_spaces.Event.Service.Cases.{
  persisted, replayed, refused, IsPersisted, accept-ending, routed,
}
use prappser_spaces.Event.Service.Admission.{routed-ok, admitted-same}
use prappser_spaces.Event.Service.Log.{admitted-IsScoped, announce-store}
use prappser_spaces.Event.Service.Numbers.{announce-event, ok-injective}

-- The log holds `e'` as what the submitted event became.
pub record IsStored (w : World) (event : Event) (submitter : User) (s : Store) (e' : Event)
    : Type 0 where
  pub e : Event
  pub is_routed : routed w event submitter ≡ ok e
  pub found : get_by_id e.id s ≡ some e'
  pub retry : is_retry_of (some e') e.application_id e.creator_public_key e.type ≡ true

-- What a transaction stores is a retry of what it was given.
stored-is_retry :
    (w : World) (event : Event) (submitter : User) (s : Store)
    (p : IsPersisted w event submitter s (accept_event w event submitter s))
    → (get_by_id p.a.id p.stored.2 ≡ some p.stored.0)
      × (is_retry_of (some p.stored.0) p.a.application_id p.a.creator_public_key p.a.type ≡ true)
stored-is_retry w event submitter s p =
    let routed = routed-ok w event submitter p.e p.is_routed in
    let scope = admitted-IsScoped w event submitter s p.e p.a routed p.is_admitted in
    let sequenced = not (is_user_scoped p.e.type) in
    elim (persist-ok w.env sequenced p.a s p.stored.0 p.stored.1 p.stored.2 p.persisted) [
      | inl (d, dup) ↦
          (subst (λ z. get_by_id p.a.id z ≡ some p.stored.0) (sym dup.store) dup.stored, dup.retry)
      | inr (d, done) ↦ (
        applied-found w.env sequenced p.a s p.stored.0 p.stored.2 scope done,
        applied-is_retry_of w.env sequenced p.a s p.stored.0 p.stored.2 scope done,
      )
    ]

accepted-IsStored :
    (w : World) (event : Event) (submitter : User) (s : Store) (e' : Event)
    → (accept_event w event submitter s).0 ≡ ok e'
    → IsStored w event submitter (accept_event w event submitter s).1 e'
accepted-IsStored w event submitter s e' h = elim (accept-ending w event submitter s) [
  | persisted p ↦
      let scoped = is_user_scoped p.e.type in
      let (found, retry) = stored-is_retry w event submitter s p in
      let same : p.stored.0 ≡ e' = ok-injective (
        sym (announce-event w scoped submitter.agent p.stored)
        ∙ (sym (ap (λ (z : Reply). z.0) p.reply) ∙ h)) in
      let kept : p.stored.2 ≡ (accept_event w event submitter s).1 =
        sym (announce-store w scoped submitter.agent p.stored)
        ∙ sym (ap (λ (z : Reply). z.1) p.reply) in
      let q = admitted-same w p.e submitter s p.a p.is_admitted in
      record {
        e = p.e;
        is_routed = p.is_routed;
        found =
            subst₂ (λ x y. get_by_id p.e.id x ≡ some y) kept same
              (subst (λ z. get_by_id z p.stored.2 ≡ some p.stored.0) (ap (λ (z : Event). z.id) q)
                found);
        retry =
            subst₂ (λ x y. is_retry_of (some x) y.application_id y.creator_public_key y.type ≡ true)
              same q retry;
      }
  | replayed p ↦
      let same : p.stored ≡ e' = ok-injective (sym (ap (λ (z : Reply). z.0) p.reply) ∙ h) in
      let kept : s ≡ (accept_event w event submitter s).1 = sym (ap (λ (z : Reply). z.1) p.reply) in
      record {
        e = p.e;
        is_routed = p.is_routed;
        found = subst₂ (λ x y. get_by_id p.e.id x ≡ some y) kept same p.found;
        retry =
            subst
              (λ x. is_retry_of (some x) p.e.application_id p.e.creator_public_key p.e.type ≡ true)
              same p.retry;
      }
  | refused p ↦ absurd (ground (arith, ap (λ (z : Reply). z.0) p.reply, h))
]

-- Routing depends on the platform alone, once the check for a duplicate can be made.
routed-again :
    (w w' : World) (event : Event) (submitter : User) (e : Event)
    → w'.platform ≡ w.platform
    → w'.check_error ≡ none
    → routed w event submitter ≡ ok e
    → routed w' event submitter ≡ ok e
routed-again w w' event submitter e p c h =
    let b = record event { creator_public_key = submitter.public_key } in
    let valid = validate_event w.platform b in
    let check = λ (e' : Event). (struck w.check_error >>= λ _. ok e') in
    let behind = route (is_user_scoped b.type) b >>= check in
    let (e₁, r, h₁) = >>=-eq-ok (route (is_user_scoped b.type) b) check (>>-eq-ok valid behind h) in
    let q : ok e₁ ≡ ok e = >>-eq-ok (struck w.check_error) (ok e₁) h₁ in
    rw (p, c, >>-holds valid behind h, r) q

accept-found :
    (w : World) (event : Event) (submitter : User) (t : Store) (e e' : Event)
    → routed w event submitter ≡ ok e
    → get_by_id e.id t ≡ some e'
    → is_retry_of (some e') e.application_id e.creator_public_key e.type ≡ true
    → accept_event w event submitter t ≡ (ok e', t, [])
unfolding accept_event
accept-found w event submitter t e e' r f y = rw r (rw (f, accept_routed) (rw y refl))

-- An event that a submitter gets back as accepted is in the log that the request leaves, found by
-- the id that was submitted.
pub accepted_found :
    (w : World) (event : Event) (submitter : User) (s : Store) (e' : Event)
    → (accept_event w event submitter s).0 ≡ ok e'
    → get_by_id event.id (accept_event w event submitter s).1 ≡ some e'
accepted_found w event submitter s e' h =
    let stored = accepted-IsStored w event submitter s e' h in
    let id : stored.e.id ≡ event.id =
      ap (λ (z : Event). z.id) (routed-ok w event submitter stored.e stored.is_routed).same in
    subst (λ z. get_by_id z (accept_event w event submitter s).1 ≡ some e') id stored.found

-- As long as an accepted event is in the log, whatever else the space did meanwhile, the same event
-- of the same submitter is answered with what is stored, the store stays as it is and nothing is
-- sent out, if the platform is the same and the lookup itself meets no error: no membership, role
-- or age is asked for again.
pub retry_idempotent :
    (w w' : World) (event : Event) (submitter : User) (s t : Store) (e' : Event)
    → (accept_event w event submitter s).0 ≡ ok e'
    → w'.platform ≡ w.platform
    → w'.check_error ≡ none
    → get_by_id event.id t ≡ some e'
    → accept_event w' event submitter t ≡ (ok e', t, [])
retry_idempotent w w' event submitter s t e' h p c f =
    let stored = accepted-IsStored w event submitter s e' h in
    let id : stored.e.id ≡ event.id =
      ap (λ (z : Event). z.id) (routed-ok w event submitter stored.e stored.is_routed).same in
    accept-found w' event submitter t stored.e e'
      (routed-again w w' event submitter stored.e p c stored.is_routed) (rw id f) stored.retry
