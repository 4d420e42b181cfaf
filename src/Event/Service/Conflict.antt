-- ===== src/Event/Service/Conflict.antt =====
-- Ids that another account has used.
use prappser_spaces.Base.{
  String, ◌≡◌, ◌≢◌, sym, ◌∙◌, inl, inr, true, ap, not, none, some, [], arith, eq_iff,
}
use mathlib.Core.Path.{subst}
use prappser_spaces.Result.{err, Error}
use prappser_spaces.Application.{User}
use prappser_spaces.Event.{Event, EventType, is_user_scoped}
use prappser_spaces.Event.Store.{Store, get_by_id}
use prappser_spaces.Event.Service.{World, accept_event}
use prappser_spaces.Event.Service.Persist.{is_retry_of}
use prappser_spaces.Event.Service.Persist.Laws.{persist-ok}
use prappser_spaces.Event.Service.Cases.{persisted, replayed, refused, accept-ending}
use prappser_spaces.Event.Service.Admission.{routed-ok, admitted-same}

-- A retry has the author of the event that is stored.
retry_author :
    (stored : Event) (app_id key : String) (t : EventType)
    → is_retry_of (some stored) app_id key t ≡ true
    → stored.creator_public_key ≡ key
unfolding is_retry_of
retry_author stored app_id key t h = ground (arith, h, eq_iff stored.creator_public_key key)

-- An event with the id of an event of another account is refused: nothing is stored or sent out,
-- and the submitter does not learn what is stored under that id.
pub used_id_refused :
    (w : World) (event : Event) (submitter : User) (s : Store) (stored : Event)
    → get_by_id event.id s ≡ some stored
    → stored.creator_public_key ≢ submitter.public_key
    → (x : Error) × (accept_event w event submitter s ≡ (err x, s, []))
used_id_refused w event submitter s stored f n = elim (accept-ending w event submitter s) [
  | persisted p ↦
      let r = routed-ok w event submitter p.e p.is_routed in
      let q = admitted-same w p.e submitter s p.a p.is_admitted in
      let id : p.a.id ≡ event.id = ap (λ (z : Event). z.id) q ∙ ap (λ (z : Event). z.id) r.same in
      let author : p.a.creator_public_key ≡ submitter.public_key =
        ap (λ (z : Event). z.creator_public_key) q
        ∙ ap (λ (z : Event). z.creator_public_key) r.same in
      let found : get_by_id p.a.id s ≡ some stored = rw id f in
      absurd
        (elim (persist-ok w.env (not (is_user_scoped p.e.type)) p.a s p.stored.0 p.stored.1
          p.stored.2 p.persisted) [
            | inl (d, dup) ↦ n (
                ap (λ (z : Event). z.creator_public_key) (same_event (sym found ∙ dup.stored))
                ∙ (retry_author p.stored.0 p.a.application_id p.a.creator_public_key p.a.type
                      dup.retry
                    ∙ author))
            | inr (d, done) ↦ none≢some (sym done.new ∙ found)
          ])
  | replayed p ↦
      let r = routed-ok w event submitter p.e p.is_routed in
      let found : get_by_id p.e.id s ≡ some stored =
        subst (λ z. get_by_id z s ≡ some stored) (sym (ap (λ (z : Event). z.id) r.same)) f in
      absurd (
        n (
          ap (λ (z : Event). z.creator_public_key) (same_event (sym found ∙ p.found))
          ∙ (retry_author p.stored p.e.application_id p.e.creator_public_key p.e.type p.retry
              ∙ ap (λ (z : Event). z.creator_public_key) r.same)))
  | refused p ↦ (p.error, p.reply)
]
  where
    same_event : {a b : Event} → some a ≡ some b → a ≡ b
    same_event z = ground arith

    none≢some : {y : Event} → none ≡ some y → ⊥
    none≢some z = ground arith
