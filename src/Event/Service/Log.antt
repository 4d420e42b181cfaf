-- ===== src/Event/Service/Log.antt =====
-- What every history of the space keeps of its event log. Requests, space-produced events, pruning
-- and the other parts of the space follow one another in any order.
use prappser_spaces.Base.{
  ◌≤◌, String, ◌≡◌, ◌≢◌, refl, sym, ◌∙◌, inl, inr, Bool, true, false, ap, not, ◌==◌, ◌&&◌, arith,
  eq_iff, Bool-cases, if◌then◌else◌,
}
use mathlib.Core.Path.{subst}
use prappser_spaces.Base.Int.{ℤ}
use prappser_spaces.Base.Dict.{Dict}
use prappser_spaces.Result.{Result, ok, err, ◌>>=◌, ◌>>◌, >>=-eq-ok, >>-eq-ok, >>-holds}
use prappser_spaces.Application.{User}
use prappser_spaces.Application.Memory.{Repository}
use prappser_spaces.Event.{Event, is_user_scoped}
use prappser_spaces.Event.Validator.{validate_event}
use prappser_spaces.Event.Validator.Checks.{Platform}
use prappser_spaces.Event.Store.{Store, Move, empty_store, max_sequence}
use prappser_spaces.Event.Store.Order.{
  IsOrdered, LogStep, same, LogStep-IsOrdered, max_sequence-LogStep,
}
use prappser_spaces.Event.Store.Retention.{cleanup_old_events}
use prappser_spaces.Event.Store.Retention.Laws.{cleanup-IsOrdered, max_sequence-cleanup}
use prappser_spaces.Event.Service.Persist.{Stored, persist_and_apply}
use prappser_spaces.Event.Service.Persist.Log.{IsScoped, persist-LogStep}
use prappser_spaces.Event.Service.{
  World, Reply, accept_event, produce_event, announce, reply_of, route,
}
use prappser_spaces.Event.Service.Cases.{persisted, replayed, refused, accept-ending, admitted}
use prappser_spaces.Event.Service.Admission.{
  IsRouted, routed-ok, route-ok, admitted-same, valid-named,
}

pub announce-store :
    (w : World) (scoped agent : Bool) (r : Stored) → (announce w scoped agent r).1 ≡ r.2
unfolding announce
announce-store w scoped agent (e, true, s) = refl
announce-store w true agent (e, false, s) = refl
announce-store w false agent (e, false, s) = refl

-- The event that a request hands to its transaction has its application, or is user-scoped.
pub admitted-IsScoped :
    (w : World) (event : Event) (submitter : User) (s : Store) (e a : Event)
    → IsRouted w event submitter e
    → admitted w e submitter s ≡ ok a
    → IsScoped (not (is_user_scoped e.type)) a
admitted-IsScoped w event submitter s e a r h =
    let q = admitted-same w e submitter s a h in
    let type : e.type ≡ event.type = ap (λ (z : Event). z.type) r.same in
    let app : a.application_id ≡ e.application_id = ap (λ (z : Event). z.application_id) q in
    record {
      named = λ z.
          valid-named w.platform (record event { creator_public_key = submitter.public_key })
            r.valid (sym (ap (λ (z : Event). z.id) q ∙ ap (λ (z : Event). z.id) r.same) ∙ z);
      app = λ t z. r.in_application (ground (arith, t, type)) (sym app ∙ z);
      user = λ f. (
        app ∙ (ap (λ (z : Event). z.application_id) r.same ∙ ground (arith, f, type)),
        ground (arith, f, ap (λ (z : Event). z.type) q),
      );
    }

-- A request takes the log one step.
pub accept-LogStep :
    (w : World) (event : Event) (submitter : User) (s : Store)
    → LogStep s (accept_event w event submitter s).1
accept-LogStep w event submitter s = elim (accept-ending w event submitter s) [
  | persisted p ↦
      subst (LogStep s)
        (sym (
          ap (λ (r : Reply). r.1) p.reply
          ∙ announce-store w (is_user_scoped p.e.type) submitter.agent p.stored))
        (persist-LogStep w.env (not (is_user_scoped p.e.type)) p.a s p.stored.0 p.stored.1
          p.stored.2
          (admitted-IsScoped w event submitter s p.e p.a
            (routed-ok w event submitter p.e p.is_routed) p.is_admitted)
          p.persisted)
  | replayed p ↦ subst (LogStep s) (sym (ap (λ (r : Reply). r.1) p.reply)) (same refl refl)
  | refused p ↦ subst (LogStep s) (sym (ap (λ (r : Reply). r.1) p.reply)) (same refl refl)
]

-- What holds of the store before and of each that a transaction may leave holds of the reply's.
pub reply-holds :
    (P : Store → Type 0) (w : World) (scoped agent : Bool) (s : Store) (m : Result Stored)
    → P s
    → ((r : Stored) → m ≡ ok r → P r.2)
    → P (reply_of w scoped agent s m).1
unfolding reply_of
reply-holds P w scoped agent s (ok r) h f =
    subst P (sym (announce-store w scoped agent r)) (f r refl)
reply-holds P w scoped agent s (err x) h f = h

produced-IsScoped :
    (p : Platform) (e e' : Event)
    → validate_event p e ≡ ok tt
    → (let scoped = is_user_scoped e.type && (e.application_id == "") in
        if scoped then ok e else route false e)
      ≡ ok e'
    → IsScoped (not (is_user_scoped e.type && (e.application_id == ""))) e'
produced-IsScoped p e e' v h =
    elim (Bool-cases (is_user_scoped e.type && (e.application_id == ""))) [
      | inl t ↦
          let q : e ≡ e' = ground (arith, t) in
          rw t (record {
            named = subst (λ z. z.id ≢ "") q (valid-named p e v);
            app = λ x. absurd (ground (arith, x));
            user = λ x.
                subst (λ z. (z.application_id ≡ "") × (is_user_scoped z.type ≡ true)) q
                  (ground (arith, t, eq_iff e.application_id ""), ground (arith, t));
          })
      | inr f ↦
          let (q, n) = route-ok false e e' (rw f at h) in
          rw f (record {
            named = λ z. valid-named p e v (sym (ap (λ (y : Event). y.id) q) ∙ z);
            app = λ x. n refl;
            user = λ x. absurd (ground (arith, x));
          })
    ]

-- So does an event that the space itself produces.
pub produce-LogStep :
    (w : World) (event : Event) (s : Store) → LogStep s (produce_event w event s).1
unfolding produce_event
produce-LogStep w e s =
    let scoped = is_user_scoped e.type && (e.application_id == "") in
    let valid = validate_event w.platform e in
    let target : Result Event = (if scoped then ok e else route false e) in
    let store = λ (e' : Event). persist_and_apply w.env (not scoped) e' s in
    reply-holds (LogStep s) w scoped false s (valid >> (target >>= store)) (same refl refl) (λ r h.
      let (e', t, q) = >>=-eq-ok target store (>>-eq-ok valid (target >>= store) h) in
      persist-LogStep w.env (not scoped) e' s r.0 r.1 r.2
        (produced-IsScoped w.platform e e' (>>-holds valid (target >>= store) h) t) q)

-- A step of the space: a request, an event of its own, a cleanup, or whatever else changes the
-- applications, their members and the columns of moves and leaves the log alone. The deletions of
-- an application's rows, by the completion of its move or the purge, are not among them.
pub data Step : Store → Store → Type 0 where
  accept :
      (w : World) (event : Event) (submitter : User) (s : Store)
      → Step s (accept_event w event submitter s).1
  produce : (w : World) (event : Event) (s : Store) → Step s (produce_event w event s).1
  cleanup : (now days : ℤ) (s : Store) → Step s (cleanup_old_events now days s).1
  other : (s : Store) (r : Repository) (m : Dict Move) → Step s (record s { repo = r; moves = m })

pub data Reach (s : Store) : Store → Type 0 where
  here : Reach s s
  next : {t u : Store} → Reach s t → Step t u → Reach s u

Step-IsOrdered : {s t : Store} → Step s t → IsOrdered s → IsOrdered t
Step-IsOrdered (accept w e u s) o = LogStep-IsOrdered s _ (accept-LogStep w e u s) o
Step-IsOrdered (produce w e s) o = LogStep-IsOrdered s _ (produce-LogStep w e s) o
Step-IsOrdered (cleanup now days s) o = cleanup-IsOrdered now days s o
Step-IsOrdered (other s r m) o = record {
  rows = o.rows;
  given = o.given;
  positive = o.positive;
  named = o.named;
}

pub Reach-IsOrdered : {s t : Store} → Reach s t → IsOrdered s → IsOrdered t
Reach-IsOrdered here o = o
Reach-IsOrdered (next r st) o = Step-IsOrdered st (Reach-IsOrdered r o)

empty-IsOrdered : IsOrdered empty_store
empty-IsOrdered = record { rows = tt; given = tt; positive = tt; named = tt }

-- However requests, events of the space itself, prunings and other changes of the applications and
-- members follow one another in a space that starts empty, its log is in order: ordinals grow, ids
-- are unique, and within an application the sequence numbers grow with the ordinals.
pub history-IsOrdered : (s : Store) → Reach empty_store s → IsOrdered s
history-IsOrdered s r = Reach-IsOrdered r empty-IsOrdered

Step-max_sequence :
    (app : String) {s t : Store}
    → Step s t
    → IsOrdered s
    → app ≢ ""
    → max_sequence app s.events ≤ max_sequence app t.events
Step-max_sequence app (accept w e u s) o n = max_sequence-LogStep app s _ (accept-LogStep w e u s)
Step-max_sequence app (produce w e s) o n = max_sequence-LogStep app s _ (produce-LogStep w e s)
Step-max_sequence app (cleanup now days s) o n =
    omega (arith, max_sequence-cleanup now days s app o n)
Step-max_sequence app (other s r m) o n = omega arith

pub Reach-max_sequence :
    (app : String) {s t : Store}
    → Reach s t
    → IsOrdered s
    → app ≢ ""
    → max_sequence app s.events ≤ max_sequence app t.events
Reach-max_sequence app here o n = omega arith
Reach-max_sequence app (next r st) o n =
    omega (arith, Reach-max_sequence app r o n, Step-max_sequence app st (Reach-IsOrdered r o) n)
