-- ===== src/Event/Service/Moved/Frozen.antt =====
-- A completed move and the events that are submitted afterwards (internal/event/event_service.go,
-- internal/application/repository.go).
use prappser_spaces.Base.{
  String, ◌≡◌, ◌≢◌, refl, sym, ◌∙◌, ap, Bool, true, false, not, ◌&&◌, none, [], ◌∷◌, ◌==◌, inl, inr,
  eq_refl, arith, if◌then◌else◌,
}
use mathlib.Core.Path.{subst}
use prappser_spaces.Base.Dict.{get-put}
use prappser_spaces.Base.Int.{ℤ}
use prappser_spaces.Result.{Result, Error, ok, err, ◌>>=◌, ◌>>◌, moved, >>=-eq-ok, >>-eq-ok}
use prappser_spaces.Application.{User}
use prappser_spaces.Application.Memory.{Repository, is_member}
use prappser_spaces.Invitation.Repository.{Table}
use prappser_spaces.Event.{Event, is_user_scoped}
use prappser_spaces.Event.Authorizer.{string_at}
use prappser_spaces.Event.Validator.{validate_event}
use prappser_spaces.Event.Validator.Checks.{or_empty}
use prappser_spaces.Event.Store.{Store, get_by_id, move_guard, append}
use prappser_spaces.Event.Store.Moves.{
  Tables, start_move, abort_move, clear_move, complete_move, completed_move,
}
use prappser_spaces.Event.Store.Moves.Final.{
  IsMoved, moved_row, clear_move-IsMoved, complete_move-ok, start_move-IsMoved, abort_move-IsMoved,
  complete_move-IsMoved, move_guard-IsMoved,
}
use prappser_spaces.Event.Store.Retention.{cleanup_old_events}
use prappser_spaces.Event.Service.Persist.{Environment, Stored, persist_and_apply}
use prappser_spaces.Event.Service.Persist.Laws.{persist-ok}
use prappser_spaces.Event.Service.{World, now_of, Reply, accept_event, produce_event, route}
use prappser_spaces.Event.Service.Cases.{persisted, replayed, refused, accept-ending}
use prappser_spaces.Event.Service.Log.{announce-store, reply-holds}
use prappser_spaces.Event.Service.Refusal.{admitted-is_member, unadmitted_refused}

-- No event writes the columns of moves.
persist-moves :
    (env : Environment) (sequenced : Bool) (e : Event) (s : Store) (r : Stored)
    → persist_and_apply env sequenced e s ≡ ok r
    → r.2.moves ≡ s.moves
unfolding append
persist-moves env sequenced e s (e', dup, s') h = elim (persist-ok env sequenced e s e' dup s' h) [
  | inl d ↦ ap (λ (z : Store). z.moves) d.1.store
  | inr a ↦ ap (λ (z : Store). z.moves) a.1.store
]

accept-moves :
    (w : World) (event : Event) (submitter : User) (s : Store)
    → (accept_event w event submitter s).1.moves ≡ s.moves
accept-moves w event submitter s = elim (accept-ending w event submitter s) [
  | persisted p ↦
      ap (λ (z : Reply). z.1.moves) p.reply
      ∙ (ap (λ (z : Store). z.moves)
            (announce-store w (is_user_scoped p.e.type) submitter.agent p.stored)
          ∙ persist-moves w.env (not (is_user_scoped p.e.type)) p.a s p.stored p.persisted)
  | replayed p ↦ ap (λ (z : Reply). z.1.moves) p.reply
  | refused p ↦ ap (λ (z : Reply). z.1.moves) p.reply
]

produce-moves :
    (w : World) (event : Event) (s : Store) → (produce_event w event s).1.moves ≡ s.moves
unfolding produce_event
produce-moves w e s =
    let scoped = is_user_scoped e.type && (e.application_id == "") in
    let valid = validate_event w.platform e in
    let target : Result Event = (if scoped then ok e else route false e) in
    let store = λ (e' : Event). persist_and_apply w.env (not scoped) e' s in
    reply-holds (λ t. t.moves ≡ s.moves) w scoped false s (valid >> (target >>= store)) refl
      (λ r h.
        let (e', t, q) = >>=-eq-ok target store (>>-eq-ok valid (target >>= store) h) in
        persist-moves w.env (not scoped) e' s r q)

-- What may happen to the tables while an application is not registered again: requests on moves,
-- events, the cleanup, registrations of others and the purge of their rows, and whatever else
-- changes applications, members and invitations.
pub data Step (app_id : String) : Tables → Tables → Type 0 where
  start :
      (j url : String) (t : Tables)
      → Step app_id t (record t { store = (start_move j url t.store).1 })
  abort : (j : String) (t : Tables) → Step app_id t (record t { store = abort_move j t.store })
  complete :
      {t u : Tables} (now : ℤ) (j url token : String)
      → complete_move now j url token t ≡ ok u
      → Step app_id t u
  accept :
      (w : World) (event : Event) (submitter : User) (t : Tables)
      → Step app_id t (record t { store = (accept_event w event submitter t.store).1 })
  produce :
      (w : World) (event : Event) (t : Tables)
      → Step app_id t (record t { store = (produce_event w event t.store).1 })
  cleanup :
      (now days : ℤ) (t : Tables)
      → Step app_id t (record t { store = (cleanup_old_events now days t.store).1 })
  clear :
      (j : String) (t : Tables)
      → j ≢ app_id
      → Step app_id t (record t { store = clear_move j t.store })
  other :
      (r : Repository) (i : Table) (t : Tables)
      → Step app_id t (record { store = record (t.store) { repo = r }; invitations = i })

pub data Reach (app_id : String) (t : Tables) : Tables → Type 0 where
  here : Reach app_id t t
  next : {u v : Tables} → Reach app_id t u → Step app_id u v → Reach app_id t v

module _ (app_id url token : String) (at : ℤ) where
  same_moves :
      (s t : Store)
      → t.moves ≡ s.moves
      → IsMoved app_id url token at s
      → IsMoved app_id url token at t
  same_moves s t h m = record { row = rw h m.row }

  Step-IsMoved :
      {t u : Tables}
      → Step app_id t u
      → IsMoved app_id url token at t.store
      → IsMoved app_id url token at u.store
  unfolding cleanup_old_events
  Step-IsMoved (start j to t) m = start_move-IsMoved app_id url token at j to t.store m
  Step-IsMoved (abort j t) m = abort_move-IsMoved app_id url token at j t.store m
  Step-IsMoved (complete {t} {u} now j to k h) m =
      complete_move-IsMoved app_id url token at now j to k t u h m
  Step-IsMoved (accept w e v t) m = same_moves t.store _ (accept-moves w e v t.store) m
  Step-IsMoved (produce w e t) m = same_moves t.store _ (produce-moves w e t.store) m
  Step-IsMoved (cleanup now days t) m = same_moves t.store _ refl m
  Step-IsMoved (clear j t n) m = clear_move-IsMoved app_id url token at j t.store n m
  Step-IsMoved (other r i t) m = same_moves t.store _ refl m

  Reach-IsMoved :
      {t u : Tables}
      → Reach app_id t u
      → IsMoved app_id url token at t.store
      → IsMoved app_id url token at u.store
  Reach-IsMoved here m = m
  Reach-IsMoved (next r st) m = Step-IsMoved st (Reach-IsMoved r m)

completion-IsMoved :
    (now : ℤ) (app_id url token : String) (t u : Tables)
    → complete_move now app_id url token t ≡ ok u
    → IsMoved app_id url token now u.store
unfolding completed_move
completion-IsMoved now app_id url token t u h =
    let c = complete_move-ok now app_id url token t u h in
    subst (λ (z : Tables). IsMoved app_id url token now z.store) (sym c.tables)
      (record {
        row = ground (
          arith,
          get-put app_id app_id (moved_row app_id url token now) t.store.moves,
          eq_refl app_id,
        );
      })

-- Once a move is completed, whatever follows, requests to start, abort or complete moves included,
-- as long as the application is not registered again and its row is not purged: an event of that
-- application, not in the log yet, leaves the store as it is and sends nothing out, whoever submits
-- it, and an active member who reads or writes is told the space it went to and the token that
-- admits there, those of the completion.
pub moved_for_good :
    (now later : ℤ) (app_id url token key : String) (write : Bool) (t done u : Tables) (w : World)
    (event : Event) (submitter : User)
    → complete_move now app_id url token t ≡ ok done
    → Reach app_id done u
    → is_user_scoped event.type ≡ false
    → or_empty (string_at "applicationId" event.body) ≡ app_id
    → get_by_id event.id u.store ≡ none
    → is_member later app_id key u.store.repo ≡ true
    → ((accept_event w event submitter u.store).1 ≡ u.store)
      × ((accept_event w event submitter u.store).2 ≡ [])
      × (move_guard later app_id key write u.store ≡ err (moved url token ∷ []))
moved_for_good now later app_id url token key write t done u w event submitter c r scoped id new m =
    let gone =
      Reach-IsMoved app_id url token now r (completion-IsMoved now app_id url token t done c) in
    let (same, silent) = unadmitted_refused w event submitter u.store scoped new (λ e a q admitted.
      let here : e.application_id ≡ app_id = q ∙ id in
      let member = admitted-is_member w e a submitter u.store admitted in
      ok≢err admitted.guarded (
        ap (λ (z : String). move_guard (now_of w) z submitter.public_key true u.store) here
        ∙ move_guard-IsMoved app_id url token now (now_of w) submitter.public_key true u.store gone
            (subst (λ (z : String). is_member (now_of w) z submitter.public_key u.store.repo ≡ true)
              here member))) in
    (same, silent, move_guard-IsMoved app_id url token now later key write u.store gone m)
  where
    ok≢err : {r : Result (Unit {0})} {x : Error} → r ≡ ok tt → r ≡ err x → ⊥
    ok≢err y z = ground arith
