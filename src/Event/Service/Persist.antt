-- ===== src/Event/Service/Persist.antt =====
-- The transaction that persists and applies an event (persistAndApply in
-- internal/event/event_service.go).
pub mod Laws
pub mod Log
use prappser_spaces.Base.{
  ℕ, String, ◌≡◌, refl, Bool, true, false, not, ◌&&◌, ◌||◌, Option, none, some, [], ◌∷◌, ◌==◌,
  if◌then◌else◌,
}
use prappser_spaces.Base.Int.{ℤ, pos}
use prappser_spaces.Base.Dict.{get}
use prappser_spaces.Result.{Result, ok, err, ◌>>=◌, ◌>>◌, guard, Error, unappliable}
use prappser_spaces.Application.{Application}
use prappser_spaces.Application.Memory.{Repository, is_none, update_last_sequence}
use prappser_spaces.Event.{Event, EventType, type_eq, application_moved}
use prappser_spaces.Event.Store.{Store, get_by_id, get_next_sequence, create}
use prappser_spaces.Event.Service.Errors.{apply_err}
use prappser_spaces.Event.Service.Execute.{Context, execute_event}

-- The database errors that strike a request, at most one for each statement; `execute` is one
-- that strikes a statement of a handler. The context of the execution comes with them.
pub record Environment : Type 0 where
  pub context : Context
  pub begin_error : Option Error
  pub lock_error : Option Error
  pub lookup_error : Option Error
  pub sequence_error : Option Error
  pub insert_error : Option Error
  pub execute_error : Option Error
  pub commit_error : Option Error

-- A statement fails with the error that strikes it, if any.
abbrev pub struck : Option Error → Result (Unit {0})
struck none = ok tt
struck (some e) = err e

-- isRetryOf
unfoldable pub is_retry_of : Option Event → String → String → EventType → Bool
is_retry_of none app_id creator t = false
is_retry_of (some stored) app_id creator t =
    stored.application_id == app_id && stored.creator_public_key == creator && type_eq stored.type t

-- What the locked row says: an application that is not there or is deleted takes no event but
-- application_moved.
lock_application : Option Application → EventType → Result (Unit {0})
lock_application none t = err (unappliable ∷ [])
lock_application (some app) t =
    guard (is_none app.deleted_at || type_eq t application_moved) (unappliable ∷ [])

unfoldable pub lock : Environment → Bool → Event → Store → Result (Unit {0})
unfolding lock_application
lock env false e s = ok tt
lock env true e s =
    struck env.lock_error >> lock_application (get e.application_id s.repo.applications) e.type

-- The sequence number of an event: 0 for a user-scoped one.
unfoldable pub next_sequence : Environment → Bool → Event → Store → Result ℕ
next_sequence env false e s = ok 0
next_sequence env true e s =
    struck env.sequence_error >>= λ _. ok (get_next_sequence e.application_id s)

-- updateAppVersion; its errors are only logged.
or_unchanged : Repository → Result Repository → Repository
or_unchanged r (ok r') = r'
or_unchanged r (err _) = r

unfoldable pub update_app_version : Environment → Bool → Event → Repository → Repository
unfolding or_unchanged
update_app_version env false e r = r
update_app_version env true e r =
    if e.application_id == ""
    then r
    else or_unchanged r (update_last_sequence env.context.now e.application_id e.sequence_number r)

-- What the transaction returns, with the state that it commits: the stored event, whether it is a
-- duplicate, and the store.
abbrev pub Stored : Type 0
Stored = Event × Bool × Store

-- The part behind the check for a duplicate.
apply_new : Environment → Bool → Event → Store → Result Stored
unfolding next_sequence update_app_version
apply_new env sequenced e s = do
  seq ← next_sequence env sequenced e s
  struck env.insert_error
  (e', s') ←
      create env.context.now (record e { sequence_number = seq; created_at = env.context.now }) s
  struck env.execute_error
  r ← execute_event env.context e' s'.repo
  struck env.commit_error
  ok (e', false, record s' { repo = update_app_version env sequenced e' r })

deduplicate : Environment → Bool → Event → Store → Option Event → Result Stored
unfolding apply_new
deduplicate env sequenced e s none = apply_new env sequenced e s
deduplicate env sequenced e s (some stored) =
    if is_retry_of (some stored) e.application_id e.creator_public_key e.type
    then ok (stored, true, s)
    else err (unappliable ∷ [])

transaction : Environment → Bool → Event → Store → Result Stored
unfolding lock deduplicate
transaction env sequenced e s =
    struck env.begin_error
    >> (lock env sequenced e s
        >> (struck env.lookup_error >> deduplicate env sequenced e s (get_by_id e.id s)))

classify : Result Stored → Result Stored
classify (ok r) = ok r
classify (err e) = err (apply_err e)

-- persistAndApply: on an error nothing is committed, and the store is the caller's.
unfoldable pub persist_and_apply : Environment → Bool → Event → Store → Result Stored
unfolding transaction classify
persist_and_apply env sequenced e s = classify (transaction env sequenced e s)
