-- ===== src/Event/Service.antt =====
-- The event service (internal/event/event_service.go): a request to it returns the stored event or
-- an error, with the store that it leaves and the calls that it makes on the hub and the pusher.
pub mod Errors
pub mod Execute
pub mod Persist
pub mod Broadcast
pub mod Cases
pub mod Admission
pub mod Log
pub mod Numbers
pub mod Retry
pub mod Owners
pub mod Refusal
pub mod Conflict
pub mod Sync
pub mod Moved
use prappser_spaces.Base.{
  ℕ, String, ◌≡◌, refl, Bool, true, false, not, ◌&&◌, ◌||◌, Option, none, some, List, [], ◌∷◌, ◌==◌,
  any, if◌then◌else◌,
}
use prappser_spaces.Base.Int.{ℤ}
use prappser_spaces.Result.{
  Result, ok, err, ◌>>=◌, ◌>>◌, guard, Error, validation, unappliable, is_not_found,
}
use prappser_spaces.Application.{Application, User}
use prappser_spaces.Application.Memory.{get_application_by_id}
use prappser_spaces.Event.{Event, EventType, is_user_scoped}
use prappser_spaces.Event.Staleness.{check_event_staleness}
use prappser_spaces.Event.Validator.{validate_event}
use prappser_spaces.Event.Validator.Checks.{Platform, or_empty}
use prappser_spaces.Event.Authorizer.{string_at, authorize_event, authorize_user_scoped_event}
use prappser_spaces.Event.Store.{Store, get_by_id, move_guard}
use Persist.{Environment, Stored, struck, is_retry_of, persist_and_apply}
use Broadcast.{Call, to_user, Outlets, broadcast_event}

-- What surrounds a request: the parts of the service, and the database errors that strike the
-- reads before the transaction.
pub record World : Type 0 where
  pub env : Environment
  pub platform : Platform
  pub outlets : Outlets
  pub check_error : Option Error
  pub guard_error : Option Error
  pub load_error : Option Error

-- The result, the store and the calls.
abbrev pub Reply : Type 0
Reply = Result Event × Store × List Call

abbrev pub now_of : World → ℤ
now_of w = w.env.context.now

-- The application id that routes an event: that of its data, and none for a user-scoped one.
unfoldable pub route : Bool → Event → Result Event
route true e = ok (record e { application_id = "" })
route false e =
    let id = or_empty (string_at "applicationId" e.body) in
    if id == "" then err (validation ∷ []) else ok (record e { application_id = id })

-- `errors.Is(err, ErrNotFound)` makes the error unappliable.
classify_load : Result Application → Result Application
classify_load (ok app) = ok app
classify_load (err e) = if any is_not_found e then err (unappliable ∷ e) else err e

-- The checks of an app-scoped event before its transaction.
unfoldable pub admit : World → Event → User → Store → Result Event
unfolding classify_load
admit w e submitter s = do
  let e' = record e { space_id = submitter.space_id }
  struck w.guard_error
  move_guard (now_of w) e'.application_id submitter.public_key true s
  app ←
      classify_load
        (struck w.load_error >> get_application_by_id (now_of w) e'.application_id s.repo)
  authorize_event e' (some submitter) (some app)
  check_event_staleness e'.type e'.created_at (now_of w)
  ok e'

-- acceptUserScopedEvent, its check
unfoldable pub admit_user_scoped : Event → User → Result Event
admit_user_scoped e submitter = authorize_user_scoped_event e (some submitter) >>= λ _.
    ok (record e { space_id = submitter.space_id })

user_call : Bool → Event → List Call
user_call false e = []
user_call true e = to_user e.creator_public_key e ∷ []

-- What a transaction that went well sends out: nothing for a duplicate.
unfoldable pub announce : World → Bool → Bool → Stored → Reply
unfolding user_call
announce w scoped agent (e, true, s) = (ok e, s, [])
announce w true agent (e, false, s) = (ok e, s, user_call w.outlets.has_broadcaster e)
announce w false agent (e, false, s) =
    (ok e, s, broadcast_event w.outlets (now_of w) e agent s.repo)

unfoldable pub reply_of : World → Bool → Bool → Store → Result Stored → Reply
unfolding announce
reply_of w scoped agent s (ok r) = announce w scoped agent r
reply_of w scoped agent s (err e) = (err e, s, [])

-- The part of AcceptEvent behind the check for a retry.
accept_new : World → Event → User → Store → Reply
unfolding reply_of
accept_new w e submitter s =
    let scoped = is_user_scoped e.type in
    reply_of w scoped submitter.agent s (
      (if scoped then admit_user_scoped e submitter else admit w e submitter s) >>= λ e'.
      persist_and_apply w.env (not scoped) e' s)

accept_routed : World → User → Store → Result Event → Reply
unfolding accept_new
accept_routed w submitter s (err x) = (err x, s, [])
accept_routed w submitter s (ok e) = elim (get_by_id e.id s) [
  | none ↦ accept_new w e submitter s
  | some stored ↦
      if is_retry_of (some stored) e.application_id e.creator_public_key e.type
      then (ok stored, s, [])
      else accept_new w e submitter s
]

-- AcceptEvent
unfoldable pub accept_event : World → Event → User → Store → Reply
unfolding route accept_routed
accept_event w event submitter s =
    let e = record event { creator_public_key = submitter.public_key } in
    accept_routed w submitter s (
      validate_event w.platform e
      >> (route (is_user_scoped e.type) e >>= λ e'. struck w.check_error >>= λ _. ok e'))

-- ProduceEvent; a user-scoped event with an application id is app-scoped.
unfoldable pub produce_event : World → Event → Store → Reply
unfolding route reply_of
produce_event w e s =
    let scoped = is_user_scoped e.type && (e.application_id == "") in
    reply_of w scoped false s (
      validate_event w.platform e
      >> ((if scoped then ok e else route false e) >>= λ e'.
          persist_and_apply w.env (not scoped) e' s))
