-- ===== src/Event/Service/Admission.antt =====
-- What an event has passed before its transaction.
use prappser_spaces.Base.{
  ◌≡◌, ◌≢◌, sym, inl, inr, Bool, true, false, some, ◌==◌, arith, eq_iff, Bool-cases, if◌then◌else◌,
}
use mathlib.Core.Path.{subst}
use prappser_spaces.Result.{Result, ok, err, ◌>>=◌, ◌>>◌, >>=-eq-ok, >>-eq-ok, >>-holds}
use prappser_spaces.Application.{Application, User}
use prappser_spaces.Application.Memory.{get_application_by_id}
use prappser_spaces.Event.{Event, is_user_scoped}
use prappser_spaces.Event.Authorizer.{string_at, authorize_event, authorize_user_scoped_event}
use prappser_spaces.Event.Staleness.{check_event_staleness}
use prappser_spaces.Event.Validator.{validate_event}
use prappser_spaces.Event.Validator.Checks.{Platform, or_empty}
use prappser_spaces.Event.Store.{Store, move_guard}
use prappser_spaces.Event.Service.Persist.{struck}
use prappser_spaces.Event.Service.{World, now_of, route, admit, admit_user_scoped, classify_load}
use prappser_spaces.Event.Service.Cases.{routed, admitted}

pub record IsAdmitted (w : World) (e : Event) (submitter : User) (s : Store) (a : Event)
    : Type 0 where
  pub event : a ≡ record e { space_id = submitter.space_id }
  pub guarded : move_guard (now_of w) e.application_id submitter.public_key true s ≡ ok tt
  pub app : Application
  pub loaded : get_application_by_id (now_of w) e.application_id s.repo ≡ ok app
  pub authorized : authorize_event a (some submitter) (some app) ≡ ok tt
  pub fresh : check_event_staleness e.type e.created_at (now_of w) ≡ ok tt

classify_load-ok :
    (m : Result Application) {app : Application} → classify_load m ≡ ok app → m ≡ ok app
unfolding classify_load
classify_load-ok (ok a) h = h
classify_load-ok (err e) h = absurd (ground arith)

pub admit-ok :
    (w : World) (e : Event) (submitter : User) (s : Store) (a : Event)
    → admit w e submitter s ≡ ok a
    → IsAdmitted w e submitter s a
unfolding admit
admit-ok w e submitter s a h =
    let e' = record e { space_id = submitter.space_id } in
    let guarded = move_guard (now_of w) e.application_id submitter.public_key true s in
    let load = struck w.load_error >> get_application_by_id (now_of w) e.application_id s.repo in
    let checks = λ (app : Application).
      (authorize_event e' (some submitter) (some app)
        >> (check_event_staleness e.type e.created_at (now_of w) >> ok e')) in
    let behind = classify_load load >>= checks in
    let h₁ = >>-eq-ok (struck w.guard_error) (guarded >> behind) h in
    let (app, l, h₂) = >>=-eq-ok (classify_load load) checks (>>-eq-ok guarded behind h₁) in
    let auth = authorize_event e' (some submitter) (some app) in
    let stale = check_event_staleness e.type e.created_at (now_of w) in
    let h₃ = >>-eq-ok auth (stale >> ok e') h₂ in
    let q : a ≡ e' = ground (arith, >>-eq-ok stale (ok e') h₃) in
    record {
      event = q;
      guarded = >>-holds guarded behind h₁;
      app = app;
      loaded =
          >>-eq-ok (struck w.load_error) (get_application_by_id (now_of w) e.application_id s.repo)
            (classify_load-ok load l);
      authorized =
          subst (λ z. authorize_event z (some submitter) (some app) ≡ ok tt) (sym q)
            (>>-holds auth (stale >> ok e') h₂);
      fresh = >>-holds stale (ok e') h₃;
    }

user_scoped-same :
    (e : Event) (submitter : User) (a : Event)
    → admit_user_scoped e submitter ≡ ok a
    → (authorize_user_scoped_event e (some submitter) ≡ ok tt)
      × (a ≡ record e { space_id = submitter.space_id })
unfolding admit_user_scoped
user_scoped-same e submitter a h =
    let authorized = authorize_user_scoped_event e (some submitter) in
    let e' = record e { space_id = submitter.space_id } in
    (>>-holds authorized (ok e') h, ground (arith, >>-eq-ok authorized (ok e') h))

-- An admitted event differs from the routed one in its space alone.
pub admitted-same :
    (w : World) (e : Event) (submitter : User) (s : Store) (a : Event)
    → admitted w e submitter s ≡ ok a
    → a ≡ record e { space_id = submitter.space_id }
admitted-same w e submitter s a h = elim (Bool-cases (is_user_scoped e.type)) [
  | inl t ↦ (user_scoped-same e submitter a (rw t at h)).1
  | inr f ↦ (admit-ok w e submitter s a (rw f at h)).event
]

-- A routed event: valid, written by its submitter, with the application of its data.
pub record IsRouted (w : World) (event : Event) (submitter : User) (e : Event) : Type 0 where
  pub valid :
      validate_event w.platform (record event { creator_public_key = submitter.public_key }) ≡ ok tt
  pub same : e ≡ record event {
    creator_public_key = submitter.public_key;
    application_id =
        if is_user_scoped event.type then "" else or_empty (string_at "applicationId" event.body);
  }
  pub in_application : is_user_scoped event.type ≡ false → e.application_id ≢ ""

pub route-ok :
    (scoped : Bool) (e e' : Event)
    → route scoped e ≡ ok e'
    → (e' ≡ record e {
      application_id = if scoped then "" else or_empty (string_at "applicationId" e.body);
    })
      × (scoped ≡ false → e'.application_id ≢ "")
unfolding route
route-ok true e e' h = (ground arith, λ f. absurd (ground arith))
route-ok false e e' h = elim (Bool-cases (or_empty (string_at "applicationId" e.body) == "")) [
  | inl t ↦ absurd (ground (arith, t))
  | inr n ↦ (
    ground (arith, n),
    λ _ z. ground (arith, n, eq_iff (or_empty (string_at "applicationId" e.body)) ""),
  )
]

pub routed-ok :
    (w : World) (event : Event) (submitter : User) (e : Event)
    → routed w event submitter ≡ ok e
    → IsRouted w event submitter e
routed-ok w event submitter e h =
    let b = record event { creator_public_key = submitter.public_key } in
    let valid = validate_event w.platform b in
    let check = λ (e' : Event). (struck w.check_error >>= λ _. ok e') in
    let behind = route (is_user_scoped b.type) b >>= check in
    let (e₁, r, h₁) = >>=-eq-ok (route (is_user_scoped b.type) b) check (>>-eq-ok valid behind h) in
    let q : e₁ ≡ e = ground (arith, >>-eq-ok (struck w.check_error) (ok e₁) h₁) in
    let (same, inside) = route-ok (is_user_scoped b.type) b e (rw (← q) r) in
    record { valid = >>-holds valid behind h; same = same; in_application = inside }

-- A valid event has an id.
pub valid-named : (p : Platform) (e : Event) → validate_event p e ≡ ok tt → e.id ≢ ""
unfolding validate_event
valid-named p e h z = ground (arith, eq_iff e.id "")
