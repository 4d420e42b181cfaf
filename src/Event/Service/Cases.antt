-- ===== src/Event/Service/Cases.antt =====
-- The ways in which a submitted event ends: refused, answered as a retry, or persisted.
use prappser_spaces.Base.{
  ◌≡◌, refl, inl, inr, true, not, Option, none, some, [], Bool-cases, if◌then◌else◌,
}
use prappser_spaces.Result.{Result, ok, err, ◌>>=◌, ◌>>◌, Error}
use prappser_spaces.Application.{User}
use prappser_spaces.Event.{Event, is_user_scoped}
use prappser_spaces.Event.Validator.{validate_event}
use prappser_spaces.Event.Store.{Store, get_by_id}
use prappser_spaces.Event.Service.Persist.{Stored, struck, is_retry_of, persist_and_apply}
use prappser_spaces.Event.Service.{
  World, Reply, accept_event, route, admit, admit_user_scoped, announce, reply_of, accept_new,
  accept_routed,
}

-- The event with its author and its application, once it is valid.
abbrev pub routed : World → Event → User → Result Event
routed w event submitter =
    let e = record event { creator_public_key = submitter.public_key } in
    validate_event w.platform e
    >> (route (is_user_scoped e.type) e >>= λ e'. struck w.check_error >>= λ _. ok e')

-- The check of a routed event.
abbrev pub admitted : World → Event → User → Store → Result Event
admitted w e submitter s =
    if is_user_scoped e.type then admit_user_scoped e submitter else admit w e submitter s

pub record IsPersisted (w : World) (event : Event) (submitter : User) (s : Store) (r : Reply)
    : Type 0 where
  pub e : Event
  pub is_routed : routed w event submitter ≡ ok e
  pub a : Event
  pub is_admitted : admitted w e submitter s ≡ ok a
  pub stored : Stored
  pub persisted : persist_and_apply w.env (not (is_user_scoped e.type)) a s ≡ ok stored
  pub reply : r ≡ announce w (is_user_scoped e.type) submitter.agent stored

pub record IsReplayed (w : World) (event : Event) (submitter : User) (s : Store) (r : Reply)
    : Type 0 where
  pub e : Event
  pub is_routed : routed w event submitter ≡ ok e
  pub stored : Event
  pub found : get_by_id e.id s ≡ some stored
  pub retry : is_retry_of (some stored) e.application_id e.creator_public_key e.type ≡ true
  pub reply : r ≡ (ok stored, s, [])

pub record IsRefused (s : Store) (r : Reply) : Type 0 where
  pub error : Error
  pub reply : r ≡ (err error, s, [])

-- The three ways.
pub data Ending (w : World) (event : Event) (submitter : User) (s : Store) (r : Reply)
    : Type 0 where
  persisted : IsPersisted w event submitter s r → Ending w event submitter s r
  replayed : IsReplayed w event submitter s r → Ending w event submitter s r
  refused : IsRefused s r → Ending w event submitter s r

module _ (w : World) (event : Event) (submitter : User) (s : Store) where
  persist-ending :
      (e : Event)
      → routed w event submitter ≡ ok e
      → (a : Event) → admitted w e submitter s ≡ ok a
      → (m : Result Stored) → persist_and_apply w.env (not (is_user_scoped e.type)) a s ≡ m
      → Ending w event submitter s (reply_of w (is_user_scoped e.type) submitter.agent s m)
  unfolding reply_of
  persist-ending e re a ad (ok r) p = persisted (record {
    e = e;
    is_routed = re;
    a = a;
    is_admitted = ad;
    stored = r;
    persisted = p;
    reply = refl;
  })
  persist-ending e re a ad (err x) p = refused (record { error = x; reply = refl })

  admit-ending :
      (e : Event)
      → routed w event submitter ≡ ok e
      → (m : Result Event) → admitted w e submitter s ≡ m
      → Ending w event submitter s (
          reply_of w
            (is_user_scoped e.type)
            submitter.agent
            s
            (m >>= λ a. persist_and_apply w.env (not (is_user_scoped e.type)) a s))
  unfolding reply_of
  admit-ending e re (ok a) ad =
      persist-ending e re a ad (persist_and_apply w.env (not (is_user_scoped e.type)) a s) refl
  admit-ending e re (err x) ad = refused (record { error = x; reply = refl })

  new-ending :
      (e : Event)
      → routed w event submitter ≡ ok e
      → Ending w event submitter s (accept_new w e submitter s)
  unfolding accept_new
  new-ending e re = admit-ending e re (admitted w e submitter s) refl

  found-ending :
      (e : Event)
      → routed w event submitter ≡ ok e
      → (found : Option Event) → get_by_id e.id s ≡ found
      → Ending w event submitter s (elim found [
        | none ↦ accept_new w e submitter s
        | some stored ↦
            if is_retry_of (some stored) e.application_id e.creator_public_key e.type
            then (ok stored, s, [])
            else accept_new w e submitter s
      ])
  found-ending e re none f = new-ending e re
  found-ending e re (some stored) f =
      elim (Bool-cases (is_retry_of (some stored) e.application_id e.creator_public_key e.type)) [
        | inl t ↦ rw t (
            replayed (record {
              e = e;
              is_routed = re;
              stored = stored;
              found = f;
              retry = t;
              reply = refl;
            }))
        | inr n ↦ rw n (new-ending e re)
      ]

  routed-ending :
      (m : Result Event)
      → routed w event submitter ≡ m
      → Ending w event submitter s (accept_routed w submitter s m)
  unfolding accept_routed
  routed-ending (ok e) re = found-ending e re (get_by_id e.id s) refl
  routed-ending (err x) re = refused (record { error = x; reply = refl })

  pub accept-ending : Ending w event submitter s (accept_event w event submitter s)
  unfolding accept_event
  accept-ending = routed-ending (routed w event submitter) refl
