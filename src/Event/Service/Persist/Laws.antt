-- ===== src/Event/Service/Persist/Laws.antt =====
-- What the transaction of an event leaves behind.
use prappser_spaces.Base.{
  ◌≡◌, refl, ◌⊎◌, inl, inr, Bool, true, false, Option, none, some, arith, if◌then◌else◌,
}
use prappser_spaces.Result.{Result, ok, err, ◌>>◌, >>-eq-ok, >>-holds}
use prappser_spaces.Application.Memory.{Repository}
use prappser_spaces.Event.{Event}
use prappser_spaces.Event.Store.{Store, get_by_id, get_next_sequence, create, completed, append}
use prappser_spaces.Event.Service.Execute.{execute_event}
use prappser_spaces.Event.Service.Persist.{
  Environment, persist_and_apply, is_retry_of, apply_new, deduplicate, transaction, lock,
  next_sequence, update_app_version, struck, classify, Stored,
}

-- The event as the transaction numbers and dates it.
abbrev pub numbered : Environment → Bool → Event → Store → Event
numbered env sequenced e s = completed env.context.now (record e {
  sequence_number = if sequenced then get_next_sequence e.application_id s else 0;
  created_at = env.context.now;
})

-- A new event was appended and executed.
pub record IsApplied (env : Environment) (sequenced : Bool) (e : Event) (s : Store) (e' : Event)
    (s' : Store) : Type 0 where
  pub new : get_by_id e.id s ≡ none
  pub event : e' ≡ numbered env sequenced e s
  pub repo : Repository
  pub executed : execute_event env.context e' s.repo ≡ ok repo
  pub store : s' ≡ record (append e' s) { repo = update_app_version env sequenced e' repo }

pub record IsDuplicate (e : Event) (s : Store) (e' : Event) (s' : Store) : Type 0 where
  pub stored : get_by_id e.id s ≡ some e'
  pub retry : is_retry_of (some e') e.application_id e.creator_public_key e.type ≡ true
  pub store : s' ≡ s

-- The rest of the transaction, once the execution is known.
applied :
    (env : Environment) (sequenced : Bool) (e : Event) (s : Store) (e' : Event) (dup : Bool)
    (s' : Store)
    → get_by_id e.id s ≡ none
    → apply_new env sequenced e s ≡ ok (e', dup, s')
    → (r : Result Repository) → execute_event env.context (numbered env sequenced e s) s.repo ≡ r
    → (dup ≡ false) × IsApplied env sequenced e s e' s'
unfolding apply_new next_sequence create append
applied env true e s e' dup s' n h (ok repo) x =
    let q : e' ≡ numbered env true e s = ground (arith, x) in
    (
      ground (arith, x),
      record { new = n; event = q; repo = repo; executed = rw q x; store = ground (arith, x) },
    )
applied env false e s e' dup s' n h (ok repo) x =
    let q : e' ≡ numbered env false e s = ground (arith, x) in
    (
      ground (arith, x),
      record { new = n; event = q; repo = repo; executed = rw q x; store = ground (arith, x) },
    )
applied env true e s e' dup s' n h (err y) x = absurd (ground (arith, x))
applied env false e s e' dup s' n h (err y) x = absurd (ground (arith, x))

-- What a transaction that went well did.
abbrev pub Outcome : Environment → Bool → Event → Store → Event → Bool → Store → Type 0
Outcome env sequenced e s e' dup s' =
    ((dup ≡ true) × IsDuplicate e s e' s') ⊎ ((dup ≡ false) × IsApplied env sequenced e s e' s')

deduplicate-ok :
    (env : Environment) (sequenced : Bool) (e : Event) (s : Store) (e' : Event) (dup : Bool)
    (s' : Store) (found : Option Event)
    → get_by_id e.id s ≡ found
    → deduplicate env sequenced e s found ≡ ok (e', dup, s')
    → Outcome env sequenced e s e' dup s'
unfolding deduplicate
deduplicate-ok env sequenced e s e' dup s' none n h = inr (
    applied env sequenced e s e' dup s' n h
      (execute_event env.context (numbered env sequenced e s) s.repo) refl)
deduplicate-ok env sequenced e s e' dup s' (some stored) n h =
    inl (ground arith, record { stored = ground arith; retry = ground arith; store = ground arith })

classify-ok : (m : Result Stored) {r : Stored} → classify m ≡ ok r → m ≡ ok r
unfolding classify
classify-ok (ok r) h = h
classify-ok (err e) h = cc

persisted :
    (env : Environment) (sequenced : Bool) (e : Event) (s : Store) {r : Stored}
    → persist_and_apply env sequenced e s ≡ ok r
    → transaction env sequenced e s ≡ ok r
unfolding persist_and_apply
persisted env sequenced e s h = classify-ok (transaction env sequenced e s) h

-- A request that the transaction answers was a retry, and changed nothing, or was appended to the
-- log with its number and time and executed.
pub persist-ok :
    (env : Environment) (sequenced : Bool) (e : Event) (s : Store) (e' : Event) (dup : Bool)
    (s' : Store)
    → persist_and_apply env sequenced e s ≡ ok (e', dup, s')
    → Outcome env sequenced e s e' dup s'
unfolding transaction
persist-ok env sequenced e s e' dup s' h =
    let body = deduplicate env sequenced e s (get_by_id e.id s) in
    let last = struck env.lookup_error >> body in
    let after = lock env sequenced e s >> last in
    deduplicate-ok env sequenced e s e' dup s' (get_by_id e.id s) refl (
      >>-eq-ok (struck env.lookup_error) body (
        >>-eq-ok (lock env sequenced e s) last
          (>>-eq-ok (struck env.begin_error) after (persisted env sequenced e s h))))

-- The lock that an answered request took.
pub persist-locked :
    (env : Environment) (sequenced : Bool) (e : Event) (s : Store) {r : Stored}
    → persist_and_apply env sequenced e s ≡ ok r
    → lock env sequenced e s ≡ ok tt
unfolding transaction
persist-locked env sequenced e s h =
    let last = struck env.lookup_error >> deduplicate env sequenced e s (get_by_id e.id s) in
    let after = lock env sequenced e s >> last in
    >>-holds (lock env sequenced e s) last
      (>>-eq-ok (struck env.begin_error) after (persisted env sequenced e s h))
