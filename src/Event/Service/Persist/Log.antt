-- ===== src/Event/Service/Persist/Log.antt =====
-- The log after a transaction: in order, with the event in it under a number of its own.
use prappser_spaces.Base.{
  ◌+◌, ◌<◌, String, ◌≡◌, ◌≢◌, refl, sym, ◌∙◌, inl, inr, Bool, true, false, ap, none, some, List, [],
  ◌∷◌, ◌++◌, ◌==◌, arith, eq_iff, eq_refl, find, Bool-cases, Option-cases, if◌then◌else◌,
}
use mathlib.Core.Path.{subst}
use prappser_spaces.Result.{ok}
use prappser_spaces.Event.{Event, is_user_scoped, type_eq, type_name}
use prappser_spaces.Event.Store.{
  Row, Store, get_by_id, get_next_sequence, completed, append, max_sequence,
}
use prappser_spaces.Event.Store.Order.{LogStep, same, appended}
use prappser_spaces.Event.Service.Persist.{Environment, persist_and_apply, is_retry_of}
use prappser_spaces.Event.Service.Persist.Laws.{numbered, IsApplied, persist-ok}

-- An event as its caller hands it to the transaction: an app-scoped one has its application, and a
-- user-scoped one has none.
pub record IsScoped (sequenced : Bool) (e : Event) : Type 0 where
  pub named : e.id ≢ ""
  pub app : sequenced ≡ true → e.application_id ≢ ""
  pub user : sequenced ≡ false → (e.application_id ≡ "") × (is_user_scoped e.type ≡ true)

-- Completing such an event changes neither its application nor its time.
numbered-application_id :
    (env : Environment) (sequenced : Bool) (e : Event) (s : Store)
    → IsScoped sequenced e
    → (numbered env sequenced e s).application_id ≡ e.application_id
unfolding completed
numbered-application_id env true e s h = ground (arith, h.app refl, eq_iff e.application_id "")
numbered-application_id env false e s h =
    ground (arith, (h.user refl).0, (h.user refl).1, eq_iff e.application_id "")

numbered-id :
    (env : Environment) (sequenced : Bool) (e : Event) (s : Store)
    → ((numbered env sequenced e s).id ≡ e.id)
      × ((numbered env sequenced e s).sequence_number
          ≡ (if sequenced then get_next_sequence e.application_id s else 0))
      × ((numbered env sequenced e s).type ≡ e.type)
      × ((numbered env sequenced e s).creator_public_key ≡ e.creator_public_key)
unfolding completed
numbered-id env sequenced e s = (refl, refl, refl, refl)

below_next : (app : String) (s : Store) → max_sequence app s.events < get_next_sequence app s
unfolding get_next_sequence
below_next app s = omega arith

find-append :
    (p : Row → Bool) (xs : List Row) (y : Row)
    → find p xs ≡ none
    → p y ≡ true
    → find p (xs ++ y ∷ []) ≡ some y
find-append p [] y h t = ground (arith, t)
find-append p (x ∷ xs) y h t = elim (Bool-cases (p x)) [
  | inl c ↦ absurd (ground (arith, c))
  | inr c ↦ ground (arith, c, find-append p xs y (ground (arith, c)) t)
]

get_by_id-append :
    (e : Event) (s : Store) → get_by_id e.id s ≡ none → get_by_id e.id (append e s) ≡ some e
unfolding get_by_id append
get_by_id-append e s h =
    let test = λ (row : Row). row.event.id == e.id in
    elim (Option-cases (find test s.events)) [
      | inl n ↦ ground (
        arith,
        find-append test s.events (record { ordinal = s.last_ordinal + 1; event = e }) n
            (eq_refl e.id),
      )
      | inr f ↦ absurd (ground (arith, f.1))
    ]

module _ (env : Environment) (sequenced : Bool) (e : Event) (s : Store) (e' : Event) (s' : Store)
    (scope : IsScoped sequenced e) (done : IsApplied env sequenced e s e' s') where
  applied-id : e'.id ≡ e.id
  applied-id = ap (λ (z : Event). z.id) done.event ∙ (numbered-id env sequenced e s).0

  pub applied-application_id : e'.application_id ≡ e.application_id
  applied-application_id =
      ap (λ (z : Event). z.application_id) done.event
      ∙ numbered-application_id env sequenced e s scope

  -- An app-scoped event has the next number of its application.
  pub applied-sequence_number :
      e'.sequence_number ≡ (if sequenced then get_next_sequence e.application_id s else 0)
  applied-sequence_number =
      ap (λ (z : Event). z.sequence_number) done.event ∙ (numbered-id env sequenced e s).1

  pub applied_above :
      e'.application_id ≢ "" → max_sequence e'.application_id s.events < e'.sequence_number
  applied_above n = elim (Bool-cases sequenced) [
    | inl t ↦ rw applied-application_id (
        omega (
          arith,
          below_next e.application_id s,
          applied-sequence_number
              ∙ ap (λ b. if b then get_next_sequence e.application_id s else 0) t,
        ))
    | inr f ↦ absurd (n (applied-application_id ∙ (scope.user f).0))
  ]

  new_id : get_by_id e'.id s ≡ none
  new_id = rw applied-id done.new

  pub applied-LogStep : LogStep s s'
  unfolding append
  applied-LogStep =
      appended e' (ap (λ (z : Store). z.events) done.store)
        (ap (λ (z : Store). z.last_ordinal) done.store) new_id
        (λ z. scope.named (sym applied-id ∙ z)) applied_above

  pub applied-type : e'.type ≡ e.type
  applied-type = ap (λ (z : Event). z.type) done.event ∙ (numbered-id env sequenced e s).2

  applied-creator : e'.creator_public_key ≡ e.creator_public_key
  applied-creator =
      ap (λ (z : Event). z.creator_public_key) done.event ∙ (numbered-id env sequenced e s).3

  -- A second attempt finds the event, and is a retry of it.
  pub applied-found : get_by_id e.id s' ≡ some e'
  unfolding get_by_id
  applied-found =
      subst (λ z. get_by_id e.id z ≡ some e') (sym done.store)
        (subst (λ z. get_by_id z (append e' s) ≡ some e') applied-id (get_by_id-append e' s new_id))

  pub applied-is_retry_of :
      is_retry_of (some e') e.application_id e.creator_public_key e.type ≡ true
  unfolding is_retry_of type_eq
  applied-is_retry_of =
      rw (applied-application_id, applied-creator, applied-type)
        (ground (
          arith,
          eq_refl e.application_id,
          eq_refl e.creator_public_key,
          eq_refl (type_name e.type),
        ))

-- Whatever the transaction returns for a scoped event, the log is as it was or has one more row.
pub persist-LogStep :
    (env : Environment) (sequenced : Bool) (e : Event) (s : Store) (e' : Event) (dup : Bool)
    (s' : Store)
    → IsScoped sequenced e
    → persist_and_apply env sequenced e s ≡ ok (e', dup, s')
    → LogStep s s'
persist-LogStep env sequenced e s e' dup s' scope h =
    elim (persist-ok env sequenced e s e' dup s' h) [
      | inl (d, kept) ↦
          same (ap (λ (z : Store). z.events) kept.store)
            (ap (λ (z : Store). z.last_ordinal) kept.store)
      | inr (d, done) ↦ applied-LogStep env sequenced e s e' s' scope done
    ]
