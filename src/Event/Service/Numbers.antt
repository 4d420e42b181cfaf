-- ===== src/Event/Service/Numbers.antt =====
-- Sequence numbers over a history: each new event of an application has one that is above all that
-- were ever given in it.
use prappser_spaces.Base.{
  ◌≤◌, ◌<◌, String, ◌≡◌, ◌≢◌, refl, sym, ◌∙◌, inl, inr, Bool, true, false, ap, not, none, some,
  ◌==◌, arith, eq_iff, In, find, Option-cases,
}
use mathlib.Core.Path.{subst₂}
use prappser_spaces.Base.Members.{All-In, find-some}
use prappser_spaces.Result.{ok}
use prappser_spaces.Application.{User}
use prappser_spaces.Event.{Event, is_user_scoped}
use prappser_spaces.Event.Store.{Row, Store, get_by_id, max_sequence, in_app}
use prappser_spaces.Event.Store.Order.{IsOrdered, le-max_sequence}
use prappser_spaces.Event.Service.Persist.{Stored}
use prappser_spaces.Event.Service.Persist.Laws.{IsApplied, persist-ok}
use prappser_spaces.Event.Service.Persist.Log.{IsScoped, applied_above}
use prappser_spaces.Event.Service.{World, Reply, accept_event, announce}
use prappser_spaces.Event.Service.Cases.{
  persisted, replayed, refused, IsPersisted, accept-ending, admitted,
}
use prappser_spaces.Event.Service.Admission.{IsRouted, routed-ok}
use prappser_spaces.Event.Service.Log.{admitted-IsScoped, announce-store, Reach, Reach-max_sequence}

-- A lookup by id finds an event of that id.
pub get_by_id-id : (id : String) (s : Store) (e : Event) → get_by_id id s ≡ some e → e.id ≡ id
unfolding get_by_id
get_by_id-id id s e h =
    let test = λ (row : Row). row.event.id == id in
    elim (Option-cases (find test s.events)) [
      | inl n ↦ absurd (ground (arith, n))
      | inr (row, f) ↦ ground (arith, f, eq_iff row.event.id id, (find-some test s.events row f).1)
    ]

pub announce-event :
    (w : World) (scoped agent : Bool) (r : Stored) → (announce w scoped agent r).0 ≡ ok r.0
unfolding announce
announce-event w scoped agent (e, true, s) = refl
announce-event w true agent (e, false, s) = refl
announce-event w false agent (e, false, s) = refl

-- An event that was not in the log and is answered was appended to it and executed.
pub record IsNew (w : World) (event : Event) (submitter : User) (s : Store) (e' : Event)
    : Type 0 where
  pub e : Event
  pub routed : IsRouted w event submitter e
  pub a : Event
  pub is_admitted : admitted w e submitter s ≡ ok a
  pub scope : IsScoped (not (is_user_scoped e.type)) a
  pub applied :
      IsApplied w.env (not (is_user_scoped e.type)) a s e' (accept_event w event submitter s).1

pub ok-injective : {A : Type 0} {a b : A} → ok a ≡ ok b → a ≡ b
ok-injective h = ground arith

accepted-persisted :
    (w : World) (event : Event) (submitter : User) (s : Store) (e' : Event)
    → (r : Reply) → accept_event w event submitter s ≡ r
    → r.0 ≡ ok e'
    → get_by_id e'.id s ≡ none
    → IsPersisted w event submitter s r
    → IsNew w event submitter s e'
accepted-persisted w event submitter s e' r q h n p =
    let routed = routed-ok w event submitter p.e p.is_routed in
    let scope = admitted-IsScoped w event submitter s p.e p.a routed p.is_admitted in
    let scoped = is_user_scoped p.e.type in
    let same : p.stored.0 ≡ e' = ok-injective (
      sym (announce-event w scoped submitter.agent p.stored)
      ∙ (sym (ap (λ (z : Reply). z.0) p.reply) ∙ h)) in
    let kept : p.stored.2 ≡ (accept_event w event submitter s).1 =
      sym (announce-store w scoped submitter.agent p.stored)
      ∙ (sym (ap (λ (z : Reply). z.1) p.reply) ∙ sym (ap (λ (z : Reply). z.1) q)) in
    elim (persist-ok w.env (not scoped) p.a s p.stored.0 p.stored.1 p.stored.2 p.persisted) [
      | inl (d, dup) ↦
          let found : get_by_id p.a.id s ≡ some e' = dup.stored ∙ ap some same in
          let id = get_by_id-id p.a.id s e' found in
          absurd (none-some (sym n ∙ (ap (λ z. get_by_id z s) id ∙ found)))
      | inr (d, done) ↦ record {
        e = p.e;
        routed = routed;
        a = p.a;
        is_admitted = p.is_admitted;
        scope = scope;
        applied = subst₂ (λ x y. IsApplied w.env (not scoped) p.a s x y) same kept done;
      }
    ]
  where
    none-some : {x : Event} → none ≡ some x → ⊥
    none-some z = ground arith

-- An accepted event that was not in the log is new.
accepted-IsNew :
    (w : World) (event : Event) (submitter : User) (s : Store) (e' : Event)
    → (accept_event w event submitter s).0 ≡ ok e'
    → get_by_id e'.id s ≡ none
    → IsNew w event submitter s e'
accepted-IsNew w event submitter s e' h n = elim (accept-ending w event submitter s) [
  | persisted p ↦
      accepted-persisted w event submitter s e' (accept_event w event submitter s) refl h n p
  | replayed p ↦
      let same : p.stored ≡ e' = ok-injective (sym (ap (λ (z : Reply). z.0) p.reply) ∙ h) in
      let id = get_by_id-id p.e.id s p.stored p.found in
      absurd (ground (arith, n, p.found, same, id))
  | refused p ↦ absurd (ground (arith, ap (λ (z : Reply). z.0) p.reply, h))
]

-- From a store in order, when requests, events of the space itself, prunings and other changes of the
-- applications and members have followed one another in any way, and then an event of an
-- application, that is not in the log, is accepted into it: its number is above that of every row
-- that the application had at the start.
pub numbers_never_reused :
    (s t : Store) (w : World) (event : Event) (submitter : User) (e' : Event) (row : Row)
    → IsOrdered s
    → Reach s t
    → In row s.events
    → (accept_event w event submitter t).0 ≡ ok e'
    → get_by_id e'.id t ≡ none
    → e'.application_id ≢ ""
    → row.event.application_id ≡ e'.application_id
    → row.event.sequence_number < e'.sequence_number
numbers_never_reused s t w event submitter e' row o r i h n app same =
    let new = accepted-IsNew w event submitter t e' h n in
    let above =
      applied_above w.env (not (is_user_scoped new.e.type)) new.a t e'
        (accept_event w event submitter t).1 new.scope new.applied app in
    let grown = Reach-max_sequence e'.application_id r o app in
    omega (
      arith,
      above,
      grown,
      All-In
          (λ z.
            in_app e'.application_id z ≡ true
            → z.event.sequence_number ≤ max_sequence e'.application_id s.events)
          s.events row (le-max_sequence e'.application_id s.events) i
          ((eq_iff row.event.application_id e'.application_id).1 same),
    )
