-- ===== src/Event/Service/Moved/Notice.antt =====
-- Who hears of a completed move (ProduceApplicationMoved and broadcastEvent in
-- internal/event/event_service.go).
use prappser_spaces.Base.{
  String, ◌≡◌, ◌≢◌, refl, sym, ap, Bool, true, false, ◌&&◌, Option, none, some, List, [], ◌∷◌, ◌==◌,
  inl, inr, eq_iff, arith, In, filter, ltb, Bool-cases, if◌then◌else◌,
}
use mathlib.Core.Path.{subst}
use prappser_spaces.Base.Members.{In-append_left, In-append_right, In-filter}
use prappser_spaces.Base.Dict.{get}
use prappser_spaces.Base.Int.{ℤ}
use prappser_spaces.Value.{read, as_string}
use prappser_spaces.Result.{Error, ok}
use prappser_spaces.Application.{Application, Member}
use prappser_spaces.Application.Memory.{
  Repository, is_none, role_order, values, member_of, is_member_active,
  get_members_by_application_id, update_last_sequence,
}
use prappser_spaces.Application.Memory.Sorting.{In-sort}
use prappser_spaces.Event.{Event, application_moved, type_name, type_eq}
use prappser_spaces.Event.Validator.{validate_event, validate_application_moved_data}
use prappser_spaces.Event.Validator.Checks.{Platform, required}
use prappser_spaces.Event.Store.{Store, get_by_id, get_next_sequence, append, create, completed}
use prappser_spaces.Event.Service.Persist.{
  Environment, persist_and_apply, lock, next_sequence, update_app_version,
}
use prappser_spaces.Event.Service.Persist.Laws.{numbered}
use prappser_spaces.Event.Service.Execute.{Context, execute_event}
use prappser_spaces.Event.Service.Broadcast.{
  to_user, Outlets, is_user_channel_fanout, user_calls, broadcast_event, members_for,
}
use prappser_spaces.Event.Service.{World, produce_event, announce, reply_of, route}
use prappser_spaces.Event.Service.Moved.{moved_event, produce_application_moved}

-- A request that no database error strikes, where the hub is there.
abbrev pub calm : Context → Platform → Bool → Option Error → World
calm c p has_pusher application_error = record {
  env = record {
    context = c;
    begin_error = none;
    lock_error = none;
    lookup_error = none;
    sequence_error = none;
    insert_error = none;
    execute_error = none;
    commit_error = none;
  };
  platform = p;
  outlets = record {
    has_broadcaster = true;
    has_pusher = has_pusher;
    members_error = none;
    application_error = application_error;
  };
  check_error = none;
  guard_error = none;
  load_error = none;
}

pub moved_event-valid :
    (p : Platform) (id app_id creator url token : String)
    → id ≢ ""
    → app_id ≢ ""
    → creator ≢ ""
    → url ≢ ""
    → token ≢ ""
    → validate_event p (moved_event id app_id creator url token) ≡ ok tt
unfolding validate_event validate_application_moved_data required read as_string type_name
moved_event-valid p id app_id creator url token i a c u t =
    ground
      (arith, eq_iff id "", eq_iff app_id "", eq_iff creator "", eq_iff url "", eq_iff token "")

-- What the transaction leaves of it.
abbrev pub announced : World → Event → Store → Event × Bool × Store
announced w e s =
    let e' = numbered w.env true e s in
    (e', false, record (append e' s) { repo = update_app_version w.env true e' s.repo })

create_new :
    (now : ℤ) (e : Event) (s : Store)
    → get_by_id e.id s ≡ none
    → create now e s ≡ ok (completed now e, append (completed now e) s)
unfolding create
create_new now e s n = rw (create, n) refl

moved_event-persisted :
    (c : Context) (p : Platform) (b : Bool) (x : Option Error)
    (id app_id creator url token : String) (s : Store) (app : Application)
    → get_by_id id s ≡ none
    → get app_id s.repo.applications ≡ some app
    → (let e = moved_event id app_id creator url token in
        let w = calm c p b x in persist_and_apply w.env true e s ≡ ok (announced w e s))
unfolding persist_and_apply lock next_sequence execute_event type_eq completed append
moved_event-persisted c p b x id app_id creator url token s app n f =
    let e = record (moved_event id app_id creator url token) {
      sequence_number = get_next_sequence app_id s;
      created_at = c.now;
    } in
    elim (Bool-cases (is_none app.deleted_at)) [
      | inl t ↦ rw (f, t, n, create_new c.now e s n) refl
      | inr t ↦ rw (f, t, n, create_new c.now e s n) refl
    ]

user_calls-In :
    (e : Event) (l : List Member) (m : Member)
    → In m l
    → In (to_user m.public_key e) (user_calls e l)
unfolding user_calls
user_calls-In e [] m i = absurd i
user_calls-In e (x ∷ l) m (inl q) = inl (ap (λ (z : Member). to_user z.public_key e) q)
user_calls-In e (x ∷ l) m (inr i) = inr (user_calls-In e l m i)

-- The members that a broadcast of a move goes to are the active ones.
active-In :
    (now : ℤ) (app_id : String) (r : Repository) (m : Member)
    → In m (values r.members)
    → member_of now app_id m.public_key m ≡ true
    → In m (get_members_by_application_id now app_id r)
unfolding get_members_by_application_id
active-In now app_id r m i a =
    let active = λ (x : Member). x.application_id == app_id && is_member_active now x in
    In-sort (λ x y. ltb (role_order x.role) (role_order y.role)) m
      (filter active (values r.members))
      (In-filter active (values r.members) m i (ground (arith, a)))

members_for-moved :
    (o : Outlets) (now : ℤ) (e : Event) (r : Repository)
    → o.members_error ≡ none
    → e.type ≡ application_moved
    → e.application_id ≢ ""
    → members_for o now e r ≡ get_members_by_application_id now e.application_id r
unfolding members_for
members_for-moved o now e r x t n = ground (arith, x, t, eq_iff e.application_id "")

pub broadcast-moved :
    (o : Outlets) (now : ℤ) (e : Event) (agent : Bool) (r : Repository) (m : Member)
    → o.has_broadcaster ≡ true
    → o.members_error ≡ none
    → e.type ≡ application_moved
    → e.application_id ≢ ""
    → In m (values r.members)
    → member_of now e.application_id m.public_key m ≡ true
    → In (to_user m.public_key e) (broadcast_event o now e agent r)
unfolding broadcast_event
broadcast-moved o now e agent r m h x t n i a =
    let call = to_user m.public_key e in
    let all = members_for-moved o now e r x t n in
    let test : is_user_channel_fanout e.type && o.has_broadcaster ≡ true = ground (arith, h, t) in
    let own : In call (
        if is_user_channel_fanout e.type && o.has_broadcaster
        then user_calls e (members_for o now e r)
        else []) =
      subst (λ b. In call (if b then user_calls e (members_for o now e r) else [])) (sym test)
        (subst (λ l. In call (user_calls e l)) (sym all)
          (user_calls-In e (get_members_by_application_id now e.application_id r) m
            (active-In now e.application_id r m i a))) in
    search (In-append_right, In-append_left, own)

-- The number that the application's row takes leaves the members alone.
pub update_app_version-members :
    (env : Environment) (sequenced : Bool) (e : Event) (r : Repository)
    → (update_app_version env sequenced e r).members ≡ r.members
unfolding update_app_version update_last_sequence
update_app_version-members env false e r = refl
update_app_version-members env true e r = ground arith

moved_event-routed :
    (id app_id creator url token : String)
    → app_id ≢ ""
    → (let e = moved_event id app_id creator url token in route false e ≡ ok e)
unfolding route read as_string
moved_event-routed id app_id creator url token a = ground (arith, eq_iff app_id "")

pub moved_event-produced :
    (c : Context) (p : Platform) (b : Bool) (x : Option Error)
    (id app_id creator url token : String) (s : Store) (app : Application)
    → validate_event p (moved_event id app_id creator url token) ≡ ok tt
    → app_id ≢ ""
    → get_by_id id s ≡ none
    → get app_id s.repo.applications ≡ some app
    → (let w = calm c p b x in
        let t = announced w (moved_event id app_id creator url token) s in
        produce_application_moved w id app_id creator url token s
        ≡ (ok t.0, t.2, broadcast_event w.outlets c.now t.0 false t.2.repo))
unfolding produce_application_moved produce_event reply_of announce route
moved_event-produced c p b x id app_id creator url token s app v a n f =
    rw
      (
        v,
        moved_event-routed id app_id creator url token a,
        moved_event-persisted c p b x id app_id creator url token s app n f,
      )
      refl
