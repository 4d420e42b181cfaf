-- ===== src/Event/Store.antt =====
-- The database that the event service works on: the application repository, the move columns of
-- the applications table, and the events table (internal/event/event_repository.go,
-- internal/application/repository.go).
pub mod Order
pub mod Retention
pub mod Paging
pub mod Queries
pub mod Moves
use prappser_spaces.Base.{
  ℕ, zero, suc, ◌+◌, ◌-◌, max, String, ◌≡◌, refl, Bool, true, false, not, ◌&&◌, ◌||◌, Option, none,
  some, List, [], ◌∷◌, ◌++◌, ◌==◌, map, filter, find, any, take, drop, length, ltb, leb, eqb,
  if◌then◌else◌,
}
use prappser_spaces.Base.Dict.{Dict, get, put}
use prappser_spaces.Base.Int.{ℤ, ltb_ℤ, eqb_ℤ}
use prappser_spaces.Value.{Value, Fields, read, as_string}
use prappser_spaces.Result.{
  Result, ok, err, ◌>>=◌, ◌>>◌, guard, Error, Mark, moving, moved, cursor_not_found,
}
use prappser_spaces.Application.{Application, Member}
use prappser_spaces.Application.Memory.{Repository, new, is_member}
use prappser_spaces.Event.{Event, EventType, is_user_scoped, template_changed, type_eq}
use prappser_spaces.Event.Authorizer.{string_at}

-- The columns moved_to_url, move_invite_token and moved_at of an application's row.
pub record Move : Type 0 where
  pub moved_to : Option String
  pub invite_token : Option String
  pub moved_at : Option ℤ

-- A row of the events table; the database numbers the rows by `ordinal`, a BIGSERIAL.
pub record Row : Type 0 where
  pub ordinal : ℕ
  pub event : Event

pub record Store : Type 0 where
  pub repo : Repository
  pub moves : Dict Move
  -- in the order of their ordinals
  pub events : List Row
  -- the last ordinal that was given
  pub last_ordinal : ℕ

abbrev pub empty_store : Store
empty_store = record { repo = new; moves = []; events = []; last_ordinal = 0 }

abbrev pub text_or_empty : Option String → String
text_or_empty none = ""
text_or_empty (some s) = s

guard_move : Bool → Bool → Option Move → Result (Unit {0})
guard_move write member none = ok tt
guard_move write member (some v) = elim v.moved_at [
  | some t ↦
      if member
      then err (moved (text_or_empty v.moved_to) (text_or_empty v.invite_token) ∷ [])
      else ok tt
  | none ↦ elim v.moved_to [ none ↦ ok tt | some url ↦ guard (not write) (moving ∷ []) ]
]

-- MoveGuard; an application with no row has no move columns.
unfoldable pub move_guard : ℤ → String → String → Bool → Store → Result (Unit {0})
unfolding guard_move
move_guard now app_id key write s =
    guard_move write (is_member now app_id key s.repo) (get app_id s.moves)

abbrev pub in_app : String → Row → Bool
in_app app_id row = row.event.application_id == app_id

-- The rows of application_id NULL are those of user-scoped events, whose field is "".
unfoldable pub max_sequence : String → List Row → ℕ
max_sequence app_id [] = 0
max_sequence app_id (row ∷ rows) =
    let rest = max_sequence app_id rows in
    if in_app app_id row then max row.event.sequence_number rest else rest

abbrev pub or_zero : Option ℕ → ℕ
or_zero none = 0
or_zero (some n) = n

unfoldable pub last_sequence_of : Option Application → ℕ
last_sequence_of none = 0
last_sequence_of (some app) = or_zero app.last_sequence

-- GetNextSequence
unfoldable pub get_next_sequence : String → Store → ℕ
unfolding max_sequence last_sequence_of
get_next_sequence app_id s =
    max (max_sequence app_id s.events) (last_sequence_of (get app_id s.repo.applications)) + 1

-- GetByID
unfoldable pub get_by_id : String → Store → Option Event
get_by_id id s = elim (find (λ row. row.event.id == id) s.events) [
  | none ↦ none
  | some row ↦ some row.event
]

-- The application id that Create writes: the one of the data where an app-scoped event has none.
resolve_application : Event → String
resolve_application e =
    if e.application_id == "" && not (is_user_scoped e.type)
    then text_or_empty (string_at "applicationId" e.body)
    else e.application_id

-- The event as Create leaves it and writes it.
unfoldable pub completed : ℤ → Event → Event
unfolding resolve_application
completed now e = record e {
  created_at = if eqb_ℤ e.created_at (ℤ.pos 0) then now else e.created_at;
  application_id = resolve_application e;
}

unfoldable pub append : Event → Store → Store
append e s = record s {
  events = s.events ++ record { ordinal = s.last_ordinal + 1; event = e } ∷ [];
  last_ordinal = s.last_ordinal + 1;
}

-- Create, with the event that it leaves; a second row of the same id breaks the primary key.
unfoldable pub create : ℤ → Event → Store → Result (Event × Store)
unfolding append
create now e s = elim (get_by_id e.id s) [
  | some _ ↦ err (Mark.pq "23" "23505" "events_pkey" ∷ [])
  | none ↦ ok (completed now e, append (completed now e) s)
]

abbrev pub is_visible : ℤ → String → Repository → Event → Bool
is_visible now key r e =
    if e.application_id == ""
    then e.creator_public_key == key
    else is_member now e.application_id key r

-- The rows that the query of GetSince selects, and the first of them, without space_id.
unfoldable pub rows_since : ℤ → String → ℕ → Store → List Row
rows_since now key since s =
    filter (λ row. ltb since row.ordinal && is_visible now key s.repo row.event) s.events

abbrev pub without_space : Row → Event
without_space row = record (row.event) { space_id = "" }

-- `limit <= 0 || limit > 500` is set to 100.
abbrev pub page_limit : ℤ → ℕ
page_limit (ℤ.pos zero) = 100
page_limit (ℤ.pos (suc n)) = if ltb 500 (suc n) then 100 else suc n
page_limit (ℤ.negsuc n) = 100

-- The ordinal of the cursor's row; an empty cursor stands before all rows.
unfoldable pub ordinal_of : String → Store → Result ℕ
ordinal_of id s = if id == "" then ok 0 else elim (find (λ row. row.event.id == id) s.events) [
  | none ↦ err (cursor_not_found ∷ [])
  | some row ↦ ok row.ordinal
]

-- At most limit + 1 rows are read, to see whether there are more than `limit`.
unfoldable pub page : ℕ → List Row → List Event × Bool
page limit rows =
    let read = take (limit + 1) rows in
    (map without_space (take limit read), ltb limit (length read))

-- GetSince
unfoldable pub get_since : ℤ → String → String → ℤ → Store → Result (List Event × Bool)
unfolding rows_since ordinal_of page
get_since now key since_id limit s = do
  since ← ordinal_of since_id s
  ok (page (page_limit limit) (rows_since now key since s))
