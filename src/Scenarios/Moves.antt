-- ===== src/Scenarios/Moves.antt =====
-- A client that catches up with the space, and the move of its application to another space
-- (internal/event/event_service.go, internal/application/repository.go).
use prappser_spaces.Base.{
  ◌≡◌, ◌↔◌, String, refl, true, false, none, some, [], ◌∷◌, inl, inr, arith, eq_iff, In,
  if◌then◌else◌,
}
use prappser_spaces.Base.Dict.{get, put}
use prappser_spaces.Base.Int.{pos}
use prappser_spaces.Result.{ok, err, moved}
use prappser_spaces.Application.Memory.{
  is_member, is_member_active, get_application_by_id, get_groups_by_application_id,
  get_components_by_group_id, get_members_by_application_id, sort_by,
}
use prappser_spaces.Application.Memory.Versions.{
  OwnIds, versions_of, get_app_versions_by_member_public_key,
}
use prappser_spaces.Value.{as_string, read}
use prappser_spaces.Event.{Event}
use prappser_spaces.Application.{Application}
use prappser_spaces.Application.Memory.Listing.{get_applications_by_member_public_key}
use prappser_spaces.Application.Memory.Listing.Laws.{listed_iff}
use prappser_spaces.Event.Store.{
  get_since, rows_since, page, page_limit, get_by_id, move_guard, max_sequence,
}
use prappser_spaces.Event.Store.Moves.{Tables, complete_move, completed_move, abort_move}
use prappser_spaces.Event.Store.Retention.{cleanup_old_events}
use prappser_spaces.Event.Service.{accept_event}
use prappser_spaces.Event.Service.Sync.{EventsResponse, get_events_since}
use prappser_spaces.Event.Service.Sync.Laws.{expected_version, caught_up_versions}
use prappser_spaces.Event.Service.Sync.Cursor.{idle_cursor_kept}
use prappser_spaces.Event.Service.Moved.Frozen.{here, next, abort, moved_for_good}
use prappser_spaces.Scenarios.{apart, noon, space, world, people, person, renamed, logged, board}
use prappser_spaces.Scenarios.{notes, todo, ana, ben, kim}
use prappser_spaces.Scenarios.Log.{space-IsOrdered}

people-OwnIds : OwnIds people.applications
unfolding get
people-OwnIds id app h = ground (arith, eq_iff "app" id)

abbrev caught_up : EventsResponse
caught_up = record {
  events = record ((logged 4 "e4").event) { space_id = "" } ∷ [];
  has_more = false;
  full_resync_required = false;
  reason = "";
  app_versions = ("app", record { last_sequence = 4 }) ∷ [];
}

caught_up_run : get_events_since none none noon "kim" "e3" (pos 10) space ≡ ok caught_up
unfolding get_events_since get_since is_member is_member_active
    get_app_versions_by_member_public_key versions_of get put
caught_up_run = refl

caught_up_versions_example : get "app" caught_up.app_versions ≡ (
    if is_member noon "app" "kim" people
    then expected_version (get "app" people.applications)
    else none)
caught_up_versions_example =
    caught_up_versions none noon "kim" "e3" "app" (pos 10) space caught_up people-OwnIds
      caught_up_run refl

newest_run : 4 ≡ max_sequence "app" space.events
unfolding max_sequence
newest_run = refl

idle_cursor_kept_example :
    let t = (cleanup_old_events (pos 1800000000) (pos 7) space).1 in
    (resp : EventsResponse) × (get_events_since none none (pos 1800000000) "kim" "e4" (pos 10) t
      ≡ ok resp)
    × (resp.full_resync_required ≡ false)
    × ((resp.events, resp.has_more)
        ≡ page (page_limit (pos 10)) (rows_since (pos 1800000000) "kim" 4 t))
idle_cursor_kept_example =
    idle_cursor_kept none (pos 1800000000) (pos 7) (pos 1800000000) "kim" (pos 10) space
      (logged 4 "e4") space-IsOrdered (inr (inl refl)) (apart "app" "" refl) newest_run

-- The application is on its way to another space.
abbrev under_way_tables : Tables
under_way_tables = record {
  store = record space {
    moves =
        (
          "app",
          record { moved_to = some "https://b.example"; invite_token = none; moved_at = none },
        )
        ∷ [];
  };
  invitations = record { invitations = []; uses = [] };
}

abbrev gone : Tables
gone = completed_move noon "app" "https://b.example" "t0" board under_way_tables

gone_run : complete_move noon "app" "https://b.example" "t0" under_way_tables ≡ ok gone
unfolding complete_move get
gone_run = refl

-- Somebody asks to abort it all the same.
abbrev aborted : Tables
aborted = record gone { store = abort_move "app" gone.store }

unknown_run : get_by_id "e5" aborted.store ≡ none
unfolding get_by_id abort_move completed_move get put
unknown_run = refl

still_member_run : is_member noon "app" "kim" aborted.store.repo ≡ true
unfolding abort_move completed_move is_member is_member_active get put
still_member_run = refl

moved_for_good_example :
    ((accept_event world (renamed "e5" "Plan") (person "kim") aborted.store).1 ≡ aborted.store)
    × ((accept_event world (renamed "e5" "Plan") (person "kim") aborted.store).2 ≡ [])
    × (move_guard noon "app" "kim" true aborted.store ≡ err (moved "https://b.example" "t0" ∷ []))
unfolding as_string read
moved_for_good_example =
    moved_for_good noon noon "app" "https://b.example" "t0" "kim" true under_way_tables gone aborted
      world (renamed "e5" "Plan") (person "kim") gone_run (next here (abort "app" gone)) refl refl
      unknown_run still_member_run

-- The board as kim reads it.
abbrev read_board : Application
read_board = record board {
  groups = record notes { components = todo ∷ [] } ∷ [];
  members = ana ∷ ben ∷ kim ∷ [];
}

listed_iff_example : In read_board (get_applications_by_member_public_key noon "kim" people) ↔ (
    (id : String) × (is_member noon id "kim" people ≡ true)
    × (get_application_by_id noon id people ≡ ok read_board))
listed_iff_example = listed_iff noon "kim" people read_board

read_run : get_application_by_id noon "app" people ≡ ok read_board
unfolding get_application_by_id get get_groups_by_application_id get_components_by_group_id
    get_members_by_application_id sort_by is_member_active
read_run = refl

listed_run : In read_board (get_applications_by_member_public_key noon "kim" people)
unfolding get_applications_by_member_public_key get_application_by_id get
    get_groups_by_application_id get_components_by_group_id get_members_by_application_id sort_by
    is_member_active
listed_run = inl refl
