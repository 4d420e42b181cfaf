-- ===== src/Scenarios/Log.antt =====
-- Runs of the event service (internal/event/event_service.go) and its log.
use prappser_spaces.Base.{◌<◌, ◌≡◌, refl, none, some, [], inl, inr, arith, map}
use prappser_spaces.Base.Int.{pos}
use prappser_spaces.Result.{ok}
use prappser_spaces.Event.{Event}
use prappser_spaces.Event.Store.{
  Store, empty_store, get_by_id, create, completed, get_next_sequence, rows_since, without_space,
}
use prappser_spaces.Event.Store.Order.{IsOrdered}
use prappser_spaces.Event.Store.Paging.{catch_up, catch_up-all}
use prappser_spaces.Event.Store.Retention.{delete_older_than}
use prappser_spaces.Event.Store.Retention.Laws.{get_next_sequence-delete_older_than}
use prappser_spaces.Event.Service.{World, accept_event}
use prappser_spaces.Event.Service.Log.{here, next, other, accept, history-IsOrdered}
use prappser_spaces.Event.Service.Numbers.{numbers_never_reused}
use prappser_spaces.Event.Service.Retry.{accepted_found, retry_idempotent}
use prappser_spaces.Scenarios.{apart, noon, space, world, quiet, people, person, renamed, logged}
use prappser_spaces.Application.Memory.{get_application_by_id}
use prappser_spaces.Event.Validator.{validate_event, validate_application_data_changed_data}
use prappser_spaces.Event.{type_name}
use prappser_spaces.Event.Validator.Checks.{required}
use prappser_spaces.Value.{as_string, read}
use prappser_spaces.Event.Service.{admit}
use prappser_spaces.Event.Store.{move_guard}
use prappser_spaces.Base.Dict.{get}
use prappser_spaces.Event.Authorizer.{authorize_event, find_member, authorize_type}
use prappser_spaces.Application.Memory.{
  get_members_by_application_id, sort_by, is_member_active, update_application_metadata,
}
use prappser_spaces.Application.{agent_allowed}
use prappser_spaces.Event.Staleness.{check_event_staleness}
use prappser_spaces.Event.Service.Persist.{persist_and_apply}
use prappser_spaces.Event.Service.Execute.{execute_event, execute_application_data_changed}
use prappser_spaces.Event.Service.Execute.Fields.{nonempty}

abbrev stored : Event
stored = record (renamed "e5" "Plan") {
  application_id = "app";
  creator_public_key = "kim";
  sequence_number = 5;
  space_id = "s";
}

accepted_run : (accept_event world (renamed "e5" "Plan") (person "kim") space).0 ≡ ok stored
unfolding accept_event validate_event type_name validate_application_data_changed_data required
    as_string read get_by_id admit move_guard get get_application_by_id authorize_event find_member
    get_members_by_application_id sort_by is_member_active agent_allowed authorize_type
    check_event_staleness persist_and_apply create execute_event completed
    execute_application_data_changed nonempty update_application_metadata get_next_sequence
accepted_run = refl

abbrev after : Store
after = (accept_event world (renamed "e5" "Plan") (person "kim") space).1

accepted_found_example : get_by_id "e5" after ≡ some stored
accepted_found_example =
    accepted_found world (renamed "e5" "Plan") (person "kim") space stored accepted_run

-- An hour later, another member of the household has left.
abbrev later : World
later = record world {
  env = record quiet {
    context = record { now = pos 1767229200; fresh_id = "m7"; reminders = none };
  };
}

retry_idempotent_example :
    accept_event later (renamed "e5" "Plan") (person "kim") after ≡ (ok stored, after, [])
retry_idempotent_example =
    retry_idempotent world later (renamed "e5" "Plan") (person "kim") space after stored
      accepted_run refl refl accepted_found_example

pub space-IsOrdered : IsOrdered space
space-IsOrdered = record {
  rows = (
    (
      record { ordinals = omega arith; ids = apart "e3" "e4" refl; sequences = λ n e. omega arith },
      tt,
    ),
    (tt, tt),
  );
  given = (omega arith, (omega arith, tt));
  positive = (omega arith, (omega arith, tt));
  named = (apart "e3" "" refl, (apart "e4" "" refl, tt));
}

new_run : get_by_id "e5" space ≡ none
unfolding get_by_id
new_run = refl

numbers_never_reused_example : (logged 4 "e4").event.sequence_number < stored.sequence_number
numbers_never_reused_example =
    numbers_never_reused space space world (renamed "e5" "Plan") (person "kim") stored
      (logged 4 "e4") space-IsOrdered here (inr (inl refl)) accepted_run new_run
      (apart "app" "" refl) refl

history-IsOrdered_example :
    IsOrdered
      (accept_event world
        (renamed "e5" "Plan")
        (person "kim")
        (record empty_store { repo = people })).1
history-IsOrdered_example =
    history-IsOrdered
      (accept_event world (renamed "e5" "Plan") (person "kim")
        (record empty_store { repo = people })).1
      (next (next here (other empty_store people []))
        (accept world (renamed "e5" "Plan") (person "kim") (record empty_store { repo = people })))

catch_up-all_example :
    catch_up 5 noon "kim" (pos 1) "" space ≡ ok (map without_space (rows_since noon "kim" 0 space))
catch_up-all_example = catch_up-all noon "kim" space (pos 1) 5 space-IsOrdered (omega arith)

get_next_sequence-delete_older_than_example :
    get_next_sequence "app" (delete_older_than (pos 1767300000) space).1
    ≡ get_next_sequence "app" space
get_next_sequence-delete_older_than_example =
    get_next_sequence-delete_older_than (pos 1767300000) space "app" space-IsOrdered
      (apart "app" "" refl)
