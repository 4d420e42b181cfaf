-- ===== src/Event/Service/Moved.antt =====
-- The event that tells the members where their application went (ProduceApplicationMoved in
-- internal/event/event_service.go).
pub mod Frozen
pub mod Notice
pub mod Announced
use prappser_spaces.Base.{ℕ, String, ◌≡◌, refl, some, List}
use prappser_spaces.Base.Int.{pos}
use prappser_spaces.Value.{Fields, str, float64, empty, field}
use prappser_spaces.Event.{Event, application_moved}
use prappser_spaces.Event.Store.{Store}
use prappser_spaces.Event.Service.{World, Reply, produce_event}

-- ApplicationMovedData of version 1, as MarshalData leaves it: a map with JSON's numbers.
abbrev pub moved_body : String → String → String → Fields
moved_body app_id target_url token = field "version" (float64 (record { num = pos 1; scale = 0 })) (
    field "applicationId" (str app_id)
      (field "targetSpaceUrl" (str target_url) (field "inviteToken" (str token) empty)))

-- The event under a fresh UUID, before it is stored.
abbrev pub moved_event : String → String → String → String → String → Event
moved_event id app_id creator target_url token = record {
  id = id;
  created_at = pos 0;
  application_id = app_id;
  sequence_number = 0;
  type = application_moved;
  creator_public_key = creator;
  version = pos 1;
  body = some (moved_body app_id target_url token);
  space_id = "";
}

-- ProduceApplicationMoved
unfoldable pub produce_application_moved :
    World → String → String → String → String → String → Store → Reply
produce_application_moved w id app_id creator target_url token s =
    produce_event w (moved_event id app_id creator target_url token) s
