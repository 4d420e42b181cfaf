-- ===== src/Scenarios.antt =====
-- A space with one application, its members and its log, on which the tests run.
pub mod Log
pub mod Moves
pub mod Files
pub mod Blobs
pub mod Overlaps
pub mod Entries
pub mod People
pub mod Sockets
pub mod Reminders
pub mod Guests
pub mod Limits
use prappser_spaces.Base.{
  ◌≡◌, ◌≢◌, ◌==◌, refl, eq_iff, arith, ℕ, String, Bool, true, false, Option, none, some, List, [],
  ◌∷◌,
}
use prappser_spaces.Base.Int.{ℤ, pos}
use prappser_spaces.Value.{Value, Fields, Items, str, int, arr, obj, empty, field, end, item}
use prappser_spaces.Result.{Result, ok, err}
use prappser_spaces.Application.{
  Application, Component, ComponentGroup, Member, Role, User, owner, admin, member,
}
use prappser_spaces.Application.Memory.{Repository}
use prappser_spaces.Event.{Event, EventType, application_data_changed, member_removed}
use prappser_spaces.Event.Store.{Store, Row}
use prappser_spaces.Event.Validator.Checks.{Platform}
use prappser_spaces.Event.Service.Persist.{Environment}
use prappser_spaces.Event.Service.Execute.{Context}
use prappser_spaces.Event.Service.Broadcast.{Outlets}
use prappser_spaces.Event.Service.{World}

-- 2026-01-01 00:00:00 UTC
abbrev pub noon : ℤ
noon = pos 1767225600

abbrev pub ana : Member
ana = record {
  id = "m1";
  application_id = "app";
  role = owner;
  public_key = "ana";
  display_name = some "Ana";
  avatar_storage_id = none;
  expires_at = none;
}

abbrev pub ben : Member
ben = record {
  id = "m2";
  application_id = "app";
  role = admin;
  public_key = "ben";
  display_name = none;
  avatar_storage_id = none;
  expires_at = none;
}

abbrev pub kim : Member
kim = record {
  id = "m3";
  application_id = "app";
  role = member;
  public_key = "kim";
  display_name = some "Kim";
  avatar_storage_id = none;
  expires_at = none;
}

abbrev pub board : Application
board = record {
  id = "app";
  name = "Board";
  icon = none;
  space_public_key = none;
  space_id = none;
  created_at = noon;
  updated_at = noon;
  deleted_at = none;
  groups = [];
  members = [];
  last_sequence = some 4;
  agent_read_enabled = false;
}

abbrev pub notes : ComponentGroup
notes = record { id = "g1"; application_id = "app"; name = "Notes"; index = pos 0; components = [] }

abbrev pub todo : Component
todo = record {
  id = "c1";
  group_id = "g1";
  application_id = "app";
  name = "todo";
  content = none;
  index = pos 0;
}

abbrev pub people : Repository
people = record {
  applications = ("app", board) ∷ [];
  groups = ("g1", notes) ∷ [];
  components = ("c1", todo) ∷ [];
  members = ("m1", ana) ∷ ("m2", ben) ∷ ("m3", kim) ∷ [];
}

abbrev pub renamed : String → String → Event
renamed id name = record {
  id = id;
  created_at = noon;
  application_id = "";
  sequence_number = 0;
  type = application_data_changed;
  creator_public_key = "";
  version = pos 1;
  body = some (field "applicationId" (str "app") (field "name" (str name) empty));
  space_id = "";
}

abbrev pub removal : String → String → Event
removal id key = record (renamed id "") {
  type = member_removed;
  body = some (field "applicationId" (str "app") (field "memberPublicKey" (str key) empty));
}

-- An event of the log, of number `n`.
abbrev pub logged : ℕ → String → Row
logged n id = record {
  ordinal = n;
  event = record (renamed id "Board") {
    application_id = "app";
    creator_public_key = "ana";
    sequence_number = n;
    space_id = "s";
  };
}

abbrev pub space : Store
space = record {
  repo = people;
  moves = [];
  events = logged 3 "e3" ∷ logged 4 "e4" ∷ [];
  last_ordinal = 4;
}

abbrev pub quiet : Environment
quiet = record {
  context = record { now = noon; fresh_id = "m9"; reminders = none };
  begin_error = none;
  lock_error = none;
  lookup_error = none;
  sequence_error = none;
  insert_error = none;
  execute_error = none;
  commit_error = none;
}

abbrev pub world : World
world = record {
  env = quiet;
  platform = record { knows_tz = λ _. true; json_size = λ _. some 10 };
  outlets = record {
    has_broadcaster = true;
    has_pusher = true;
    members_error = none;
    application_error = none;
  };
  check_error = none;
  guard_error = none;
  load_error = none;
}

abbrev pub person : String → User
person key = record {
  public_key = key;
  role = "user";
  space_id = "s";
  device_public_key = "d";
  agent = false;
}

-- Two texts that the test tells apart.
pub apart : (a b : String) → (a == b) ≡ false → a ≢ b
apart a b h e = ground (arith, (eq_iff a b).1 e)
