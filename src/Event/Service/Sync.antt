-- ===== src/Event/Service/Sync.antt =====
-- What a client that synchronises is answered (GetEventsSince and loadAppVersions in
-- internal/event/event_service.go).
pub mod Laws
pub mod Cursor
use prappser_spaces.Base.{
  ℕ, String, ◌≡◌, refl, Bool, true, false, Option, none, some, List, [], ◌∷◌, any, if◌then◌else◌,
}
use prappser_spaces.Base.Dict.{Dict, get, put}
use prappser_spaces.Base.Int.{ℤ}
use prappser_spaces.Result.{Result, ok, err, ◌>>◌, Error, Mark, cursor_not_found}
use prappser_spaces.Application.Memory.{Repository}
use prappser_spaces.Application.Memory.Versions.{
  AppVersionInfo, get_app_versions_by_member_public_key,
}
use prappser_spaces.Event.{Event}
use prappser_spaces.Event.Store.{Store, get_since}
use prappser_spaces.Event.Service.Persist.{struck}

pub record AppVersion : Type 0 where
  pub last_sequence : ℕ

-- A map that is nil and one that is empty are one here: both are left out of the JSON.
pub record EventsResponse : Type 0 where
  pub events : List Event
  pub has_more : Bool
  pub full_resync_required : Bool
  pub reason : String
  pub app_versions : Dict AppVersion

-- The loop of loadAppVersions: an application without a number has no entry.
abbrev with_sequence : String → Option ℕ → Dict AppVersion → Dict AppVersion
with_sequence id none m = m
with_sequence id (some n) m = put id (record { last_sequence = n }) m

unfoldable pub app_sequences : Dict AppVersionInfo → Dict AppVersion
app_sequences [] = []
app_sequences ((id, info) ∷ m) = with_sequence id info.last_sequence (app_sequences m)

-- loadAppVersions, with the database error that strikes its query; that error is only logged.
unfoldable pub load_app_versions : Option Error → ℤ → String → Repository → Dict AppVersion
unfolding app_sequences
load_app_versions (some e) now key r = []
load_app_versions none now key r = app_sequences (get_app_versions_by_member_public_key now key r)

abbrev pub is_cursor_not_found : Mark → Bool
is_cursor_not_found cursor_not_found = true
is_cursor_not_found _ = false

-- The response with a page: one that is not the last comes without versions.
abbrev pub page_response : Dict AppVersion → List Event × Bool → EventsResponse
page_response versions p = record {
  events = p.0;
  has_more = p.1;
  full_resync_required = false;
  reason = "";
  app_versions = if p.1 then [] else versions;
}

-- The response that makes a client start over.
abbrev pub resync_response : Dict AppVersion → EventsResponse
resync_response versions = record {
  events = [];
  has_more = false;
  full_resync_required = true;
  reason = "Events expired or gap detected";
  app_versions = versions;
}

-- What follows GetSince, where `versions` are those that loadAppVersions returns.
unfoldable pub respond : Dict AppVersion → Result (List Event × Bool) → Result EventsResponse
respond versions (ok p) = ok (page_response versions p)
respond versions (err e) =
    if any is_cursor_not_found e then ok (resync_response versions) else err e

-- GetEventsSince, with the database errors that strike its two queries
unfoldable pub get_events_since :
    Option Error → Option Error → ℤ → String → String → ℤ → Store → Result EventsResponse
unfolding load_app_versions respond
get_events_since events_error versions_error now key cursor limit s =
    respond (load_app_versions versions_error now key s.repo)
      (struck events_error >> get_since now key cursor limit s)
