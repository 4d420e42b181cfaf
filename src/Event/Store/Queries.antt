-- ===== src/Event/Store/Queries.antt =====
-- The other queries of the events table (GetByApplicationID, GetOldestEventID and Count in
-- internal/event/event_repository.go).
use prappser_spaces.Base.{
  ℕ, zero, suc, String, Bool, ◌&&◌, ◌||◌, List, [], ◌∷◌, filter, map, take, length, ltb, eqb,
}
use prappser_spaces.Base.Int.{ℤ, ltb_ℤ, eqb_ℤ}
use prappser_spaces.Application.Memory.{sort_by}
use prappser_spaces.Event.{Event}
use prappser_spaces.Event.Store.{Row, Store, in_app, without_space}

-- `limit <= 0` is set to 100.
abbrev row_limit : ℤ → ℕ
row_limit (ℤ.pos zero) = 100
row_limit (ℤ.pos (suc n)) = suc n
row_limit (ℤ.negsuc n) = 100

-- ORDER BY sequence_number ASC, created_at ASC
abbrev earlier : Row → Row → Bool
earlier a b =
    ltb a.event.sequence_number b.event.sequence_number
    || eqb a.event.sequence_number b.event.sequence_number
      && ltb_ℤ a.event.created_at b.event.created_at

-- GetByApplicationID, which leaves out space_id
unfoldable pub get_events_by_application_id : String → ℤ → Store → List Event
get_events_by_application_id app_id limit s =
    map without_space (take (row_limit limit) (sort_by earlier (filter (in_app app_id) s.events)))

-- ORDER BY created_at ASC, id ASC, where `lt_text` is the order of the database's collation
abbrev older : (String → String → Bool) → Row → Row → Bool
older lt_text a b =
    ltb_ℤ a.event.created_at b.event.created_at
    || eqb_ℤ a.event.created_at b.event.created_at && lt_text a.event.id b.event.id

abbrev first_id : List Row → String
first_id [] = ""
first_id (row ∷ rows) = row.event.id

-- GetOldestEventID
unfoldable pub get_oldest_event_id : (String → String → Bool) → Store → String
get_oldest_event_id lt_text s = first_id (sort_by (older lt_text) s.events)

-- Count
unfoldable pub count_events : Store → ℕ
count_events s = length s.events
