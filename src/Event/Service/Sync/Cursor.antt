-- ===== src/Event/Service/Sync/Cursor.antt =====
-- The cursor of a client that was idle while the log was pruned (GetEventsSince and
-- CleanupOldEvents in internal/event/event_service.go).
use prappser_spaces.Base.{
  String, ◌≡◌, ◌≢◌, refl, ap, ◌∙◌, Bool, true, false, none, Option, List, In, arith,
}
use prappser_spaces.Base.Members.{In-filter}
use prappser_spaces.Base.Dict.{Dict}
use prappser_spaces.Base.Int.{ℤ}
use prappser_spaces.Result.{ok, Error}
use prappser_spaces.Event.{Event}
use prappser_spaces.Event.Store.{Row, Store, max_sequence, rows_since, page, page_limit}
use prappser_spaces.Event.Store.Order.{IsOrdered}
use prappser_spaces.Event.Store.Paging.{ordinal_of-id, get_since-ok}
use prappser_spaces.Event.Store.Retention.{
  survives, delete_older_than, cleanup_old_events, is_anchor,
}
use prappser_spaces.Event.Store.Retention.Laws.{newest-is_anchor, cleanup-IsOrdered}
use prappser_spaces.Event.Service.Sync.{
  AppVersion, EventsResponse, load_app_versions, page_response, respond, get_events_since,
}

anchor-In :
    (now days : ℤ) (s : Store) (r : Row)
    → In r s.events
    → is_anchor s.events r ≡ true
    → In r (cleanup_old_events now days s).1.events
unfolding cleanup_old_events delete_older_than survives
anchor-In now days s r i a = In-filter (survives _ s.events) s.events r i (ground (arith, a))

respond-ok :
    (versions : Dict AppVersion) (p : List Event × Bool)
    → respond versions (ok p) ≡ ok (page_response versions p)
unfolding respond
respond-ok versions p = refl

-- The newest row of an application, in a log that is in order, is a cursor that no pruning takes
-- away: a client that stands there, asks after any cleanup at any time, and whose query does not
-- fail, is not told to start over, but gets the first page of what lies above the row.
pub idle_cursor_kept :
    (versions_error : Option Error) (now days later : ℤ) (key : String) (limit : ℤ) (s : Store)
    (r : Row)
    → IsOrdered s
    → In r s.events
    → r.event.application_id ≢ ""
    → r.event.sequence_number ≡ max_sequence r.event.application_id s.events
    → (let t = (cleanup_old_events now days s).1 in
        (resp : EventsResponse) × (get_events_since none versions_error later key r.event.id limit t
          ≡ ok resp)
        × (resp.full_resync_required ≡ false)
        × ((resp.events, resp.has_more)
            ≡ page (page_limit limit) (rows_since later key r.ordinal t)))
unfolding get_events_since
idle_cursor_kept versions_error now days later key limit s r o i named newest =
    let t = (cleanup_old_events now days s).1 in
    let kept = anchor-In now days s r i (newest-is_anchor s.events r o.rows named i newest) in
    let cursor = ordinal_of-id r t (cleanup-IsOrdered now days s o) kept in
    let found = get_since-ok later key r.event.id limit t r.ordinal cursor in
    let versions = load_app_versions versions_error later key t.repo in
    let p = page (page_limit limit) (rows_since later key r.ordinal t) in
    (page_response versions p, ap (respond versions) found ∙ respond-ok versions p, refl, refl)
