-- ===== src/Event/Store/Retention.antt =====
-- The pruning of old events (DeleteOlderThan in internal/event/event_repository.go and
-- CleanupOldEvents in internal/event/event_service.go).
pub mod Laws
use prappser_spaces.Base.{
  ℕ, ◌+◌, ◌-◌, ◌*◌, ◌^◌, max, String, ◌≡◌, refl, Bool, true, false, not, ◌&&◌, ◌||◌, Option, none,
  some, List, [], ◌∷◌, ◌==◌, filter, any, length, ltb, leb, eqb, if◌then◌else◌,
}
use prappser_spaces.Base.Int.{ℤ, pos, negsuc, pos_part, neg_part, ◌-ℤ◌, ltb_ℤ}
use prappser_spaces.Value.{Value, float64, int64, int, read}
use prappser_spaces.Value.Number.{Float}
use prappser_spaces.Event.{Event, EventType, template_changed, type_eq}
use prappser_spaces.Event.Authorizer.{string_at}
use prappser_spaces.Event.Store.{Row, Store, in_app}
use prappser_spaces.Event.Service.Execute.Fields.{value_at}

-- A user-scoped row of a creator: its application_id is NULL.
abbrev pub own : String → Row → Bool
own creator row = row.event.application_id == "" && row.event.creator_public_key == creator

-- SELECT MAX(ordinal) of the rows that pass a test
unfoldable pub max_ordinal : (Row → Bool) → List Row → ℕ
max_ordinal p [] = 0
max_ordinal p (row ∷ rows) =
    let rest = max_ordinal p rows in if p row then max row.ordinal rest else rest

-- (data::jsonb->>'rev')::numeric
numeric : Value → Option Float
numeric (float64 f) = some f
numeric (int64 n) = some (record { num = n; scale = 0 })
numeric (int n) = some (record { num = n; scale = 0 })
numeric _ = none

unfoldable pub rev_of : Event → Option Float
unfolding numeric
rev_of e = numeric (value_at "rev" e.body)

-- a / 2 ^ i < b / 2 ^ j
abbrev pub lt_float : Float → Float → Bool
lt_float a b =
    ltb (pos_part a.num * 2 ^ b.scale + neg_part b.num * 2 ^ a.scale)
      (pos_part b.num * 2 ^ a.scale + neg_part a.num * 2 ^ b.scale)

-- The order of the ranking: NULL stands above all numbers.
unfoldable pub lower_rev : Option Float → Option Float → Bool
lower_rev none b = false
lower_rev (some a) none = true
lower_rev (some a) (some b) = lt_float a b

abbrev same_text : Option String → Option String → Bool
same_text none none = true
same_text none (some _) = false
same_text (some _) none = false
same_text (some a) (some b) = a == b

-- The rows of the subquery on templates, and its partition.
abbrev pub is_template : Row → Bool
is_template row = row.event.application_id == "" && type_eq row.event.type template_changed

unfoldable pub same_template : Row → Row → Bool
same_template a b =
    is_template b
    && (a.event.creator_public_key == b.event.creator_public_key)
    && same_text (string_at "id" a.event.body) (string_at "id" b.event.body)

-- The row of rank 1: no row of its partition has a higher rev.
abbrev pub outranks : Row → Row → Bool
outranks a b = same_template a b && lower_rev (rev_of a.event) (rev_of b.event)

-- The ordinals that the NOT IN list keeps.
unfoldable pub is_anchor : List Row → Row → Bool
is_anchor rows row =
    if row.event.application_id == ""
    then eqb row.ordinal (max_ordinal (own row.event.creator_public_key) rows)
      || (is_template row && not (any (outranks row) rows))
    else eqb row.ordinal (max_ordinal (in_app row.event.application_id) rows)

unfoldable pub survives : ℤ → List Row → Row → Bool
survives before rows row = not (ltb_ℤ row.event.created_at before) || is_anchor rows row

-- DeleteOlderThan, with the number of rows deleted
unfoldable pub delete_older_than : ℤ → Store → ℕ × Store
delete_older_than before s =
    let left = filter (survives before s.events) s.events in
    (length s.events - length left, record s { events = left })

-- CleanupOldEvents: a retention that is not positive is 7 days. A day is taken as 24 hours: the
-- space's clock runs in a zone without daylight saving.
unfoldable pub cleanup_old_events : ℤ → ℤ → Store → ℕ × Store
unfolding delete_older_than
cleanup_old_events now days s =
    let kept = if ltb_ℤ (pos 0) days then pos_part days else 7 in
    delete_older_than (now -ℤ pos (kept * 86400)) s
