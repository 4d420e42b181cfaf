-- ===== src/Event/Staleness.antt =====
-- The staleness gate for destructive events (internal/event/event_staleness.go).
pub mod Laws
use prappser_spaces.Base.{
  ℕ, ◌+◌, ◌-◌, ◌*◌, ◌/◌, ◌≤◌, ◌<◌, ◌≡◌, refl, ◌↔◌, Bool, true, false, not, ◌||◌, ◌&&◌, arith, ltb,
  leb, if◌then◌else◌, [], ◌∷◌,
}
use prappser_spaces.Base.Int.{
  ℤ, pos, negsuc, pos_part, neg_part, ◌-ℤ◌, ◌+ℤ◌, ◌<ℤ◌, ◌≤ℤ◌, ltb_ℤ, eqb_ℤ, wrap64, IsInt64,
}
use prappser_spaces.Value.Number.{quot}
use prappser_spaces.Result.{Result, ok, err, stale}
use prappser_spaces.Event.{
  EventType, application_deleted, member_removed, member_role_changed, invite_revoked,
  application_file_deleted,
}

-- The keys of destructiveEventTypes.
abbrev pub is_destructive : EventType → Bool
is_destructive application_deleted = true
is_destructive member_removed = true
is_destructive member_role_changed = true
is_destructive invite_revoked = true
is_destructive application_file_deleted = true
is_destructive _ = false

-- staleDestructiveWindowSeconds
abbrev pub window_seconds : ℕ
window_seconds = 30 * 24 * 60 * 60

abbrev pub ms_epoch_floor : ℕ
ms_epoch_floor = 10_000_000_000

unfoldable pub normalize_minted_at : ℤ → ℤ
normalize_minted_at minted = if ltb_ℤ (pos ms_epoch_floor) minted then quot minted 1000 else minted

-- `age` is an int64, so the subtraction wraps.
unfoldable pub check_event_staleness : EventType → ℤ → ℤ → Result (Unit {0})
unfolding normalize_minted_at
check_event_staleness type minted now =
    if eqb_ℤ minted (pos 0) || not (is_destructive type)
    then ok tt
    else if ltb_ℤ (pos window_seconds) (wrap64 (now -ℤ normalize_minted_at minted))
    then err (stale ∷ [])
    else ok tt
