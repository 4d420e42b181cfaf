-- ===== src/Invitation/Repository.antt =====
-- The table of invitations and that of their uses (internal/invitation/invitation_repository.go).
pub mod Uses
pub mod Bounds
use prappser_spaces.Base.{
  String, Bool, true, false, ◌&&◌, Option, none, some, List, [], ◌∷◌, ◌==◌, any, find, filter, not,
  if◌then◌else◌,
}
use prappser_spaces.Base.Int.{ℤ, pos, ◌+ℤ◌, ◌-ℤ◌, ltb_ℤ, leb_ℤ}
use prappser_spaces.Result.{Result, ok, err, pq, max_uses_reached}
use prappser_spaces.Invitation.{Invitation, InvitationUse}

pub record Table : Type 0 where
  pub invitations : List Invitation
  pub uses : List InvitationUse

abbrev pub has_id : String → Invitation → Bool
has_id id i = i.id == id

-- A statement on the one row that the primary key finds, if its test takes the row: the rows it
-- leaves, or `none` where it affects no row.
abbrev pub kept_row : Invitation → Option (List Invitation) → Option (List Invitation)
kept_row i none = none
kept_row i (some rest) = some (i ∷ rest)

unfoldable pub update_row :
    (Invitation → Bool)
    → (Invitation → Invitation)
    → String
    → List Invitation
    → Option (List Invitation)
update_row test f id [] = none
update_row test f id (i ∷ rest) =
    let updated = update_row test f id rest in
    if has_id id i then (if test i then some (f i ∷ rest) else none) else kept_row i updated

-- Create
unfoldable pub create_invitation_row : Invitation → Table → Result Table
create_invitation_row i t =
    if any (has_id i.id) t.invitations
    then err (pq "23" "23505" "invitations_pkey" ∷ [])
    else ok (record t { invitations = i ∷ t.invitations })

abbrev pub or_not_found : Option Invitation → Result Invitation
or_not_found none = err []
or_not_found (some i) = ok i

-- GetByID
unfoldable pub get_invitation_by_id : String → Table → Result Invitation
get_invitation_by_id id t = or_not_found (find (has_id id) t.invitations)

-- Delete, which takes the uses along (invitation_uses.invitation_id, ON DELETE CASCADE).
unfoldable pub delete_invitation_row : String → Table → Result Table
delete_invitation_row id t =
    if any (has_id id) t.invitations
    then ok (record {
      invitations = filter (λ i. not (has_id id i)) t.invitations;
      uses = filter (λ u. not (u.invitation_id == id)) t.uses;
    })
    else err []

-- max_uses IS NULL OR used_count < max_uses
abbrev pub below : Option ℤ → ℤ → Bool
below none count = true
below (some limit) count = ltb_ℤ count limit

unfoldable pub has_use_left : Invitation → Bool
has_use_left i = below i.max_uses i.used_count

unfoldable pub claimed : Invitation → Invitation
claimed i = record i { used_count = i.used_count +ℤ pos 1 }

abbrev pub claimed_or_reached : Table → Option (List Invitation) → Result Table
claimed_or_reached t none = err (max_uses_reached ∷ [])
claimed_or_reached t (some l) = ok (record t { invitations = l })

-- IncrementUseCount
unfoldable pub increment_use_count : String → Table → Result Table
unfolding update_row has_use_left claimed
increment_use_count id t = claimed_or_reached t (update_row has_use_left claimed id t.invitations)

unfoldable pub is_used : Invitation → Bool
is_used i = ltb_ℤ (pos 0) i.used_count

unfoldable pub released : Invitation → Invitation
released i = record i { used_count = i.used_count -ℤ pos 1 }

abbrev pub released_or_same : Table → Option (List Invitation) → Table
released_or_same t none = t
released_or_same t (some l) = record t { invitations = l }

-- ReleaseUse
unfoldable pub release_use : String → Table → Result Table
unfolding update_row is_used released
release_use id t = ok (released_or_same t (update_row is_used released id t.invitations))

-- RecordUse, where the invitation has to exist; that the user does is left to the faults.
unfoldable pub record_use : InvitationUse → Table → Result Table
record_use u t =
    if any (λ v. v.id == u.id) t.uses
    then err (pq "23" "23505" "invitation_uses_pkey" ∷ [])
    else if any (has_id u.invitation_id) t.invitations
    then ok (record t { uses = u ∷ t.uses })
    else err (pq "23" "23503" "invitation_uses_invitation_id_fkey" ∷ [])

-- HasBeenUsedBy
unfoldable pub has_been_used_by : String → String → Table → Result Bool
has_been_used_by id key t =
    ok (any (λ u. (u.invitation_id == id) && (u.user_public_key == key)) t.uses)

insert_newest : Invitation → List Invitation → List Invitation
insert_newest i [] = i ∷ []
insert_newest i (j ∷ rest) =
    let later = insert_newest i rest in
    if leb_ℤ j.created_at i.created_at then i ∷ j ∷ rest else j ∷ later

-- ORDER BY created_at DESC
unfoldable pub newest_first : List Invitation → List Invitation
unfolding insert_newest
newest_first [] = []
newest_first (i ∷ rest) = insert_newest i (newest_first rest)

-- GetByApplicationID
unfoldable pub get_invitations_by_application_id : String → Table → Result (List Invitation)
unfolding newest_first
get_invitations_by_application_id app_id t =
    ok (newest_first (filter (λ i. i.application_id == app_id) t.invitations))
