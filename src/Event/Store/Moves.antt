-- ===== src/Event/Store/Moves.antt =====
-- The move of an application to another space, on the tables (StartMove, AbortMove and CompleteMove
-- in internal/application/repository.go).
pub mod Final
use prappser_spaces.Base.{
  ℕ, String, ◌≡◌, refl, Bool, true, false, not, ◌&&◌, ◌||◌, any, Option, none, some, List, [], ◌∷◌,
  ◌==◌, filter, if◌then◌else◌,
}
use prappser_spaces.Base.Dict.{Dict, get, put, remove}
use prappser_spaces.Base.Int.{ℤ}
use prappser_spaces.Result.{Result, ok, err, not_moving}
use prappser_spaces.Application.{Application, Component, ComponentGroup}
use prappser_spaces.Application.Memory.{Repository, is_none, values}
use prappser_spaces.Event.Store.{Store, Move, in_app}
use prappser_spaces.Invitation.{Invitation, InvitationUse}
use prappser_spaces.Invitation.Repository.{Table}

-- The tables that a move writes.
pub record Tables : Type 0 where
  pub store : Store
  pub invitations : Table

-- The columns of an application that never moved are NULL.
abbrev pub columns : Option Move → Move
columns none = record { moved_to = none; invite_token = none; moved_at = none }
columns (some v) = v

abbrev pub columns_of : String → Store → Move
columns_of app_id s = columns (get app_id s.moves)

abbrev pub set_columns : String → Move → Store → Store
set_columns app_id v s = record s { moves = put app_id v s.moves }

-- The row is there, and deleted_at IS NULL.
abbrev pub is_live : Option Application → Bool
is_live none = false
is_live (some app) = is_none app.deleted_at

-- StartMove, with the number of rows affected
unfoldable pub start_move : String → String → Store → ℕ × Store
start_move app_id url s =
    let v = columns_of app_id s in
    if is_live (get app_id s.repo.applications) && is_none v.moved_at
    then (1, set_columns app_id (record v { moved_to = some url }) s)
    else (0, s)

-- AbortMove
unfoldable pub abort_move : String → Store → Store
abort_move app_id s =
    let v = columns_of app_id s in
    if not (is_none (get app_id s.repo.applications)) && is_none v.moved_at
    then set_columns app_id (record v { moved_to = none }) s
    else s

-- DELETE FROM components and component_groups WHERE application_id = $1
abbrev pub without {ℓ} : {V : Type ℓ} → (V → Bool) → Dict V → Dict V
without p [] = []
without p ((id, v) ∷ m) = let rest = without p m in if p v then rest else (id, v) ∷ rest

abbrev pub deleted_application : ℤ → Application → Application
deleted_application now app = record app { deleted_at = some now }

-- The columns of a row that an application is registered in (upsertApplication): NULL again.
unfoldable pub clear_move : String → Store → Store
clear_move app_id s = record s { moves = remove app_id s.moves }

-- What the deletions take along (component_group_id and invitation_id, ON DELETE CASCADE).
abbrev in_group_of : String → Dict ComponentGroup → Component → Bool
in_group_of app_id groups c =
    any (λ g. g.application_id == app_id && g.id == c.group_id) (values groups)

abbrev is_use_of : String → List Invitation → InvitationUse → Bool
is_use_of app_id l u = any (λ i. i.application_id == app_id && i.id == u.invitation_id) l

-- The rows that CompleteMove leaves, of an application that is moving.
unfoldable pub completed_move : ℤ → String → String → String → Application → Tables → Tables
completed_move now app_id url token app t =
    let s = t.store in
    let r = s.repo in
    record {
      store = record s {
        repo = record r {
          applications = put app_id (deleted_application now app) r.applications;
          components =
              without (λ c. c.application_id == app_id || in_group_of app_id r.groups c)
                r.components;
          groups = without (λ g. g.application_id == app_id) r.groups;
        };
        moves =
            put app_id
              (record { moved_to = some url; invite_token = some token; moved_at = some now })
              s.moves;
        events = filter (λ row. not (in_app app_id row)) s.events;
      };
      invitations = record {
        invitations = filter (λ i. not (i.application_id == app_id)) t.invitations.invitations;
        uses = filter (λ u. not (is_use_of app_id t.invitations.invitations u)) t.invitations.uses;
      };
    }

-- moved_to_url IS NOT NULL AND moved_at IS NULL
abbrev pub under_way : Move → Bool
under_way v = not (is_none v.moved_to) && is_none v.moved_at

-- CompleteMove; an error rolls the transaction back.
unfoldable pub complete_move : ℤ → String → String → String → Tables → Result Tables
unfolding completed_move
complete_move now app_id url token t = elim (get app_id t.store.repo.applications) [
  | none ↦ err (not_moving ∷ [])
  | some app ↦
      if is_none app.deleted_at && under_way (columns_of app_id t.store)
      then ok (completed_move now app_id url token app t)
      else err (not_moving ∷ [])
]
