-- ===== src/Event/Store/Moves/Final.antt =====
-- A completed move is final: neither a start nor an abort nor another completion changes it, nor
-- does another application's registration (internal/application/repository.go).
use prappser_spaces.Base.{
  String, ◌≡◌, ◌≢◌, refl, sym, Bool, true, not, ◌&&◌, none, some, arith, eq_iff, inl, inr,
  Bool-cases, Option-cases, ◌∷◌, [],
}
use mathlib.Core.Path.{subst}
use prappser_spaces.Base.Dict.{get, put, get-put, get-remove}
use prappser_spaces.Base.Int.{ℤ}
use prappser_spaces.Result.{ok, err, moved}
use prappser_spaces.Application.{Application}
use prappser_spaces.Application.Memory.{is_none, is_member}
use prappser_spaces.Event.Store.{Store, Move, move_guard}
use prappser_spaces.Event.Store.Moves.{
  Tables, columns_of, is_live, under_way, start_move, abort_move, clear_move, complete_move,
  completed_move,
}

-- A completion that answers was one of a move that was under way.
pub record IsCompleted (now : ℤ) (app_id url token : String) (t u : Tables) : Type 0 where
  pub app : Application
  pub found : get app_id t.store.repo.applications ≡ some app
  pub live : is_none app.deleted_at ≡ true
  pub moving : under_way (columns_of app_id t.store) ≡ true
  pub tables : u ≡ completed_move now app_id url token app t

pub complete_move-ok :
    (now : ℤ) (app_id url token : String) (t u : Tables)
    → complete_move now app_id url token t ≡ ok u
    → IsCompleted now app_id url token t u
unfolding complete_move
complete_move-ok now app_id url token t u h =
    elim (Option-cases (get app_id t.store.repo.applications)) [
      | inl n ↦ absurd (ground (arith, n))
      | inr (app, e) ↦
          elim (Bool-cases (is_none app.deleted_at && under_way (columns_of app_id t.store))) [
            | inl c ↦ record {
              app = app;
              found = e;
              live = ground (arith, c);
              moving = ground (arith, c);
              tables = ground (arith, e, c);
            }
            | inr f ↦ absurd (ground (arith, e, f))
          ]
    ]

module _ (app_id : String) (url token : String) (at : ℤ) where
  abbrev pub moved_row : Move
  moved_row = record { moved_to = some url; invite_token = some token; moved_at = some at }

  -- The row says that the application went to `url`, where `token` admits its members.
  pub record IsMoved (s : Store) : Type 0 where
    pub row : get app_id s.moves ≡ some moved_row

  put-moved :
      (j : String) (v : Move) (s : Store)
      → is_none (columns_of j s).moved_at ≡ true
      → get app_id s.moves ≡ some moved_row
      → get app_id (put j v s.moves) ≡ some moved_row
  put-moved j v s h m = ground (arith, get-put app_id j v s.moves, eq_iff j app_id)

  pub start_move-IsMoved : (j to : String) (s : Store) → IsMoved s → IsMoved (start_move j to s).1
  unfolding start_move
  start_move-IsMoved j to s m =
      elim (Bool-cases (is_live (get j s.repo.applications) && is_none (columns_of j s).moved_at)) [
        | inl t ↦ rw t (record {
          row =
              put-moved j (record (columns_of j s) { moved_to = some to }) s (ground (arith, t))
                m.row;
        })
        | inr f ↦ rw f m
      ]

  pub abort_move-IsMoved : (j : String) (s : Store) → IsMoved s → IsMoved (abort_move j s)
  unfolding abort_move
  abort_move-IsMoved j s m =
      elim (Bool-cases
        (not (is_none (get j s.repo.applications)) && is_none (columns_of j s).moved_at)) [
          | inl t ↦ rw t (record {
            row =
                put-moved j (record (columns_of j s) { moved_to = none }) s (ground (arith, t))
                  m.row;
          })
          | inr f ↦ rw f m
        ]

  pub clear_move-IsMoved :
      (j : String) (s : Store) → j ≢ app_id → IsMoved s → IsMoved (clear_move j s)
  unfolding clear_move
  clear_move-IsMoved j s n m = record {
    row = ground (arith, get-remove app_id j s.moves, eq_iff j app_id, m.row);
  }

  pub complete_move-IsMoved :
      (now : ℤ) (j to t' : String) (t u : Tables)
      → complete_move now j to t' t ≡ ok u
      → IsMoved t.store
      → IsMoved u.store
  unfolding completed_move
  complete_move-IsMoved now j to t' t u h m =
      let c = complete_move-ok now j to t' t u h in
      subst (λ (z : Tables). IsMoved z.store) (sym c.tables)
        (record {
          row =
              put-moved j
                (record { moved_to = some to; invite_token = some t'; moved_at = some now }) t.store
                (ground (arith, c.moving)) m.row;
        })

  -- Its members are told so, whatever they ask.
  pub move_guard-IsMoved :
      (now : ℤ) (key : String) (write : Bool) (s : Store)
      → IsMoved s
      → is_member now app_id key s.repo ≡ true
      → move_guard now app_id key write s ≡ err (moved url token ∷ [])
  unfolding move_guard
  move_guard-IsMoved now key write s m h = rw (m.row, h) refl
