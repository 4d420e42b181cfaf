-- ===== src/Lens/Encoded.antt =====
-- Migration and write-back of entries that are stored as text
-- (internal/component/lens/writeback.go). `decode` and `encode` are encoding/json.
use prappser_spaces.Base.{ℕ, String, Bool, true, false, Option, none, some, [], eqb, if◌then◌else◌}
use prappser_spaces.Base.Int.{ℤ}
use prappser_spaces.Result.{Result, ok, err, ◌>>=◌}
use prappser_spaces.Lens.{Json, list, object, end, Entries}
use prappser_spaces.Lens.Values.{member, equal}
use prappser_spaces.Lens.Paths.{as_object}
use prappser_spaces.Lens.Migrate.{check_arg, version, migrate}
use prappser_spaces.Lens.WriteBack.{Written, write_back}

module _ (decode : String → Option Json) (encode : Json → Result String)
    (matches : String → String → Option Bool) (steps : Json) (key : String) where
  -- DecodeEncoded: the map that a text encodes, if it does.
  unfoldable pub decode_encoded : String → Option Entries
  decode_encoded raw = as_object (decode raw)

  abbrev is_at : Result ℕ → ℕ → Bool
  is_at (ok v) to = eqb v to
  is_at (err e) to = false

  abbrev re_encoded : String → Entries → Entries × Bool → Result (String × Bool)
  re_encoded raw m (out, lost) =
      if equal (object out) (object m)
      then ok (raw, lost)
      else (encode (object out) >>= λ s. ok (s, lost))

  abbrev migrate_decoded : String → Option Entries → ℤ → Result (String × Bool)
  migrate_decoded raw none to = ok (raw, false)
  migrate_decoded raw (some m) to = check_arg to >>= λ n.
      if is_at (version m) n
      then ok (raw, false)
      else (migrate matches steps key m n >>= λ r. re_encoded raw m r)

  -- MigrateEncoded
  unfoldable pub migrate_encoded : String → ℤ → Result (String × Bool)
  migrate_encoded raw to = migrate_decoded raw (decode_encoded raw) to

  abbrev written_text : String → Written → Result (String × Bool)
  written_text original (out, wrote) =
      if wrote then (encode (object out) >>= λ s. ok (s, true)) else ok (original, false)

  abbrev write_decoded : String → Option Entries → ℤ → Entries → Result (String × Bool)
  write_decoded original none reader edited = err []
  write_decoded original (some m) reader edited =
      write_back matches steps key (object m) reader edited >>= λ w. written_text original w

  -- WriteBackEncoded
  unfoldable pub write_back_encoded : String → ℤ → Entries → Result (String × Bool)
  write_back_encoded original reader edited =
      check_arg reader >>= λ _. write_decoded original (decode_encoded original) reader edited

abbrev or_no_steps : Option Json → Json
or_no_steps none = list end
or_no_steps (some v) = v

abbrev migrations_of : Option Json → Result Json
migrations_of none = err []
migrations_of (some (object m)) = ok (or_no_steps (member "x-migrations" m))
migrations_of (some v) = ok (list end)

-- Steps
unfoldable pub steps_of : (decode : String → Option Json) → String → Result Json
steps_of decode schema = migrations_of (decode schema)
