-- ===== src/Lens.antt =====
-- Lenses that carry the entries of a component between the versions of its schema
-- (internal/component/lens): the values of an entry, as encoding/json decodes them.
pub mod Values
pub mod Paths
pub mod Ops
pub mod Steps
pub mod Migrate
pub mod WriteBack
pub mod Encoded
use prappser_spaces.Base.{ℕ, String, Bool, true, false, List}
use prappser_spaces.Base.Int.{ℤ}

-- A number is num / 10 ^ scale, or its text where `hugeNumber` holds of it, since such a number is
-- never evaluated.
pub data Number : Type 0 where
  rational : (num : ℤ) (scale : ℕ) → Number
  huge : (text : String) → Number

mutual
  pub data Json : Type 0 where
    null : Json
    boolean : Bool → Json
    text : String → Json
    number : Number → Json
    list : Items → Json
    object : Entries → Json

  pub data Items : Type 0 where
    end : Items
    item : Json → Items → Items

  -- A map: the first entry for a key counts. Writes put no key in twice.
  pub data Entries : Type 0 where
    empty : Entries
    entry : String → Json → Entries → Entries

-- An operation of a step, with its paths compiled.
pub data Op : Type 0 where
  rename move : (from to : List String) → Op
  add : (path : List String) (default : Json) → Op
  map_values : (path : List String) (pairs : List (Json × Json)) (fallback : List Json) → Op
  wrap unwrap : (path : List String) → Op
