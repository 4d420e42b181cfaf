-- ===== src/Event/Validator/Checks/Text.antt =====
-- A text as the list of its code points.
use Prim.Native.Char.{code}
use Prim.Native.String.{String}
use prappser_spaces.Base.{ℕ, List, [], ◌∷◌}

abbrev pub codes : String → List ℕ
codes String.[] = []
codes (String.◌∷◌ c s) = code c ∷ codes s
