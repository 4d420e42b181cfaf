-- ===== src/Lens/Steps.antt =====
-- The step of a version (`lookup` in internal/component/lens/lens.go). `matches` is the regular
-- expression library: none for a pattern that does not compile.
use prappser_spaces.Base.{
  ℕ, ◌-◌, String, Bool, true, false, ◌&&◌, ◌||◌, Option, none, some, List, [], ◌∷◌, ◌==◌,
  if◌then◌else◌,
}
use prappser_spaces.Base.Int.{ℤ, pos, negsuc, leb_ℤ, ltb_ℤ, eqb_ℤ, half64}
use prappser_spaces.Result.{Result, ok, err, ◌>>=◌, ◌>>◌, guard, missing_step}
use prappser_spaces.Lens.{Json, boolean, list, object, Items, end, item, Entries, empty, entry, Op}
use prappser_spaces.Lens.Values.{max_safe, int_val, member}
use prappser_spaces.Lens.Paths.{as_object}
use prappser_spaces.Lens.Ops.{refused, compile_op}

-- An int64, or its least value for what is below.
abbrev clamp : ℤ → ℤ
clamp (pos n) = pos n
clamp (negsuc n) = if ltb_ℤ (negsuc n) (negsuc (half64 - 1)) then negsuc (half64 - 1) else negsuc n

abbrev in_range : Option ℤ → Option ℤ
in_range none = none
in_range (some n) = if leb_ℤ n max_safe then some (clamp n) else none

abbrev read_to : Option Json → Option ℤ
read_to none = none
read_to (some v) = in_range (int_val v)

-- stepTo: none for a malformed element.
unfoldable pub step_to : Json → Option ℤ
step_to (object m) = read_to (member "to" m)
step_to _ = none

-- The loop over the list: the steps to `k`, and whether an element is malformed.
abbrev noted : Option ℤ → ℕ → Json → List Entries × Bool → List Entries × Bool
noted none k (object m) rest = (rest.0, true)
noted (some to) k (object m) rest = if eqb_ℤ to (pos k) then (m ∷ rest.0, rest.1) else rest
noted _ k _ rest = (rest.0, true)

unfoldable pub matching : ℕ → Items → List Entries × Bool
matching k end = ([], false)
matching k (item el l) = noted (step_to el) k el (matching k l)

unfoldable pub all_known : Entries → Bool
all_known empty = true
all_known (entry name v m) =
    (name == "to" || (name == "breaking" || (name == "entries"))) && all_known m

-- The candidates whose pattern matches the key.
abbrev hit : Option Bool → Json → Result (List Json) → Result (List Json)
hit none v rest = err refused
hit (some b) v rest = rest >>= λ l. ok (if b then v ∷ l else l)

unfoldable pub hits : (String → String → Option Bool) → String → Entries → Result (List Json)
hits matches key empty = ok []
hits matches key (entry pattern v m) = hit (matches pattern key) v (hits matches key m)

unfoldable pub compile_all : Items → Result (List Op)
compile_all end = ok []
compile_all (item r l) = compile_op r >>= λ o. compile_all l >>= λ os. ok (o ∷ os)

abbrev candidate_ops : List Json → Result (List Op)
candidate_ops [] = ok []
candidate_ops (list l ∷ []) = compile_all l
candidate_ops _ = err refused

abbrev read_step : Option Json → Option Entries → Result (Bool × Entries)
read_step (some (boolean b)) (some m) = ok (b, m)
read_step _ _ = err refused

step_of : (String → String → Option Bool) → String → Entries → Result (List Op × Bool)
step_of matches key m = do
  guard (all_known m) refused
  (breaking, entries) ← read_step (member "breaking" m) (as_object (member "entries" m))
  found ← hits matches key entries
  ops ← candidate_ops found
  ok (ops, breaking)

only_step : (String → String → Option Bool) → String → List Entries × Bool → Result (List Op × Bool)
unfolding step_of
only_step matches key ([], true) = err refused
only_step matches key ([], false) = err (missing_step ∷ [])
only_step matches key (m ∷ [], malformed) = step_of matches key m
only_step matches key (m ∷ m' ∷ more, malformed) = err refused

-- lookup: the operations for the key and whether the step is breaking.
unfoldable pub lookup :
    (matches : String → String → Option Bool) → Json → ℕ → String → Result (List Op × Bool)
unfolding only_step
lookup matches (list l) k key = only_step matches key (matching k l)
lookup matches _ k key = err refused
