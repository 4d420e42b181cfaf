-- ===== src/Lens/Ops.antt =====
-- The operations of a step (internal/component/lens/lens.go): their compilation and application.
pub mod Undo
use prappser_spaces.Base.{
  ℕ, ◌+◌, String, Bool, true, false, not, ◌&&◌, ◌||◌, Option, none, some, List, [], ◌∷◌, ◌++◌, ◌==◌,
  eqb, if◌then◌else◌,
}
use prappser_spaces.Result.{Result, ok, err, ◌>>=◌, ◌>>◌, guard, Error, unsupported}
use prappser_spaces.Lens.{
  Json, null, text, list, object, Items, end, item, Entries, Op, rename, move, add, map_values,
  wrap, unwrap,
}
use prappser_spaces.Lens.Values.{member, size, equal, is_scalar}
use prappser_spaces.Lens.Paths.{parse_path, is_prefix, get_path, can_set, remove_path, set_path}

-- What `unsupported` makes.
abbrev pub refused : Error
refused = unsupported ∷ []

abbrev or_refused {ℓ} : {A : Type ℓ} → Option A → Result A
or_refused none = err refused
or_refused (some a) = ok a

abbrev present : Option Json → Bool
present none = false
present (some v) = true

-- The member of an op, which has to be there.
unfoldable pub required_member : String → Entries → Result Json
required_member name m = or_refused (member name m)

compile_path : String → Entries → Result (List String)
compile_path name m = required_member name m >>= λ v. or_refused (parse_path v)

-- A repeated value on either side of the pairs.
unfoldable pub repeats : Json → Json → List (Json × Json) → Bool
repeats a b [] = false
repeats a b ((x, y) ∷ seen) = equal x a || equal y b || repeats a b seen

abbrev scalar_pair : Json → Result (Json × Json)
scalar_pair (list (item a (item b end))) =
    guard (is_scalar a && is_scalar b) refused >>= λ _. ok (a, b)
scalar_pair _ = err refused

-- The loop of compileMap, with the pairs before.
unfoldable pub compile_pairs : List (Json × Json) → Items → Result (List (Json × Json))
compile_pairs seen end = ok seen
compile_pairs seen (item p l) = scalar_pair p >>= λ (a, b).
    guard (not (repeats a b seen)) refused >>= λ _. compile_pairs (seen ++ ((a, b) ∷ [])) l

abbrev as_list : Json → Result Items
as_list (list l) = ok l
as_list _ = err refused

abbrev compile_fallback : Option Json → Result (List Json)
compile_fallback none = ok []
compile_fallback (some v) = guard (is_scalar v) refused >>= λ _. ok (v ∷ [])

abbrev count_if : Bool → ℕ
count_if b = if b then 1 else 0

abbrev has_members : ℕ → Entries → Result (Unit {0})
has_members n m = guard (eqb (size m) n) refused

compile_ends : (List String → List String → Op) → Entries → Result Op
unfolding compile_path
compile_ends make m = do
  has_members 3 m
  required_member "from" m >>= λ _. required_member "to" m >>= λ _. ok tt
  from ← compile_path "from" m
  to ← compile_path "to" m
  guard (not (is_prefix from to)) refused
  ok (make from to)

-- compileMap, with the checks before it
compile_map : Entries → Result Op
unfolding compile_path
compile_map m = do
  has_members (3 + count_if (present (member "fallback" m))) m
  path ← compile_path "path" m
  fallback ← compile_fallback (member "fallback" m)
  pairs ← required_member "pairs" m >>= as_list >>= compile_pairs []
  ok (map_values path pairs fallback)

compile_add : Entries → Result Op
unfolding compile_path
compile_add m = do
  has_members 3 m
  default ← required_member "default" m
  path ← compile_path "path" m
  ok (add path default)

compile_single : (List String → Op) → Entries → Result Op
unfolding compile_path
compile_single make m = has_members 2 m >>= λ _. compile_path "path" m >>= λ path. ok (make path)

compile_kind : String → Entries → Result Op
unfolding compile_ends compile_add compile_map compile_single
compile_kind kind m =
    if kind == "rename"
    then compile_ends rename m
    else if kind == "move"
    then compile_ends move m
    else if kind == "add"
    then compile_add m
    else if kind == "map"
    then compile_map m
    else if kind == "wrap"
    then compile_single wrap m
    else if kind == "unwrap"
    then compile_single unwrap m
    else err refused

abbrev text_of : Option Json → String
text_of (some (text s)) = s
text_of _ = ""

-- compileOp
unfoldable pub compile_op : Json → Result Op
unfolding compile_kind
compile_op (object m) = compile_kind (text_of (member "op" m)) m
compile_op _ = err refused

unfoldable pub wrap_up : Json → Json
wrap_up null = list end
wrap_up (list l) = list l
wrap_up v = list (item v end)

unfoldable pub wrap_down : Json → Json
wrap_down (list end) = null
wrap_down (list (item v l)) = v
wrap_down v = v

-- The part of `apply` for rename and move.
unfoldable pub relocate : List String → List String → Entries → Entries
relocate from to m = elim (get_path from (object m)) [
  | none ↦ m
  | some v ↦ if can_set to m then set_path to v (remove_path true from m) else m
]

unfoldable pub insert_default : List String → Json → Entries → Entries
insert_default path default m =
    if not (present (get_path path (object m))) && can_set path m
    then set_path path default m
    else m

-- The loop over the pairs: the value that stands for `v`, if one does.
unfoldable pub translate : Bool → List (Json × Json) → Json → Option Json
translate up [] v = none
translate true ((a, b) ∷ pairs) v =
    let rest = translate true pairs v in if equal v a then some b else rest
translate false ((a, b) ∷ pairs) v =
    let rest = translate false pairs v in if equal v b then some a else rest

abbrev or_fallback : Bool → List Json → Option Json → Option Json
or_fallback up fallback (some w) = some w
or_fallback true fallback none = none
or_fallback false [] none = none
or_fallback false (f ∷ fs) none = some f

abbrev set_if : List String → Option Json → Entries → Entries
set_if path none m = m
set_if path (some v) m = set_path path v m

-- An operation that replaces the value at its path, if there is one.
unfoldable pub rewrite_at : List String → (Json → Option Json) → Entries → Entries
rewrite_at path f m = elim (get_path path (object m)) [ none ↦ m | some v ↦ set_if path (f v) m ]

-- apply
unfoldable pub apply : Op → Bool → Entries → Entries
apply (rename from to) true m = relocate from to m
apply (rename from to) false m = relocate to from m
apply (move from to) true m = relocate from to m
apply (move from to) false m = relocate to from m
apply (add path default) true m = insert_default path default m
apply (add path default) false m = remove_path true path m
apply (map_values path pairs fallback) up m =
    rewrite_at path (λ v. or_fallback up fallback (translate up pairs v)) m
apply (wrap path) true m = rewrite_at path (λ v. some (wrap_up v)) m
apply (wrap path) false m = rewrite_at path (λ v. some (wrap_down v)) m
apply (unwrap path) true m = rewrite_at path (λ v. some (wrap_down v)) m
apply (unwrap path) false m = rewrite_at path (λ v. some (wrap_up v)) m

abbrev has_fallback : List Json → Bool
has_fallback [] = false
has_fallback (f ∷ fs) = true

unfoldable pub lossy : Op → Bool → Bool
lossy (map_values path pairs fallback) up = not up && has_fallback fallback
lossy (wrap path) up = not up
lossy (unwrap path) up = up
lossy _ up = false
