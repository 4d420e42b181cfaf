-- ===== src/Lens/Paths/Laws.antt =====
-- What a write or a removal along a path does (internal/component/lens/lens.go): it is read back,
-- and members beside its first name stay.
use prappser_spaces.Base.{
  String, ◌≡◌, ◌∙◌, ap, refl, Bool, false, ◌&&◌, Option, none, some, List, [], ◌∷◌, ◌==◌, eqb,
  eq_refl, inl, inr, Bool-cases, if◌then◌else◌,
}
use prappser_spaces.Lens.{Json, object, Entries}
use prappser_spaces.Lens.Values.{member, set_member, delete_member, size}
use prappser_spaces.Lens.Values.Laws.{member-set_member, member-delete_member}
use prappser_spaces.Lens.Paths.{
  get_path, as_object, or_empty_map, put_back, remove_at, remove_path, set_at,
}

member-set_self : (k : String) (v : Json) (m : Entries) → member k (set_member k v m) ≡ some v
member-set_self k v m =
    member-set_member k k v m ∙ ap (λ c. if c then some v else member k m) (eq_refl k)

get_path-below :
    (ks : List String) (o o' : Option Json)
    → o ≡ o'
    → elim o [ none ↦ none | some v ↦ get_path ks v ]
      ≡ elim o' [ none ↦ none | some v ↦ get_path ks v ]
get_path-below ks o o' e = ap (λ x. elim x [ none ↦ none | some v ↦ get_path ks v ]) e

get_path-member :
    (k : String) (ks : List String) (m : Entries) (w : Json)
    → member k m ≡ some w
    → get_path (k ∷ ks) (object m) ≡ get_path ks w
unfolding get_path
get_path-member k ks m w h = get_path-below ks (member k m) (some w) h

-- A value that is set at a path is the one that is read there.
pub get_path-set_at :
    (k : String) (ks : List String) (v : Json) (m : Entries)
    → get_path (k ∷ ks) (object (set_at k ks v m)) ≡ some v
unfolding set_at get_path
get_path-set_at k [] v m = get_path-member k [] (set_member k v m) v (member-set_self k v m)
get_path-set_at k (j ∷ ks) v m =
    let below = or_empty_map (as_object (member k m)) in
    let sub = object (set_at j ks v below) in
    get_path-member k (j ∷ ks) (set_member k sub m) sub (member-set_self k sub m)
    ∙ get_path-set_at j ks v below

member-set_other :
    (j k : String) (v : Json) (m : Entries)
    → (k == j) ≡ false
    → member j (set_member k v m) ≡ member j m
member-set_other j k v m h =
    member-set_member j k v m ∙ ap (λ c. if c then some v else member j m) h

member-delete_other :
    (j k : String) (m : Entries) → (k == j) ≡ false → member j (delete_member k m) ≡ member j m
member-delete_other j k m h =
    member-delete_member j k m ∙ ap (λ c. if c then none else member j m) h

pub member-set_at :
    (j k : String) (ks : List String) (v : Json) (m : Entries)
    → (k == j) ≡ false
    → member j (set_at k ks v m) ≡ member j m
unfolding set_at
member-set_at j k [] v m h = member-set_other j k v m h
member-set_at j k (i ∷ ks) v m h =
    member-set_other j k (object (set_at i ks v (or_empty_map (as_object (member k m))))) m h

put_back-other :
    (j : String) (prune : Bool) (k : String) (sub m : Entries)
    → (k == j) ≡ false
    → member j (put_back prune k sub m) ≡ member j m
put_back-other j prune k sub m h = elim (Bool-cases (prune && eqb (size sub) 0)) [
  | inl t ↦ rw t (member-delete_other j k m h)
  | inr f ↦ rw f (member-set_other j k (object sub) m h)
]

abbrev or_same : Entries → Option Entries → Entries
or_same m o = elim o [ none ↦ m | some m' ↦ m' ]

abbrev put_removed : Bool → String → Entries → Option Entries → Option Entries
put_removed prune k m o = elim o [ none ↦ none | some sub ↦ some (put_back prune k sub m) ]

put_removed-other :
    (j : String) (prune : Bool) (k : String) (m : Entries) (o : Option Entries)
    → (k == j) ≡ false
    → member j (or_same m (put_removed prune k m o)) ≡ member j m
put_removed-other j prune k m none h = refl
put_removed-other j prune k m (some sub) h = put_back-other j prune k sub m h

abbrev below : Bool → String → String → List String → Entries → Option Entries → Option Entries
below prune k i ks m o = elim o [
  | none ↦ none
  | some sub ↦ elim (remove_at prune i ks sub) [
    | none ↦ none
    | some sub' ↦ some (put_back prune k sub' m)
  ]
]

below-other :
    (j : String) (prune : Bool) (k i : String) (ks : List String) (m : Entries) (o : Option Entries)
    → (k == j) ≡ false
    → member j (or_same m (below prune k i ks m o)) ≡ member j m
below-other j prune k i ks m none h = refl
below-other j prune k i ks m (some sub) h =
    put_removed-other j prune k m (remove_at prune i ks sub) h

deleted-other :
    (j k : String) (m : Entries) (o : Option Json)
    → (k == j) ≡ false
    → member j (or_same m (elim o [ none ↦ none | some v ↦ some (delete_member k m) ])) ≡ member j m
deleted-other j k m none h = refl
deleted-other j k m (some v) h = member-delete_other j k m h

pub member-remove_path :
    (j : String) (prune : Bool) (k : String) (ks : List String) (m : Entries)
    → (k == j) ≡ false
    → member j (remove_path prune (k ∷ ks) m) ≡ member j m
unfolding remove_path remove_at
member-remove_path j prune k [] m h = deleted-other j k m (member k m) h
member-remove_path j prune k (i ∷ ks) m h = below-other j prune k i ks m (as_object (member k m)) h
