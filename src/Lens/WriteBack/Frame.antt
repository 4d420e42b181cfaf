-- ===== src/Lens/WriteBack/Frame.antt =====
-- What a written edit leaves of an entry: the members that it did not change
-- (diffApply in internal/component/lens/writeback.go).
use mathlib.Core.Path.{subst}
use prappser_spaces.Base.{
  ℕ, String, ◌≡◌, ◌≢◌, ◌∙◌, ap, refl, sym, inl, inr, Bool, true, false, ◌||◌, Option, none, some,
  List, [], ◌∷◌, ◌++◌, ◌==◌, eq_iff, arith, Bool-cases, if◌then◌else◌,
}
use prappser_spaces.Result.{ok}
use prappser_spaces.Lens.{Json, null, boolean, text, number, list, object, Entries, empty, entry}
use prappser_spaces.Lens.Values.{member, set_member, equal}
use prappser_spaces.Lens.Values.Laws.{member-set_member}
use prappser_spaces.Lens.Paths.{set_path, remove_path}
use prappser_spaces.Lens.Paths.Laws.{member-set_at, member-remove_path}
use prappser_spaces.Lens.Migrate.{num}
use prappser_spaces.Lens.WriteBack.{
  is_member, add_new, diff_value, diff_members, diff_apply, keep_version, unless_equal, carried,
  write_into, Written,
}

-- A change along a path that begins elsewhere leaves a member.
set_path-other :
    (j k : String) (ks : List String) (v : Json) (m : Entries)
    → (k == j) ≡ false
    → member j (set_path (k ∷ ks) v m) ≡ member j m
unfolding set_path
set_path-other j k ks v m h = member-set_at j k ks v m h

if-other :
    (j : String) (c : Bool) (m x : Entries)
    → member j x ≡ member j m
    → member j (if c then m else x) ≡ member j m
if-other j true m x h = refl
if-other j false m x h = h

option-other :
    (j : String) (o : Option Json) (m x : Entries) (f : Json → Entries)
    → member j x ≡ member j m
    → ((b : Json) → member j (f b) ≡ member j m)
    → member j (elim o [ none ↦ x | some b ↦ f b ]) ≡ member j m
option-other j none m x f h g = h
option-other j (some b) m x f h g = g b

add_new-other :
    (u u2 : Entries) (j k : String) (ks : List String) (m : Entries)
    → (k == j) ≡ false
    → member j (add_new u (k ∷ ks) u2 m) ≡ member j m
unfolding add_new
add_new-other u empty j k ks m h = refl
add_new-other u (entry i b rest) j k ks m h =
    let c = is_member (member i u) || false in
    let next = set_path (k ∷ (ks ++ (i ∷ []))) b m in
    add_new-other u rest j k ks (if c then m else next) h
    ∙ if-other j c m next (set_path-other j k (ks ++ (i ∷ [])) b m h)

mutual
  unfolding diff_value

  diff_value-other :
      (a b : Json) (j k : String) (ks : List String) (m : Entries)
      → (k == j) ≡ false
      → member j (diff_value a b (k ∷ ks) m) ≡ member j m
  diff_value-other null b j k ks m h =
      if-other j (equal null b) m (set_path (k ∷ ks) b m) (set_path-other j k ks b m h)
  diff_value-other (boolean x) b j k ks m h =
      if-other j (equal (boolean x) b) m (set_path (k ∷ ks) b m) (set_path-other j k ks b m h)
  diff_value-other (text x) b j k ks m h =
      if-other j (equal (text x) b) m (set_path (k ∷ ks) b m) (set_path-other j k ks b m h)
  diff_value-other (number x) b j k ks m h =
      if-other j (equal (number x) b) m (set_path (k ∷ ks) b m) (set_path-other j k ks b m h)
  diff_value-other (list x) b j k ks m h =
      if-other j (equal (list x) b) m (set_path (k ∷ ks) b m) (set_path-other j k ks b m h)
  diff_value-other (object u) null j k ks m h =
      if-other j (equal (object u) null) m (set_path (k ∷ ks) null m)
        (set_path-other j k ks null m h)
  diff_value-other (object u) (boolean y) j k ks m h =
      if-other j (equal (object u) (boolean y)) m (set_path (k ∷ ks) (boolean y) m)
        (set_path-other j k ks (boolean y) m h)
  diff_value-other (object u) (text y) j k ks m h =
      if-other j (equal (object u) (text y)) m (set_path (k ∷ ks) (text y) m)
        (set_path-other j k ks (text y) m h)
  diff_value-other (object u) (number y) j k ks m h =
      if-other j (equal (object u) (number y)) m (set_path (k ∷ ks) (number y) m)
        (set_path-other j k ks (number y) m h)
  diff_value-other (object u) (list y) j k ks m h =
      if-other j (equal (object u) (list y)) m (set_path (k ∷ ks) (list y) m)
        (set_path-other j k ks (list y) m h)
  diff_value-other (object u) (object u2) j k ks m h =
      if-other j (equal (object u) (object u2)) m
        (add_new u (k ∷ ks) u2 (diff_members u u2 (k ∷ ks) m))
        (add_new-other u u2 j k ks (diff_members u u2 (k ∷ ks) m) h
          ∙ diff_members-other u u2 j k ks m h)

  diff_members-other :
      (u u2 : Entries) (j k : String) (ks : List String) (m : Entries)
      → (k == j) ≡ false
      → member j (diff_members u u2 (k ∷ ks) m) ≡ member j m
  diff_members-other empty u2 j k ks m h = refl
  diff_members-other (entry i a rest) u2 j k ks m h =
      let p = ks ++ (i ∷ []) in
      let gone = remove_path false (k ∷ p) m in
      let next : Entries = elim (member i u2) [ none ↦ gone | some b ↦ diff_value a b (k ∷ p) m ] in
      diff_members-other rest u2 j k ks next h
      ∙ option-other j (member i u2) m gone (λ b. diff_value a b (k ∷ p) m)
          (member-remove_path j false k p m h) (λ b. diff_value-other a b j k p m h)

diff_value-equal :
    (a b : Json) (p : List String) (m : Entries) → equal a b ≡ true → diff_value a b p m ≡ m
unfolding diff_value
diff_value-equal null b p m h = rw h refl
diff_value-equal (boolean x) b p m h = rw h refl
diff_value-equal (text x) b p m h = rw h refl
diff_value-equal (number x) b p m h = rw h refl
diff_value-equal (list x) b p m h = rw h refl
diff_value-equal (object u) null p m h = rw h refl
diff_value-equal (object u) (boolean y) p m h = rw h refl
diff_value-equal (object u) (text y) p m h = rw h refl
diff_value-equal (object u) (number y) p m h = rw h refl
diff_value-equal (object u) (list y) p m h = rw h refl
diff_value-equal (object u) (object y) p m h = rw h refl

-- The edit has, under this name, what the view has.
abbrev pub IsUntouched : String → Entries → Entries → Type 0
IsUntouched j u2 empty = Unit
IsUntouched j u2 (entry i a rest) =
    (i ≡ j → (b : Json) × (member j u2 ≡ some b) × (equal a b ≡ true)) × IsUntouched j u2 rest

skipped-same :
    (j i : String) (o : Option Json) (a : Json) (m : Entries)
    → (i ≡ j → (b : Json) × (o ≡ some b) × (equal a b ≡ true))
    → member j (
        if i == "v"
        then m
        else elim o [ none ↦ remove_path false (i ∷ []) m | some b ↦ diff_value a b (i ∷ []) m ])
      ≡ member j m
skipped-same j i o a m h = elim (Bool-cases (i == "v")) [
  | inl t ↦ rw t refl
  | inr f ↦ elim (Bool-cases (i == j)) [
    | inl s ↦
        let same = h ((eq_iff i j).0 s) in
        rw (f, same.1, diff_value-equal a same.0 (i ∷ []) m same.2) refl
    | inr n ↦ rw f (
        option-other j o m (remove_path false (i ∷ []) m) (λ b. diff_value a b (i ∷ []) m)
          (member-remove_path j false i [] m n) (λ b. diff_value-other a b j i [] m n))
  ]
]

members_untouched :
    (j : String) (u u2 m : Entries)
    → IsUntouched j u2 u
    → member j (diff_members u u2 [] m) ≡ member j m
unfolding diff_members
members_untouched j empty u2 m h = refl
members_untouched j (entry i a rest) u2 m h =
    let next : Entries = if i == "v" then m else elim (member i u2) [
      | none ↦ remove_path false (i ∷ []) m
      | some b ↦ diff_value a b (i ∷ []) m
    ] in
    members_untouched j rest u2 next h.1
    ∙ skipped-same j i (member i u2) a m
        (λ e. let r = h.0 e in (r.0, subst (λ k. member k u2 ≡ some r.0) (sym e) r.1, r.2))

-- No entry under this name, or the view has the name as well.
abbrev pub IsKnown : String → Entries → Entries → Type 0
IsKnown j u empty = Unit
IsKnown j u (entry i b rest) = (i ≡ j → is_member (member j u) ≡ true) × IsKnown j u rest

new_untouched :
    (j : String) (u u2 m : Entries) → IsKnown j u u2 → member j (add_new u [] u2 m) ≡ member j m
unfolding add_new
new_untouched j u empty m h = refl
new_untouched j u (entry i b rest) m h =
    let c = is_member (member i u) || (i == "v") in
    let next = set_path (i ∷ []) b m in
    new_untouched j u rest (if c then m else next) h.1 ∙ (elim (Bool-cases (i == j)) [
      | inl s ↦
          let e = (eq_iff i j).0 s in
          let known : c ≡ true =
            ap (λ x. x || (i == "v"))
              (subst (λ k. is_member (member k u) ≡ true) (sym e) (h.0 e)) in
          ap (λ x. member j (if x then m else next)) known
      | inr n ↦ if-other j c m next (set_path-other j i [] b m n)
    ])

keep_version-other :
    (j : String) (e : ℕ) (m : Entries) → j ≢ "v" → member j (keep_version e m) ≡ member j m
keep_version-other j e m n = elim (Bool-cases (is_member (member "v" m))) [
  | inl t ↦
      let apart : ("v" == j) ≡ false = ground (arith, eq_iff "v" j) in
      rw t
        (member-set_member j "v" (num e) m ∙ ap (λ c. if c then some (num e) else member j m) apart)
  | inr f ↦ rw f refl
]

unless_equal-member :
    (j : String) (res original : Entries)
    → member j res ≡ member j original
    → member j (unless_equal res original).0 ≡ member j original
unless_equal-member j res original h = elim (Bool-cases (equal (object res) (object original))) [
  | inl t ↦ rw t refl
  | inr f ↦ rw f h
]

-- Of an entry whose version is at least the reader's, an edit leaves every member but the version
-- that it did not change: one that the edited value, carried to the entry's version, has as the view
-- has it, or that neither has, because the migration down left it out.
pub unchanged_members_stay :
    (matches : String → String → Option Bool) (steps : Json) (key : String)
    (original view edited u u2 : Entries) (reader e : ℕ) (written : Written) (j : String)
    → j ≢ "v"
    → carried matches steps key reader e view ≡ ok u
    → carried matches steps key reader e (set_member "v" (num reader) edited) ≡ ok u2
    → IsUntouched j u2 u
    → IsKnown j u u2
    → write_into matches steps key original view reader e edited ≡ ok written
    → member j written.0 ≡ member j original
unfolding write_into diff_apply
unchanged_members_stay matches steps key original view edited u u2 reader e written j n hu hu2 a b
      w =
    let res = keep_version e (diff_apply u u2 original) in
    let answer : unless_equal res original ≡ written =
      let q : ok (unless_equal res original) ≡ ok written = rw (hu, hu2) at w in cc in
    subst (λ x. member j x.0 ≡ member j original) answer
      (unless_equal-member j res original (
        keep_version-other j e (diff_apply u u2 original) n
        ∙ (new_untouched j u u2 (diff_members u u2 [] original) b
            ∙ members_untouched j u u2 original a)))
