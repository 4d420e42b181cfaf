-- ===== src/Lens/Ops/Undo.antt =====
-- The values that a map operation translates come back (compileMap and `apply` in
-- internal/component/lens/lens.go).
use mathlib.Core.Path.{subst}
use prappser_spaces.Base.{
  ◌≡◌, ◌∙◌, ap, refl, inl, inr, true, false, not, ◌&&◌, some, List, [], ◌∷◌, ◌++◌, eq_iff, eq_refl,
  All, arith, Bool-cases, if◌then◌else◌,
}
use prappser_spaces.Base.Int.{ℤ, eqb_ℤ}
use prappser_spaces.Base.Members.{All-append}
use prappser_spaces.Result.{ok, >>=-eq-ok, guard, guard-eq-ok}
use prappser_spaces.Lens.{
  Number, rational, huge, Json, null, boolean, text, number, list, object, Items, end, item,
}
use prappser_spaces.Lens.Values.{scaled, equal_number, equal, is_scalar}
use prappser_spaces.Lens.Ops.{refused, repeats, scalar_pair, compile_pairs, translate}

eqb_ℤ_sym : (a b : ℤ) → eqb_ℤ a b ≡ eqb_ℤ b a
eqb_ℤ_sym a b = ground arith

eqb_ℤ_refl : (a : ℤ) → eqb_ℤ a a ≡ true
eqb_ℤ_refl a = ground arith

equal_number_sym : (x y : Number) → equal_number x y ≡ equal_number y x
unfolding equal_number
equal_number_sym (rational n s) (rational m t) = eqb_ℤ_sym (scaled n t) (scaled m s)
equal_number_sym (rational n s) (huge b) = refl
equal_number_sym (huge a) (rational m t) = refl
equal_number_sym (huge a) (huge b) = ground (arith, eq_iff a b, eq_iff b a)

equal_number_refl : (x : Number) → equal_number x x ≡ true
unfolding equal_number
equal_number_refl (rational n s) = eqb_ℤ_refl (scaled n s)
equal_number_refl (huge a) = eq_refl a

equal_refl : (v : Json) → is_scalar v ≡ true → equal v v ≡ true
unfolding equal is_scalar
equal_refl null h = refl
equal_refl (boolean x) h = ground arith
equal_refl (text x) h = eq_refl x
equal_refl (number x) h = equal_number_refl x
equal_refl (list x) h = absurd (ground arith)
equal_refl (object x) h = absurd (ground arith)

equal_sym : (a b : Json) → is_scalar a ≡ true → is_scalar b ≡ true → equal a b ≡ equal b a
unfolding equal is_scalar
equal_sym null null ha hb = refl
equal_sym null (boolean y) ha hb = refl
equal_sym null (text y) ha hb = refl
equal_sym null (number y) ha hb = refl
equal_sym null (list y) ha hb = absurd (ground arith)
equal_sym null (object y) ha hb = absurd (ground arith)
equal_sym (boolean x) null ha hb = refl
equal_sym (boolean x) (boolean y) ha hb = ground arith
equal_sym (boolean x) (text y) ha hb = refl
equal_sym (boolean x) (number y) ha hb = refl
equal_sym (boolean x) (list y) ha hb = absurd (ground arith)
equal_sym (boolean x) (object y) ha hb = absurd (ground arith)
equal_sym (text x) null ha hb = refl
equal_sym (text x) (boolean y) ha hb = refl
equal_sym (text x) (text y) ha hb = ground (arith, eq_iff x y, eq_iff y x)
equal_sym (text x) (number y) ha hb = refl
equal_sym (text x) (list y) ha hb = absurd (ground arith)
equal_sym (text x) (object y) ha hb = absurd (ground arith)
equal_sym (number x) null ha hb = refl
equal_sym (number x) (boolean y) ha hb = refl
equal_sym (number x) (text y) ha hb = refl
equal_sym (number x) (number y) ha hb = equal_number_sym x y
equal_sym (number x) (list y) ha hb = absurd (ground arith)
equal_sym (number x) (object y) ha hb = absurd (ground arith)
equal_sym (list x) null ha hb = absurd (ground arith)
equal_sym (list x) (boolean y) ha hb = absurd (ground arith)
equal_sym (list x) (text y) ha hb = absurd (ground arith)
equal_sym (list x) (number y) ha hb = absurd (ground arith)
equal_sym (list x) (list y) ha hb = absurd (ground arith)
equal_sym (list x) (object y) ha hb = absurd (ground arith)
equal_sym (object x) null ha hb = absurd (ground arith)
equal_sym (object x) (boolean y) ha hb = absurd (ground arith)
equal_sym (object x) (text y) ha hb = absurd (ground arith)
equal_sym (object x) (number y) ha hb = absurd (ground arith)
equal_sym (object x) (list y) ha hb = absurd (ground arith)
equal_sym (object x) (object y) ha hb = absurd (ground arith)

abbrev Pair : Type 0
Pair = Json × Json

abbrev IsScalarPair : Pair → Type 0
IsScalarPair p = (is_scalar p.0 ≡ true) × (is_scalar p.1 ≡ true)

-- Two pairs share no value.
abbrev AreApart : Pair → Pair → Type 0
AreApart p q = (equal p.0 q.0 ≡ false) × (equal p.1 q.1 ≡ false)

abbrev IsDistinct : List Pair → Type 0
IsDistinct [] = Unit
IsDistinct (p ∷ ps) = IsScalarPair p × All (AreApart p) ps × IsDistinct ps

IsDistinct-append :
    (ps : List Pair) (a b : Json)
    → IsDistinct ps
    → repeats a b ps ≡ false
    → IsScalarPair (a, b)
    → IsDistinct (ps ++ ((a, b) ∷ []))
unfolding repeats
IsDistinct-append [] a b h r s = (s, tt, tt)
IsDistinct-append ((x, y) ∷ ps) a b h r s = (
  h.0,
  All-append (AreApart (x, y)) ps ((a, b) ∷ []) h.1 ((ground arith, ground arith), tt),
  IsDistinct-append ps a b h.2 (ground arith) s,
)

scalar_pair-ok : (v : Json) (p : Pair) → scalar_pair v ≡ ok p → IsScalarPair p
scalar_pair-ok (list (item a (item b end))) p h =
    let g = >>=-eq-ok (guard (is_scalar a && is_scalar b) refused) (λ _. ok (a, b)) h in
    let both = guard-eq-ok (is_scalar a && is_scalar b) refused g.1 in
    let e : (a, b) ≡ p = cc in subst IsScalarPair e (ground arith, ground arith)
scalar_pair-ok (list (item a (item b (item c l)))) p h = absurd (ground arith)
scalar_pair-ok (list (item a end)) p h = absurd (ground arith)
scalar_pair-ok (list end) p h = absurd (ground arith)
scalar_pair-ok null p h = absurd (ground arith)
scalar_pair-ok (boolean x) p h = absurd (ground arith)
scalar_pair-ok (text x) p h = absurd (ground arith)
scalar_pair-ok (number x) p h = absurd (ground arith)
scalar_pair-ok (object x) p h = absurd (ground arith)

compile_pairs-IsDistinct :
    (seen : List Pair) (l : Items) (ps : List Pair)
    → IsDistinct seen
    → compile_pairs seen l ≡ ok ps
    → IsDistinct ps
unfolding compile_pairs
compile_pairs-IsDistinct seen end ps d h = let e : seen ≡ ps = cc in subst IsDistinct e d
compile_pairs-IsDistinct seen (item v l) ps d h =
    let p = >>=-eq-ok (scalar_pair v) _ h in
    let g = >>=-eq-ok (guard (not (repeats p.0.0 p.0.1 seen)) refused) _ p.2 in
    let fresh = guard-eq-ok (not (repeats p.0.0 p.0.1 seen)) refused g.1 in
    compile_pairs-IsDistinct (seen ++ (p.0 ∷ [])) l ps
      (IsDistinct-append seen p.0.0 p.0.1 d (ground arith) (scalar_pair-ok v p.0 p.1)) g.2

-- Of the pairs that translate, none shares a value with one that is apart from all.
up-apart :
    (p : Pair) (ps : List Pair) (v w : Json)
    → IsScalarPair p
    → IsDistinct ps
    → All (AreApart p) ps
    → translate true ps v ≡ some w
    → equal w p.1 ≡ false
unfolding translate
up-apart p [] v w s d a h = absurd (ground arith)
up-apart p ((x, y) ∷ ps) v w s d a h = elim (Bool-cases (equal v x)) [
  | inl t ↦
      let e : y ≡ w = let q : some y ≡ some w = rw t at h in cc in
      subst (λ k. equal k p.1 ≡ false) e (equal_sym y p.1 d.0.1 s.1 ∙ a.0.1)
  | inr f ↦ up-apart p ps v w s d.2 a.1 (rw f at h)
]

-- A value that goes up comes down to an equal one.
up-down :
    (ps : List Pair) (v w : Json)
    → IsDistinct ps
    → translate true ps v ≡ some w
    → (v' : Json) × (translate false ps w ≡ some v') × (equal v v' ≡ true)
unfolding translate
up-down [] v w d h = absurd (ground arith)
up-down ((x, y) ∷ ps) v w d h = elim (Bool-cases (equal v x)) [
  | inl t ↦
      let e : y ≡ w = let q : some y ≡ some w = rw t at h in cc in
      let hit : equal w y ≡ true = subst (λ k. equal k y ≡ true) e (equal_refl y d.0.1) in
      (x, ap (λ c. if c then some x else translate false ps w) hit, t)
  | inr f ↦
      let lower : translate true ps v ≡ some w = rw f at h in
      let miss = up-apart (x, y) ps v w d.0 d.2 d.1 lower in
      let r = up-down ps v w d.2 lower in
      (r.0, ap (λ c. if c then some x else translate false ps w) miss ∙ r.1, r.2)
]

-- A value that a compiled map operation translates up, by one of its pairs, is translated down to a
-- value that is equal to the one that it was.
pub mapped_value_returns :
    (l : Items) (pairs : List (Json × Json)) (v w : Json)
    → compile_pairs [] l ≡ ok pairs
    → translate true pairs v ≡ some w
    → (v' : Json) × (translate false pairs w ≡ some v') × (equal v v' ≡ true)
mapped_value_returns l pairs v w c h =
    up-down pairs v w (compile_pairs-IsDistinct [] l pairs tt c) h
