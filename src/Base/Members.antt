-- ===== src/Base/Members.antt =====
-- Membership in a list, and predicates that hold of all its elements.
use mathlib.Core.Path.{◌≡◌, refl, sym, subst, ap, ◌∙◌}
use mathlib.Core.Logic.{inl, inr}
use mathlib.Core.Bool.{Bool, true, false}
use mathlib.Core.List.{List, [], ◌∷◌, ◌++◌}
use mathlib.Core.Option.{none, some}
use native.Mathlib.Omega.{arith}
use prappser_spaces.Base.Lists.{All, In, filter, find}
use prappser_spaces.Base.Tests.{if◌then◌else◌, Bool-cases}

module _ {A : Type 0} (P : A → Type 0) where
  pub All-In : (xs : List A) (a : A) → All P xs → In a xs → P a
  All-In [] a h i = absurd i
  All-In (x ∷ xs) a h (inl e) = subst P e h.0
  All-In (x ∷ xs) a h (inr i) = All-In xs a h.1 i

  pub All-of_In : (xs : List A) → ((a : A) → In a xs → P a) → All P xs
  All-of_In [] h = tt
  All-of_In (x ∷ xs) h = (h x (inl refl), All-of_In xs (λ a i. h a (inr i)))

  pub All-append : (xs ys : List A) → All P xs → All P ys → All P (xs ++ ys)
  All-append [] ys hx hy = hy
  All-append (x ∷ xs) ys hx hy = (hx.0, All-append xs ys hx.1 hy)

  pub All-map : (Q : A → Type 0) (xs : List A) → ((a : A) → P a → Q a) → All P xs → All Q xs
  All-map Q [] f h = tt
  All-map Q (x ∷ xs) f h = (f x h.0, All-map Q xs f h.1)

module _ {A : Type 0} where
  pub In-append_left : (a : A) (xs ys : List A) → In a xs → In a (xs ++ ys)
  In-append_left a [] ys i = absurd i
  In-append_left a (x ∷ xs) ys (inl e) = inl e
  In-append_left a (x ∷ xs) ys (inr i) = inr (In-append_left a xs ys i)

  pub In-append_right : (a : A) (xs ys : List A) → In a ys → In a (xs ++ ys)
  In-append_right a [] ys i = i
  In-append_right a (x ∷ xs) ys i = inr (In-append_right a xs ys i)

  pub filter-cons_true :
      (p : A → Bool) (x : A) (xs : List A) → p x ≡ true → filter p (x ∷ xs) ≡ x ∷ filter p xs
  filter-cons_true p x xs h = ap (λ b. if b then x ∷ filter p xs else filter p xs) h

  pub filter-cons_false :
      (p : A → Bool) (x : A) (xs : List A) → p x ≡ false → filter p (x ∷ xs) ≡ filter p xs
  filter-cons_false p x xs h = ap (λ b. if b then x ∷ filter p xs else filter p xs) h

  pub In-filter : (p : A → Bool) (xs : List A) (a : A) → In a xs → p a ≡ true → In a (filter p xs)
  In-filter p [] a i h = i
  In-filter p (x ∷ xs) a (inl e) h =
      subst (λ l. In a l) (sym (filter-cons_true p x xs (ap p e ∙ h))) (inl e)
  In-filter p (x ∷ xs) a (inr i) h = elim (Bool-cases (p x)) [
    | inl t ↦ subst (λ l. In a l) (sym (filter-cons_true p x xs t)) (inr (In-filter p xs a i h))
    | inr f ↦ subst (λ l. In a l) (sym (filter-cons_false p x xs f)) (In-filter p xs a i h)
  ]

  kept :
      (p : A → Bool) (x a : A) (xs ys : List A)
      → (In a ys → In a xs × (p a ≡ true))
      → In a (x ∷ ys)
      → p x ≡ true
      → In a (x ∷ xs) × (p a ≡ true)
  kept p x a xs ys rec (inl e) t = (inl e, subst (λ y. p y ≡ true) e t)
  kept p x a xs ys rec (inr j) t = (inr (rec j).0, (rec j).1)

  pub In-of_filter :
      (p : A → Bool) (xs : List A) (a : A) → In a (filter p xs) → In a xs × (p a ≡ true)
  In-of_filter p [] a i = absurd i
  In-of_filter p (x ∷ xs) a i = elim (Bool-cases (p x)) [
    | inl t ↦
        kept p x a xs (filter p xs) (In-of_filter p xs a)
          (subst (λ l. In a l) (filter-cons_true p x xs t) i) t
    | inr f ↦
        let h = In-of_filter p xs a (subst (λ l. In a l) (filter-cons_false p x xs f) i) in
        (inr h.0, h.1)
  ]

  pub All-filter : (P : A → Type 0) (p : A → Bool) (xs : List A) → All P xs → All P (filter p xs)
  All-filter P p xs h = All-of_In P (filter p xs) (λ a i. All-In P xs a h (In-of_filter p xs a i).0)

  pub find-none : (p : A → Bool) (xs : List A) → find p xs ≡ none → All (λ a. p a ≡ false) xs
  find-none p [] h = tt
  find-none p (x ∷ xs) h = elim (Bool-cases (p x)) [
    | inl t ↦ absurd (ground arith)
    | inr f ↦ (f, find-none p xs (ground arith))
  ]

  pub find-some : (p : A → Bool) (xs : List A) (a : A) → find p xs ≡ some a → In a xs × (p a ≡ true)
  find-some p [] a h = absurd (ground arith)
  find-some p (x ∷ xs) a h = elim (Bool-cases (p x)) [
    | inl t ↦ (inl (ground arith), ground arith)
    | inr f ↦ let r = find-some p xs a (ground arith) in (inr r.0, r.1)
  ]
