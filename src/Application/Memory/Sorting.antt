-- ===== src/Application/Memory/Sorting.antt =====
-- Sorting a list (the calls of sort.Slice in internal/application/memory_repository.go) keeps its
-- elements.
use prappser_spaces.Base.{
  ◌≡◌, ◌⊎◌, inl, inr, Bool, true, false, List, [], ◌∷◌, In, Bool-cases, if◌then◌else◌,
}
use prappser_spaces.Application.Memory.{sort_by, insert_by}

module _ {A : Type 0} where
  behind :
      (x a y : A) (ys zs : List A)
      → ((In a zs) → (x ≡ a) ⊎ In a ys)
      → In a (y ∷ zs)
      → (x ≡ a) ⊎ In a (y ∷ ys)
  behind x a y ys zs r (inl e) = inr (inl e)
  behind x a y ys zs r (inr j) = elim (r j) [ inl e ↦ inl e | inr k ↦ inr (inr k) ]

  -- Sorting brings in nothing.
  In-of_insert :
      (lt : A → A → Bool) (x a : A) (xs : List A) → In a (insert_by lt x xs) → (x ≡ a) ⊎ In a xs
  unfolding insert_by
  In-of_insert lt x a [] i = i
  In-of_insert lt x a (y ∷ ys) i =
      let r = In-of_insert lt x a ys in
      (elim (lt y x)
          as (λ b.
            In a (if b then y ∷ insert_by lt x ys else x ∷ y ∷ ys) → (x ≡ a) ⊎ In a (y ∷ ys)) [
              | true ↦ λ j. behind x a y ys (insert_by lt x ys) r j
              | false ↦ λ j. j
            ])
        i

  -- And it drops nothing.
  In-insert :
      (lt : A → A → Bool) (x a : A) (xs : List A) → (x ≡ a) ⊎ In a xs → In a (insert_by lt x xs)
  unfolding insert_by
  In-insert lt x a [] i = i
  In-insert lt x a (y ∷ ys) i = elim (Bool-cases (lt y x)) [
    | inr f ↦ rw f i
    | inl t ↦ rw t (elim i [
      | inl e ↦ inr (In-insert lt x a ys (inl e))
      | inr (inl e) ↦ inl e
      | inr (inr j) ↦ inr (In-insert lt x a ys (inr j))
    ])
  ]

  pub In-sort : (lt : A → A → Bool) (a : A) (xs : List A) → In a xs → In a (sort_by lt xs)
  unfolding sort_by
  In-sort lt a [] i = i
  In-sort lt a (x ∷ xs) (inl e) = In-insert lt x a (sort_by lt xs) (inl e)
  In-sort lt a (x ∷ xs) (inr i) = In-insert lt x a (sort_by lt xs) (inr (In-sort lt a xs i))

  pub In-of_sort : (lt : A → A → Bool) (a : A) (xs : List A) → In a (sort_by lt xs) → In a xs
  unfolding sort_by
  In-of_sort lt a [] i = i
  In-of_sort lt a (x ∷ xs) i = elim (In-of_insert lt x a (sort_by lt xs) i) [
    | inl e ↦ inl e
    | inr j ↦ inr (In-of_sort lt a xs j)
  ]
