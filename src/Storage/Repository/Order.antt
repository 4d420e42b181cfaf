-- ===== src/Storage/Repository/Order.antt =====
-- The listing of an application's files (GetByApplicationID in internal/storage/repository.go).
use mathlib.Core.Path.{subst}
use prappser_spaces.Base.{refl, inl, inr, List, [], ◌∷◌, In, Bool-cases}
use prappser_spaces.Base.Int.{ltb_ℤ}
use prappser_spaces.Storage.{Storage}
use prappser_spaces.Storage.Repository.{Row, scanned, insert_young, youngest_first}

-- The order of the listing keeps its members.
In-insert_young : (s a : Storage) (l : List Storage) → In a l → In a (insert_young s l)
unfolding insert_young
In-insert_young s a [] i = absurd i
In-insert_young s a (x ∷ xs) i = elim (Bool-cases (ltb_ℤ s.created_at x.created_at)) [
  | inl t ↦ rw t (elim i [ inl e ↦ inl e | inr j ↦ inr (In-insert_young s a xs j) ])
  | inr f ↦ rw f (inr i)
]

head-insert_young : (s : Storage) (l : List Storage) → In s (insert_young s l)
unfolding insert_young
head-insert_young s [] = inl refl
head-insert_young s (x ∷ xs) = elim (Bool-cases (ltb_ℤ s.created_at x.created_at)) [
  | inl t ↦ rw t (inr (head-insert_young s xs))
  | inr f ↦ rw f (inl refl)
]

pub In-youngest_first : (r : Row) (rs : List Row) → In r rs → In (scanned r) (youngest_first rs)
unfolding youngest_first
In-youngest_first r [] i = absurd i
In-youngest_first r (x ∷ xs) (inl e) =
    subst (λ y. In (scanned y) (youngest_first (x ∷ xs))) e
      (head-insert_young (scanned x) (youngest_first xs))
In-youngest_first r (x ∷ xs) (inr j) =
    In-insert_young (scanned x) (scanned r) (youngest_first xs) (In-youngest_first r xs j)
