-- ===== src/Invitation/Repository/Uses.antt =====
-- The counts of uses under the statements of the repository
-- (internal/invitation/invitation_repository.go).
use mathlib.Core.Path.{subst}
use prappser_spaces.Base.{
  String, ◌≡◌, refl, sym, ap, ◌∙◌, Bool, true, false, Option, none, some, List, [], ◌∷◌, ◌==◌, All,
  inl, inr, ◌⊎◌, arith, Bool-cases, if◌then◌else◌,
}
use prappser_spaces.Base.Int.{ℤ, pos}
use prappser_spaces.Invitation.{Invitation}
use prappser_spaces.Invitation.Repository.{has_id, kept_row, update_row}

-- How often the invitation with an id was used, with 0 where there is none.
abbrev pub count_of : String → List Invitation → ℤ
count_of id [] = pos 0
count_of id (i ∷ rest) = if has_id id i then i.used_count else count_of id rest

pub count_of-here :
    (id : String) (i : Invitation) (rest : List Invitation)
    → has_id id i ≡ true
    → count_of id (i ∷ rest) ≡ i.used_count
count_of-here id i rest h = ap (λ b. if b then i.used_count else count_of id rest) h

pub count_of-later :
    (id : String) (i : Invitation) (rest : List Invitation)
    → has_id id i ≡ false
    → count_of id (i ∷ rest) ≡ count_of id rest
count_of-later id i rest h = ap (λ b. if b then i.used_count else count_of id rest) h

kept_row-eq_some :
    (i : Invitation) (o : Option (List Invitation)) (l' : List Invitation)
    → kept_row i o ≡ some l'
    → (r : List Invitation) × (o ≡ some r) × (i ∷ r ≡ l')
kept_row-eq_some i none l' e = absurd (ground arith)
kept_row-eq_some i (some r) l' e = (r, refl, ground arith)

module _ (test : Invitation → Bool) (f : Invitation → Invitation) (id : String) where
  -- The two ways in which a statement changes a row.
  unfoldable pub Here : Invitation → List Invitation → List Invitation → Type 0
  Here i rest l' = (has_id id i ≡ true) × (test i ≡ true) × (f i ∷ rest ≡ l')

  unfoldable pub Later : Invitation → List Invitation → List Invitation → Type 0
  Later i rest l' =
      (has_id id i ≡ false)
      × (r : List Invitation) × (update_row test f id rest ≡ some r)
      × (i ∷ r ≡ l')

  -- Of the row that a statement changed.
  unfoldable pub Changed : List Invitation → List Invitation → Type 0
  Changed l l' =
      (i : Invitation) × (test i ≡ true)
      × (count_of id l ≡ i.used_count)
      × (count_of id l' ≡ (f i).used_count)

  pub row_updated :
      (i : Invitation) (rest l' : List Invitation)
      → update_row test f id (i ∷ rest) ≡ some l'
      → Here i rest l' ⊎ Later i rest l'
  unfolding update_row Here Later
  row_updated i rest l' e = elim (Bool-cases (has_id id i)) [
    | inl h ↦ elim (Bool-cases (test i)) [
      | inl t ↦ inl (h, t, ground arith)
      | inr t ↦ absurd (ground arith)
    ]
    | inr h ↦
        let q = kept_row-eq_some i (update_row test f id rest) l' (
          sym (
            ap
              (λ b.
                if b
                then (if test i then some (f i ∷ rest) else none)
                else kept_row i (update_row test f id rest))
              h)
          ∙ e) in
        inr (h, q.0, q.1, q.2)
  ]

module _ (test : Invitation → Bool) (f : Invitation → Invitation) (id : String)
    (same_id : (i : Invitation) → (f i).id ≡ i.id) where
  pub update_row-Changed :
      (l l' : List Invitation) → update_row test f id l ≡ some l' → Changed test f id l l'
  unfolding update_row Changed Here Later
  update_row-Changed [] l' e = absurd (ground arith)
  update_row-Changed (i ∷ rest) l' e = elim (row_updated test f id i rest l' e) [
    | inl h ↦ (
      i,
      h.1,
      count_of-here id i rest h.0,
      sym (ap (λ m. count_of id m) h.2)
          ∙ count_of-here id (f i) rest (ap (λ k. k == id) (same_id i) ∙ h.0),
    )
    | inr h ↦
        let c = update_row-Changed rest h.1 h.2 in
        (
          c.0,
          c.1,
          count_of-later id i rest h.0 ∙ c.2,
          sym (ap (λ m. count_of id m) h.3) ∙ count_of-later id i h.1 h.0 ∙ c.3,
        )
  ]

module _ (test : Invitation → Bool) (f : Invitation → Invitation) (id : String)
    (P : Invitation → Type 0) where
  pub update_row-All :
      (l l' : List Invitation)
      → ((i : Invitation) → P i → test i ≡ true → P (f i))
      → All P l
      → update_row test f id l ≡ some l'
      → All P l'
  unfolding update_row Here Later
  update_row-All [] l' k h e = absurd (ground arith)
  update_row-All (i ∷ rest) l' k h e = elim (row_updated test f id i rest l' e) [
    | inl c ↦ subst (λ m. All P m) c.2 (k i h.0 c.1, h.1)
    | inr c ↦ subst (λ m. All P m) c.3 (h.0, update_row-All rest c.1 k h.1 c.2)
  ]
