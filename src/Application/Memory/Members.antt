-- ===== src/Application/Memory/Members.antt =====
-- The members of a repository: one row to an id, and one to an application and a public key.
pub mod Writes
pub mod Owners
use prappser_spaces.Base.{
  ℕ, String, ◌≡◌, ◌≢◌, refl, sym, ◌∙◌, ◌⊎◌, inl, inr, Bool, true, false, ap, not, Option, none,
  some, List, [], ◌∷◌, ◌==◌, ◌&&◌, arith, eq_iff, eq_refl, All, In, filter, find, Bool-cases,
  Option-cases, if◌then◌else◌,
}
use mathlib.Core.Path.{subst}
use prappser_spaces.Base.Dict.{Dict, get, put, remove}
use prappser_spaces.Base.Int.{ℤ}
use prappser_spaces.Base.Members.{All-In, All-of_In, In-of_filter, find-some}
use prappser_spaces.Result.{Result, ok, err}
use prappser_spaces.Application.{Application, Member, Role}
use prappser_spaces.Application.Memory.{
  Repository, values, member_of, sort_by, insert_by, get_members_by_application_id,
  get_application_by_id, get_member_by_public_key, delete_member, update_member_role, is_none,
}

-- Two rows differ in their ids, and in their applications or keys.
pub record Differ (x y : Member) : Type 0 where
  pub ids : x.id ≢ y.id
  pub keys : x.application_id ≡ y.application_id → x.public_key ≢ y.public_key

abbrev pub AllDiffer : List Member → Type 0
AllDiffer [] = Unit
AllDiffer (x ∷ xs) = All (Differ x) xs × AllDiffer xs

abbrev pub Keyed : Dict Member → Type 0
Keyed [] = Unit
Keyed ((k, m) ∷ l) = (k ≡ m.id) × Keyed l

pub record IsKeyed (r : Repository) : Type 0 where
  pub keyed : Keyed r.members
  pub differ : AllDiffer (values r.members)

-- One member of an application has a public key.
pub same_member_of_key :
    (xs : List Member) (a b : Member)
    → AllDiffer xs
    → In a xs
    → In b xs
    → a.application_id ≡ b.application_id
    → a.public_key ≡ b.public_key
    → a ≡ b
same_member_of_key [] a b d i j p q = absurd i
same_member_of_key (x ∷ xs) a b d (inl e) (inl f) p q = sym e ∙ f
same_member_of_key (x ∷ xs) a b d (inl e) (inr j) p q =
    let k = All-In (Differ x) xs b d.0 j in
    absurd (
      k.keys (ap (λ (z : Member). z.application_id) e ∙ p)
        (ap (λ (z : Member). z.public_key) e ∙ q))
same_member_of_key (x ∷ xs) a b d (inr i) (inl f) p q =
    let k = All-In (Differ x) xs a d.0 i in
    absurd (
      k.keys (ap (λ (z : Member). z.application_id) f ∙ sym p)
        (ap (λ (z : Member). z.public_key) f ∙ sym q))
same_member_of_key (x ∷ xs) a b d (inr i) (inr j) p q = same_member_of_key xs a b d.1 i j p q

-- One member has an id.
pub same_member_of_id :
    (xs : List Member) (a b : Member) → AllDiffer xs → In a xs → In b xs → a.id ≡ b.id → a ≡ b
same_member_of_id [] a b d i j p = absurd i
same_member_of_id (x ∷ xs) a b d (inl e) (inl f) p = sym e ∙ f
same_member_of_id (x ∷ xs) a b d (inl e) (inr j) p =
    absurd ((All-In (Differ x) xs b d.0 j).ids (ap (λ (z : Member). z.id) e ∙ p))
same_member_of_id (x ∷ xs) a b d (inr i) (inl f) p =
    absurd ((All-In (Differ x) xs a d.0 i).ids (ap (λ (z : Member). z.id) f ∙ sym p))
same_member_of_id (x ∷ xs) a b d (inr i) (inr j) p = same_member_of_id xs a b d.1 i j p

pub Differ-flip : (x y : Member) → Differ x y → Differ y x
Differ-flip x y d = record { ids = λ e. d.ids (sym e); keys = λ e f. d.keys (sym e) (sym f) }

-- Rows of two ids differ.
pub rows-Differ :
    (xs : List Member) (a b : Member) → AllDiffer xs → In a xs → In b xs → a.id ≢ b.id → Differ a b
rows-Differ [] a b d i j n = absurd i
rows-Differ (x ∷ xs) a b d (inl e) (inl f) n = absurd (n (ap (λ (z : Member). z.id) (sym e ∙ f)))
rows-Differ (x ∷ xs) a b d (inl e) (inr j) n =
    subst (λ z. Differ z b) e (All-In (Differ x) xs b d.0 j)
rows-Differ (x ∷ xs) a b d (inr i) (inl f) n =
    subst (λ z. Differ a z) f (Differ-flip x a (All-In (Differ x) xs a d.0 i))
rows-Differ (x ∷ xs) a b d (inr i) (inr j) n = rows-Differ xs a b d.1 i j n
