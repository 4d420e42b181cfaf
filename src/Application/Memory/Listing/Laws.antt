-- ===== src/Application/Memory/Listing/Laws.antt =====
-- Which applications an account's list has (GetApplicationsByMemberPublicKey in
-- internal/application/memory_repository.go).
use prappser_spaces.Base.{
  String, ◌≡◌, refl, ap, ◌⊎◌, ◌↔◌, inl, inr, Bool, true, ◌&&◌, List, [], ◌∷◌, ◌==◌, any, In, arith,
  eq_iff, Bool-cases, Option-cases,
}
use mathlib.Core.Path.{subst}
use prappser_spaces.Base.Int.{ℤ, ltb_ℤ}
use prappser_spaces.Base.Dict.{get}
use prappser_spaces.Result.{Result, ok, err}
use prappser_spaces.Application.{Application, Member}
use prappser_spaces.Application.Memory.{
  Repository, values, is_none, is_member_active, member_of, is_member, get_application_by_id,
}
use prappser_spaces.Application.Memory.Sorting.{In-sort, In-of_sort}
use prappser_spaces.Application.Memory.Registration.{with_id}
use prappser_spaces.Application.Memory.Listing.{
  joined_ids, with_application, load_applications, get_applications_by_member_public_key,
}

any-In : (id : String) (ids : List String) → any (λ j. j == id) ids ≡ true → In id ids
any-In id [] h = absurd (ground arith)
any-In id (j ∷ ids) h = elim (Bool-cases (j == id)) [
  | inl t ↦ inl ((eq_iff j id).0 t)
  | inr f ↦ inr (any-In id ids (ground (arith, f)))
]

In-with_id : (i id : String) (ids : List String) → (id ≡ i) ⊎ In i ids → In i (with_id id ids)
In-with_id i id ids h = elim (Bool-cases (any (λ j. j == id) ids)) [
  | inl t ↦ rw t (elim h [ inl e ↦ subst (λ z. In z ids) e (any-In id ids t) | inr j ↦ j ])
  | inr f ↦ rw f h
]

In-of_with_id : (i id : String) (ids : List String) → In i (with_id id ids) → (id ≡ i) ⊎ In i ids
In-of_with_id i id ids h = elim (Bool-cases (any (λ j. j == id) ids)) [
  | inl t ↦ inr (rw t at h)
  | inr f ↦ rw f at h
]

module _ (now : ℤ) (key : String) where
  -- The ids are those of the applications that the account is an active member of.
  In-joined_ids :
      (id : String) (rows : List Member)
      → any (member_of now id key) rows ≡ true
      → In id (joined_ids now key rows)
  unfolding joined_ids
  In-joined_ids id [] h = absurd (ground arith)
  In-joined_ids id (m ∷ rows) h =
      elim (Bool-cases (m.public_key == key && is_member_active now m)) [
        | inl t ↦ rw t (
            In-with_id id m.application_id (joined_ids now key rows)
              (elim (Bool-cases (m.application_id == id)) [
                | inl a ↦ inl ((eq_iff m.application_id id).0 a)
                | inr n ↦ inr (In-joined_ids id rows (ground (arith, n)))
              ]))
        | inr f ↦ rw f (In-joined_ids id rows (ground (arith, f)))
      ]

  In-of_joined_ids :
      (id : String) (rows : List Member)
      → In id (joined_ids now key rows)
      → any (member_of now id key) rows ≡ true
  unfolding joined_ids
  In-of_joined_ids id [] h = absurd h
  In-of_joined_ids id (m ∷ rows) h =
      elim (Bool-cases (m.public_key == key && is_member_active now m)) [
        | inl t ↦ elim (In-of_with_id id m.application_id (joined_ids now key rows) (rw t at h)) [
          | inl e ↦ ground (arith, t, e, eq_iff m.application_id id)
          | inr j ↦ ground (arith, In-of_joined_ids id rows j)
        ]
        | inr f ↦ ground (arith, In-of_joined_ids id rows (rw f at h))
      ]

In-with_application :
    (app : Application) (found : Result Application) (apps : List Application)
    → In app apps
    → In app (with_application found apps)
In-with_application app (err x) apps i = i
In-with_application app (ok a) apps i = elim (Bool-cases (is_none a.deleted_at)) [
  | inl t ↦ rw t (inr i)
  | inr f ↦ rw f i
]

In-of_with_application :
    (app : Application) (found : Result Application) (apps : List Application)
    → In app (with_application found apps)
    → (found ≡ ok app) ⊎ In app apps
In-of_with_application app (err x) apps i = inr i
In-of_with_application app (ok a) apps i = elim (Bool-cases (is_none a.deleted_at)) [
  | inl t ↦
      let i' : In app (a ∷ apps) = rw t at i in elim i' [ inl e ↦ inl (ap ok e) | inr j ↦ inr j ]
  | inr f ↦ inr (rw f at i)
]

-- An application that is read whole is not deleted.
loaded_live :
    (now : ℤ) (id : String) (r : Repository) (app : Application)
    → get_application_by_id now id r ≡ ok app
    → is_none app.deleted_at ≡ true
unfolding get_application_by_id
loaded_live now id r app h = elim (Option-cases (get id r.applications)) [
  | inl n ↦ absurd (ground (arith, n))
  | inr (stored, e) ↦ elim (Bool-cases (is_none stored.deleted_at)) [
    | inl t ↦ ground (arith, e, t)
    | inr f ↦ absurd (ground (arith, e, f))
  ]
]

module _ (now : ℤ) (r : Repository) (app : Application) where
  -- One of the ids is that of the application.
  abbrev IsFound : List String → Type 0
  IsFound ids = (id : String) × In id ids × (get_application_by_id now id r ≡ ok app)

  In-load_applications :
      (id : String) (ids : List String)
      → In id ids
      → get_application_by_id now id r ≡ ok app
      → In app (load_applications now r ids)
  unfolding load_applications
  In-load_applications id [] i h = absurd i
  In-load_applications id (j ∷ ids) (inl e) h = rw (e, h, loaded_live now id r app h) (inl refl)
  In-load_applications id (j ∷ ids) (inr i) h =
      In-with_application app (get_application_by_id now j r) (load_applications now r ids)
        (In-load_applications id ids i h)

  In-of_load_applications : (ids : List String) → In app (load_applications now r ids) → IsFound ids
  unfolding load_applications
  In-of_load_applications [] i = absurd i
  In-of_load_applications (j ∷ ids) i =
      elim (In-of_with_application app (get_application_by_id now j r) (load_applications now r ids)
        i) [
          | inl e ↦ (j, inl refl, e)
          | inr k ↦ let (id, l, e) = In-of_load_applications ids k in (id, inr l, e)
        ]

-- The list of an account has exactly the applications that it is an active member of and that can
-- be read, as they are read: each application of the list is found by the id of such a membership,
-- and each that is found by one is in the list.
pub listed_iff :
    (now : ℤ) (key : String) (r : Repository) (app : Application)
    → In app (get_applications_by_member_public_key now key r) ↔ (
        (id : String) × (is_member now id key r ≡ true) × (get_application_by_id now id r ≡ ok app))
unfolding get_applications_by_member_public_key is_member
listed_iff now key r app = (
  λ i.
      let (id, j, e) =
        In-of_load_applications now r app (joined_ids now key (values r.members))
          (In-of_sort newer app _ i) in
      (id, In-of_joined_ids now key id (values r.members) j, e),
  λ (id, m, e).
      In-sort newer app (load_applications now r (joined_ids now key (values r.members))) (
        In-load_applications now r app id (joined_ids now key (values r.members))
          (In-joined_ids now key id (values r.members) m) e),
)
  where
    newer : Application → Application → Bool
    newer a b = ltb_ℤ b.created_at a.created_at
