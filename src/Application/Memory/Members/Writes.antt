-- ===== src/Application/Memory/Members/Writes.antt =====
-- What a deletion and an update of a member's row keep of the other rows.
use prappser_spaces.Base.{
  String, ◌≡◌, ◌≢◌, refl, sym, ◌∙◌, ◌⊎◌, inl, inr, true, ap, some, [], ◌∷◌, ◌==◌, arith, eq_iff, In,
  Bool-cases,
}
use mathlib.Core.Path.{subst}
use prappser_spaces.Base.Dict.{Dict, get, put, remove}
use prappser_spaces.Base.Members.{All-In, All-of_In}
use prappser_spaces.Application.{Member}
use prappser_spaces.Application.Memory.{values}
use prappser_spaces.Application.Memory.Members.{Differ, AllDiffer, Keyed, Differ-flip}

name_clash : (j id : String) (a w : Member) → j ≡ w.id → (j == id) ≡ true → w ≡ a → a.id ≢ id → ⊥
name_clash j id a w k t e n = n (ap (λ (z : Member). z.id) (sym e) ∙ (sym k ∙ (eq_iff j id).0 t))

-- A deletion keeps the rows of other ids.
pub In-remove :
    (id : String) (l : Dict Member) (a : Member)
    → Keyed l
    → a.id ≢ id
    → In a (values l)
    → In a (values (remove id l))
unfolding remove
In-remove id [] a k n i = i
In-remove id ((j, w) ∷ l) a k n i =
    let rest = In-remove id l a k.1 n in
    elim (Bool-cases (j == id)) [
      | inl t ↦ rw t (elim i [ inl e ↦ absurd (name_clash j id a w k.0 t e n) | inr h ↦ rest h ])
      | inr f ↦ rw f (elim i [ inl e ↦ inl e | inr h ↦ inr (rest h) ])
    ]

pub In-of_remove :
    (id : String) (l : Dict Member) (a : Member) → In a (values (remove id l)) → In a (values l)
unfolding remove
In-of_remove id [] a i = i
In-of_remove id ((j, w) ∷ l) a i =
    let rest = In-of_remove id l a in
    elim (Bool-cases (j == id)) [
      | inl t ↦ inr (rest (rw t at i))
      | inr f ↦
          let i' : In a (w ∷ values (remove id l)) = rw f at i in
          elim i' [ inl e ↦ inl e | inr h ↦ inr (rest h) ]
    ]

pub Keyed-remove : (id : String) (l : Dict Member) → Keyed l → Keyed (remove id l)
unfolding remove
Keyed-remove id [] k = tt
Keyed-remove id ((j, w) ∷ l) k =
    let rest = Keyed-remove id l k.1 in
    elim (Bool-cases (j == id)) [ inl t ↦ rw t rest | inr f ↦ rw f (k.0, rest) ]

pub AllDiffer-remove :
    (id : String) (l : Dict Member) → AllDiffer (values l) → AllDiffer (values (remove id l))
unfolding remove
AllDiffer-remove id [] d = tt
AllDiffer-remove id ((j, w) ∷ l) d =
    let rest = AllDiffer-remove id l d.1 in
    elim (Bool-cases (j == id)) [
      | inl t ↦ rw t rest
      | inr f ↦ rw f (
        All-of_In (Differ w) (values (remove id l))
            (λ a i. All-In (Differ w) (values l) a d.0 (In-of_remove id l a i)),
        rest,
      )
    ]

-- An update keeps the rows of other ids.
pub In-put :
    (id : String) (v : Member) (l : Dict Member) (a : Member)
    → Keyed l
    → a.id ≢ id
    → In a (values l)
    → In a (values (put id v l))
unfolding put
In-put id v [] a k n i = absurd i
In-put id v ((j, w) ∷ l) a k n i =
    let rest = In-put id v l a k.1 n in
    elim (Bool-cases (j == id)) [
      | inl t ↦ rw t (elim i [ inl e ↦ absurd (name_clash j id a w k.0 t e n) | inr h ↦ inr h ])
      | inr f ↦ rw f (elim i [ inl e ↦ inl e | inr h ↦ inr (rest h) ])
    ]

pub In-of_put :
    (id : String) (v : Member) (l : Dict Member) (a : Member)
    → In a (values (put id v l))
    → (v ≡ a) ⊎ In a (values l)
unfolding put
In-of_put id v [] a i = i
In-of_put id v ((j, w) ∷ l) a i =
    let rest = In-of_put id v l a in
    elim (Bool-cases (j == id)) [
      | inl t ↦
          let i' : In a (v ∷ values l) = rw t at i in
          elim i' [ inl e ↦ inl e | inr h ↦ inr (inr h) ]
      | inr f ↦
          let i' : In a (w ∷ values (put id v l)) = rw f at i in
          elim i' [
            | inl e ↦ inr (inl e)
            | inr h ↦ elim (rest h) [ inl e ↦ inl e | inr g ↦ inr (inr g) ]
          ]
    ]

pub Keyed-put :
    (id : String) (v : Member) (l : Dict Member) → v.id ≡ id → Keyed l → Keyed (put id v l)
unfolding put
Keyed-put id v [] e k = (sym e, tt)
Keyed-put id v ((j, w) ∷ l) e k =
    let rest = Keyed-put id v l e k.1 in
    elim (Bool-cases (j == id)) [
      | inl t ↦ rw t ((eq_iff j id).0 t ∙ sym e, k.1)
      | inr f ↦ rw f (k.0, rest)
    ]

pub AllDiffer-put :
    (id : String) (v : Member) (l : Dict Member)
    → Keyed l
    → AllDiffer (values l)
    → ((a : Member) → In a (values l) → a.id ≢ id → Differ v a)
    → AllDiffer (values (put id v l))
unfolding put
AllDiffer-put id v [] k d f = (tt, tt)
AllDiffer-put id v ((j, w) ∷ l) k d f =
    let rest = AllDiffer-put id v l k.1 d.1 (λ a i. f a (inr i)) in
    elim (Bool-cases (j == id)) [
      | inl t ↦ rw t (
        All-of_In (Differ v) (values l) (λ a i. f a (inr i) (λ q.
            (All-In (Differ w) (values l) a d.0 i).ids (sym k.0 ∙ ((eq_iff j id).0 t ∙ sym q)))),
        d.1,
      )
      | inr n ↦ rw n (
        All-of_In (Differ w) (values (put id v l)) (λ a i. elim (In-of_put id v l a i) [
          | inl e ↦
              subst (Differ w) e
                (Differ-flip v w (f w (inl refl) (λ q. ground (arith, n, eq_iff j id, k.0 ∙ q))))
          | inr h ↦ All-In (Differ w) (values l) a d.0 h
        ]),
        rest,
      )
    ]

-- The row that a key finds.
pub get-In :
    (id : String) (l : Dict Member) (row : Member)
    → Keyed l
    → get id l ≡ some row
    → In row (values l) × (row.id ≡ id)
unfolding get
get-In id [] row k h = absurd (ground arith)
get-In id ((j, w) ∷ l) row k h = elim (Bool-cases (j == id)) [
  | inl t ↦
      let e : w ≡ row = ground (arith, t) in
      (inl e, ap (λ (z : Member). z.id) (sym e) ∙ (sym k.0 ∙ (eq_iff j id).0 t))
  | inr f ↦ let r = get-In id l row k.1 (ground (arith, f)) in (inr r.0, r.1)
]
