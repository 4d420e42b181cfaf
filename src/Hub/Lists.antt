-- ===== src/Hub/Lists.antt =====
-- Slices of clients, in which each client stands once.
use prappser_spaces.Base.{
  ℕ, String, ◌≡◌, ◌≢◌, refl, sym, ◌⊎◌, inl, inr, true, false, not, List, [], ◌∷◌, ◌++◌, ◌==◌, any,
  arith, eq_iff, eqb, In, Bool-cases,
}
use mathlib.Core.Path.{subst}
use prappser_spaces.Base.Members.{In-filter}
use prappser_spaces.Hub.{
  set, drop_app, set_at, remove_first, remove_from_app_subscribers, remove_from_apps,
}

abbrev pub Once : List ℕ → Type 0
Once [] = Unit
Once (x ∷ xs) = (In x xs → ⊥) × Once xs

pub In-of_remove_first : (c a : ℕ) (xs : List ℕ) → In a (remove_first c xs) → In a xs
unfolding remove_first
In-of_remove_first c a [] i = i
In-of_remove_first c a (x ∷ xs) i =
    let rest = In-of_remove_first c a xs in
    elim (Bool-cases (eqb x c)) [
      | inl t ↦ inr (rw t at i)
      | inr f ↦
          let i' : In a (x ∷ remove_first c xs) = rw f at i in
          elim i' [ inl e ↦ inl e | inr j ↦ inr (rest j) ]
    ]

pub Once-remove_first : (c : ℕ) (xs : List ℕ) → Once xs → Once (remove_first c xs)
unfolding remove_first
Once-remove_first c [] o = tt
Once-remove_first c (x ∷ xs) o =
    let rest = Once-remove_first c xs o.1 in
    elim (Bool-cases (eqb x c)) [
      | inl t ↦ rw t o.1
      | inr f ↦ rw f ((λ i. o.0 (In-of_remove_first c x xs i)), rest)
    ]

-- What is taken out is gone.
pub remove_first-gone : (c : ℕ) (xs : List ℕ) → Once xs → In c (remove_first c xs) → ⊥
unfolding remove_first
remove_first-gone c [] o i = absurd i
remove_first-gone c (x ∷ xs) o i =
    let rest = remove_first-gone c xs o.1 in
    elim (Bool-cases (eqb x c)) [
      | inl t ↦
          let e : x ≡ c = ground arith in
          let j : In c xs = rw t at i in o.0 (subst (λ z. In z xs) (sym e) j)
      | inr f ↦
          let i' : In c (x ∷ remove_first c xs) = rw f at i in
          elim i' [ inl e ↦ ground (arith, f, e) | inr j ↦ rest j ]
    ]

pub In-append_one : (c a : ℕ) (xs : List ℕ) → In a (xs ++ c ∷ []) → In a xs ⊎ (c ≡ a)
In-append_one c a [] (inl e) = inr e
In-append_one c a [] (inr j) = absurd j
In-append_one c a (x ∷ xs) (inl e) = inl (inl e)
In-append_one c a (x ∷ xs) (inr j) = elim (In-append_one c a xs j) [
  | inl k ↦ inl (inr k)
  | inr e ↦ inr e
]

pub Once-append_one : (c : ℕ) (xs : List ℕ) → Once xs → (In c xs → ⊥) → Once (xs ++ c ∷ [])
Once-append_one c [] o n = ((λ i. absurd i), tt)
Once-append_one c (x ∷ xs) o n = (
  (λ i. elim (In-append_one c x xs i) [ inl j ↦ o.0 j | inr e ↦ n (inl (sym e)) ]),
  Once-append_one c xs o.1 (λ i. n (inr i)),
)

pub any-In : (c : ℕ) (xs : List ℕ) → any (eqb c) xs ≡ false → In c xs → ⊥
any-In c [] h i = absurd i
any-In c (x ∷ xs) h (inl e) = ground (arith, h, e)
any-In c (x ∷ xs) h (inr j) = any-In c xs (ground (arith, h)) j

pub set_at_own : {A : Type 0} (k : String) (a : A) (f : String → A) → set_at k a f k ≡ a
set_at_own k a f = ground (arith, eq_iff k k)

-- An entry of a map that was written at one key.
pub set_at-elim :
    {A : Type 0} (P : A → Type 0) (k j : String) (a : A) (f : String → A)
    → (k ≡ j → P a)
    → P (f j)
    → P (set_at k a f j)
set_at-elim P k j a f new old = elim (Bool-cases (k == j)) [
  | inl t ↦ rw t (new ((eq_iff k j).0 t))
  | inr n ↦ rw n old
]

pub In-of_remove_from_apps :
    (c x : ℕ) (apps : List String) (m : String → List ℕ) (a : String)
    → In x (remove_from_apps c apps m a)
    → In x (m a)
unfolding remove_from_apps remove_from_app_subscribers
In-of_remove_from_apps c x [] m a i = i
In-of_remove_from_apps c x (b ∷ apps) m a i =
    set_at-elim (λ l. In x l → In x (m a)) b a (remove_first c (m b)) m
      (λ e j. subst (λ z. In x (m z)) e (In-of_remove_first c x (m b) j)) (λ j. j)
      (In-of_remove_from_apps c x apps (remove_from_app_subscribers c b m) a i)

pub Once-remove_from_apps :
    (c : ℕ) (apps : List String) (m : String → List ℕ)
    → ((a : String) → Once (m a))
    → (a : String) → Once (remove_from_apps c apps m a)
unfolding remove_from_apps remove_from_app_subscribers
Once-remove_from_apps c [] m o a = o a
Once-remove_from_apps c (b ∷ apps) m o a =
    Once-remove_from_apps c apps (remove_from_app_subscribers c b m)
      (λ j.
        set_at-elim Once b j (remove_first c (m b)) m (λ e. Once-remove_first c (m b) (o b)) (o j))
      a

-- The client is gone from every application of the list.
pub remove_from_apps-gone :
    (c : ℕ) (apps : List String) (m : String → List ℕ) (a : String)
    → ((j : String) → Once (m j))
    → In a apps
    → In c (remove_from_apps c apps m a)
    → ⊥
unfolding remove_from_apps remove_from_app_subscribers
remove_from_apps-gone c [] m a o i j = absurd i
remove_from_apps-gone c (b ∷ apps) m a o (inl e) j = remove_first-gone c (m b) (o b) (
    subst (λ l. In c l) (set_at_own b (remove_first c (m b)) m)
      (subst (λ z. In c (remove_from_app_subscribers c b m z)) (sym e)
        (In-of_remove_from_apps c c apps (remove_from_app_subscribers c b m) a j)))
remove_from_apps-gone c (b ∷ apps) m a o (inr i) j =
    remove_from_apps-gone c apps (remove_from_app_subscribers c b m) a
      (λ k.
        set_at-elim Once b k (remove_first c (m b)) m (λ e. Once-remove_first c (m b) (o b)) (o k))
      i j

pub set_at-cases :
    {A : Type 0} (P : A → Type 0) (k j : String) (a : A) (f : String → A)
    → (k ≡ j → P a)
    → (k ≢ j → P (f j))
    → P (set_at k a f j)
set_at-cases P k j a f new old = elim (Bool-cases (k == j)) [
  | inl t ↦ rw t (new ((eq_iff k j).0 t))
  | inr n ↦ rw n (old (λ e. ground (arith, n, (eq_iff k j).1 e)))
]

pub set_own : {A : Type 0} (c : ℕ) (a : A) (f : ℕ → A) → set c a f c ≡ a
set_own c a f = ground arith

pub set-elim :
    {A : Type 0} (P : A → Type 0) (c d : ℕ) (a : A) (f : ℕ → A)
    → (c ≡ d → P a)
    → ((eqb c d ≡ false) → P (f d))
    → P (set c a f d)
set-elim P c d a f new old = elim (Bool-cases (eqb c d)) [
  | inl t ↦ rw t (new (ground arith))
  | inr n ↦ rw n (old n)
]

-- What the client keeps of its subscriptions.
pub kept_app :
    (app_id a : String) (l : List String) → In a l → app_id ≢ a → In a (drop_app app_id l)
kept_app app_id a l i n =
    In-filter (λ b. not (b == app_id)) l a i (other (Bool-cases (a == app_id)))
  where
    other : ((a == app_id) ≡ true) ⊎ ((a == app_id) ≡ false) → not (a == app_id) ≡ true
    other (inl t) = absurd (n (sym ((eq_iff a app_id).0 t)))
    other (inr f) = rw f refl
