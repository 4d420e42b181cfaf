-- ===== src/Effect/Hoare.antt =====
-- What holds before and after an operation: the rules for each way to build one.
use mathlib.Core.Path.{subst}
use prappser_spaces.Base.{◌≡◌, refl, Bool, true, false, arith, if◌then◌else◌}
use prappser_spaces.Result.{Result, ok, err}
use prappser_spaces.Effect.{Effect, after, ◌>>=◌, give, lift, caught, ignored, deferred}

module _ {S : Type 0} where
  -- Of a run that ended: `Q` where it gave a result, `R` where it failed.
  abbrev pub Post : {A : Type 0} (Q : A → S → Type 0) (R : S → Type 0) → Result A × S → Type 0
  Post Q R (ok a, s) = Q a s
  Post Q R (err e, s) = R s

  pub record Hoare {A : Type 0} (P : S → Type 0) (m : Effect S A) (Q : A → S → Type 0)
      (R : S → Type 0) : Type 0 where
    pub holds : (s : S) → P s → Post Q R (m s)

  -- A predicate on the state that an operation keeps, however it ends.
  abbrev pub Keeps : {A : Type 0} (P : S → Type 0) → Effect S A → Type 0
  Keeps P m = Hoare P m (λ _. P) P

module _ {S : Type 0} {A : Type 0} (P : S → Type 0) where
  pub fetched : (s : S) (r : Result A) → P s → Post (λ _. P) P (r, s)
  fetched s (ok a) p = p
  fetched s (err e) p = p

  lifted : (s : S) (r : Result A) → P s → Post (λ a s'. P s' × (r ≡ ok a)) P (r, s)
  lifted s (ok a) p = (p, refl)
  lifted s (err e) p = p

  -- Of a look at the state, with what was seen.
  pub looked :
      (q : S → Result A) (s : S) (r : Result A)
      → q s ≡ r
      → P s
      → Post (λ a s'. P s' × (q s' ≡ ok a)) P (r, s)
  looked q s (ok a) e p = (p, e)
  looked q s (err x) e p = p

  pub caught-Post : (r : Result A × S) → Post (λ _. P) P r → P r.1
  caught-Post (ok a, s) h = h
  caught-Post (err e, s) h = h

module _ {S : Type 0} {A : Type 0} (Q Q' : A → S → Type 0) (R R' : S → Type 0) where
  Post-weaken :
      (r : Result A × S)
      → ((a : A) (s : S) → Q a s → Q' a s)
      → ((s : S) → R s → R' s)
      → Post Q R r
      → Post Q' R' r
  Post-weaken (ok a, s) f g h = f a s h
  Post-weaken (err e, s) f g h = g s h

module _ {S : Type 0} {A B : Type 0} (Q : A → S → Type 0) (Q' : B → S → Type 0)
    (R : S → Type 0) where
  after-Post :
      (r : Result A × S) (f : A → Effect S B)
      → Post Q R r
      → ((a : A) → Hoare (Q a) (f a) Q' R)
      → Post Q' R (after r f)
  after-Post (ok a, s) f h k = (k a).holds s h
  after-Post (err e, s) f h k = h

-- The rules, for each way to build an operation.
module _ {S : Type 0} {A B : Type 0} {P : S → Type 0} {Q : A → S → Type 0} {Q' : B → S → Type 0}
    {R : S → Type 0} where
  pub bind-Hoare :
      {m : Effect S A} {f : A → Effect S B}
      → Hoare P m Q R
      → ((a : A) → Hoare (Q a) (f a) Q' R)
      → Hoare P (m >>= f) Q' R
  bind-Hoare {m = m} {f = f} h k = record {
    holds = λ s p. after-Post Q Q' R (m s) f (h.holds s p) k;
  }

module _ {S : Type 0} {A : Type 0} {P : S → Type 0} where
  pub lift-Hoare : (r : Result A) → Hoare P (lift r) (λ a s. P s × (r ≡ ok a)) P
  lift-Hoare r = record { holds = λ s p. lifted P s r p }

  pub lift-Keeps : (r : Result A) → Keeps P (lift r)
  lift-Keeps r = record { holds = λ s p. fetched P s r p }

  pub give-Keeps : (a : A) → Keeps P (give a)
  give-Keeps a = record { holds = λ s p. p }

module _ {S : Type 0} {A : Type 0} {P P' : S → Type 0} {m : Effect S A} where
  pub caught-Hoare : {R : S → Type 0} → Hoare P m (λ _. P') P' → Hoare P (caught m) (λ _. P') R
  caught-Hoare h = record { holds = λ s p. caught-Post P' (m s) (h.holds s p) }

  pub ignored-Hoare : {R : S → Type 0} → Hoare P m (λ _. P') P' → Hoare P (ignored m) (λ _. P') R
  ignored-Hoare h = record { holds = λ s p. caught-Post P' (m s) (h.holds s p) }

-- The rule of consequence.
module _ {S : Type 0} {A : Type 0} {P : S → Type 0} {Q Q' : A → S → Type 0} {R R' : S → Type 0}
    {m : Effect S A} where
  pub weaken-Hoare :
      ((a : A) (s : S) → Q a s → Q' a s) → ((s : S) → R s → R' s) → Hoare P m Q R → Hoare P m Q' R'
  weaken-Hoare f g h = record { holds = λ s p. Post-weaken Q Q' R R' (m s) f g (h.holds s p) }

module _ {S : Type 0} {A : Type 0} {P P' : S → Type 0} {Q : A → S → Type 0} {R : S → Type 0}
    {m : Effect S A} where
  pub strengthen-Hoare : ((s : S) → P' s → P s) → Hoare P m Q R → Hoare P' m Q R
  strengthen-Hoare f h = record { holds = λ s p. h.holds s (f s p) }

pub if-Hoare :
    {S : Type 0} {A : Type 0} {P : S → Type 0} {Q : A → S → Type 0} {R : S → Type 0}
    {m n : Effect S A} (b : Bool)
    → Hoare P m Q R
    → Hoare P n Q R
    → Hoare P (if b then m else n) Q R
if-Hoare true h k = h
if-Hoare false h k = k

-- A fact that holds beside a predicate on the state.
pub given-Hoare :
    {S : Type 0} {A : Type 0} {C : Type 0} {P : S → Type 0} {Q : A → S → Type 0} {R : S → Type 0}
    {m : Effect S A}
    → (C → Hoare P m Q R)
    → Hoare (λ s. P s × C) m Q R
given-Hoare f = record { holds = λ s p. (f p.1).holds s p.0 }

module _ {S : Type 0} {A : Type 0} (P : A → S → Type 0) (R : S → Type 0)
    (cleanup : Effect S (Unit {0})) where
  ended :
      (r : Result A × S)
      → Post P R r
      → ((a : A) (s : S) → P a s → P a (cleanup s).1)
      → ((s : S) → R s → R (cleanup s).1)
      → Post P R (r.0, (cleanup r.1).1)
  ended (ok a, s) h f g = f a s h
  ended (err e, s) h f g = g s h

-- A cleanup that keeps what holds at the end.
pub deferred-Hoare :
    {S : Type 0} {A : Type 0} {P : S → Type 0} {Q : A → S → Type 0} {R : S → Type 0}
    {m : Effect S A} (cleanup : Effect S (Unit {0}))
    → ((a : A) (s : S) → Q a s → Q a (cleanup s).1)
    → ((s : S) → R s → R (cleanup s).1)
    → Hoare P m Q R
    → Hoare P (deferred cleanup m) Q R
deferred-Hoare {Q = Q} {R = R} {m = m} cleanup f g h = record {
  holds = λ s p. ended Q R cleanup (m s) (h.holds s p) f g;
}

-- What holds of a run that answered.
pub answered :
    {S : Type 0} {A : Type 0} (Q : A → S → Type 0) (R : S → Type 0) (r : Result A × S) (a : A)
    → Post Q R r
    → r.0 ≡ ok a
    → Q a r.1
answered Q R (ok b, s) a h e = let q : b ≡ a = cc in subst (λ c. Q c s) q h
answered Q R (err x, s) a h e = absurd (ground arith)

-- An operation that keeps what held, where nothing is said of a failure.
pub passes :
    {S : Type 0} {A : Type 0} {P : S → Type 0} {m : Effect S A}
    → Keeps P m
    → Hoare P m (λ _. P) (λ _. Unit {0})
passes h = weaken-Hoare (λ a s p. p) (λ s p. tt) h
