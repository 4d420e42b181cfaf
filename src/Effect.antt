-- ===== src/Effect.antt =====
-- Operations that change a state and may fail, where one that fails keeps what it changed before:
-- what the services of internal/storage and internal/invitation are made of.
pub mod Hoare
use prappser_spaces.Base.{Option, none, some}
use prappser_spaces.Result.{Result, ok, err, Error}

abbrev pub Effect : Type 0 → Type 0 → Type 0
Effect S A = S → Result A × S

module _ {S : Type 0} where
  abbrev pub after : {A B : Type 0} → Result A × S → (A → Effect S B) → Result B × S
  after (err e, s) f = (err e, s)
  after (ok a, s) f = f a s

  infixl 5 ◌>>=◌ ◌>>◌
  abbrev pub ◌>>=◌ : {A B : Type 0} → Effect S A → (A → Effect S B) → Effect S B
  m >>= f = λ s. after (m s) f

  abbrev pub ◌>>◌ : {B : Type 0} → Effect S (Unit {0}) → Effect S B → Effect S B
  m >> k = m >>= λ _. k

  abbrev pub give : {A : Type 0} → A → Effect S A
  give a s = (ok a, s)

  abbrev pub lift : {A : Type 0} → Result A → Effect S A
  lift r s = (r, s)

  -- A call whose error is dealt with by the caller, and one whose error is not looked at.
  abbrev pub caught : {A : Type 0} → Effect S A → Effect S (Result A)
  caught m s = (ok (m s).0, (m s).1)

  abbrev pub ignored : {A : Type 0} → Effect S A → Effect S (Unit {0})
  ignored m s = (ok tt, (m s).1)

  -- `defer cleanup`
  abbrev pub deferred : {A : Type 0} → Effect S (Unit {0}) → Effect S A → Effect S A
  deferred cleanup m s = ((m s).0, (cleanup (m s).1).1)
