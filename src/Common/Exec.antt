-- ===== src/Common/Exec.antt =====
-- Methods that change a state and may fail: the result, and the state that is left.
use mathlib.Core.Bool.{Bool, true, false}
use fluxlite.Common.Errors.{Result, ok, err}

abbrev pub Exec : Type 0 → Type 0 → Type 0 → Type 0
Exec S E A = S → Result E A × S

module _ {S E A : Type 0} where
  abbrev pub pure : A → Exec S E A
  pure a s = (ok a, s)

  abbrev pub raise : E → Exec S E A
  raise e s = (err e, s)

  -- A call that reads the state alone.
  abbrev pub reads : (S → Result E A) → Exec S E A
  reads f s = (f s, s)

  abbrev rollback : S → Result E A × S → Result E A × S
  rollback s (ok a, t) = (ok a, t)
  rollback s (err e, t) = (err e, s)

  -- `inTx`: what a failed transaction wrote is rolled back.
  abbrev pub in_tx : Exec S E A → Exec S E A
  in_tx m s = rollback s (m s)

module _ {S E A B : Type 0} where
  abbrev continue : (A → Exec S E B) → Result E A × S → Result E B × S
  continue f (ok a, t) = f a t
  continue f (err e, t) = (err e, t)

  infixl 5 ◌>>=◌ ◌>>◌
  abbrev pub ◌>>=◌ : Exec S E A → (A → Exec S E B) → Exec S E B
  ◌>>=◌ m f s = continue f (m s)

  abbrev pub ◌>>◌ : Exec S E A → Exec S E B → Exec S E B
  m >> k = m >>= λ _. k

module _ {S E : Type 0} where
  -- `if !b { return e }`
  abbrev pub guard : Bool → E → Exec S E (Unit {0})
  guard true e s = (ok tt, s)
  guard false e s = (err e, s)

-- What each call keeps, a sequence and a transaction keep.
module _ {κ} {S E : Type 0} (P : S → Type κ) where
  pub keeps-bind :
      {A B : Type 0} (m : Exec S E A) (k : A → Exec S E B) (s : S)
      → P (m s).1
      → ((a : A) (t : S) → P t → P (k a t).1)
      → P ((m >>= k) s).1
  keeps-bind {A} {B} m k s h next = go (m s) h
    where
      go : (r : Result E A × S) → P r.1 → P (continue k r).1
      go (ok a, t) h = next a t h
      go (err e, t) h = h

  pub keeps-in_tx : {A : Type 0} (m : Exec S E A) (s : S) → P s → P (m s).1 → P (in_tx m s).1
  keeps-in_tx {A} m s h0 h = go (m s) h
    where
      go : (r : Result E A × S) → P r.1 → P (rollback s r).1
      go (ok a, t) h = h
      go (err e, t) h = h0
