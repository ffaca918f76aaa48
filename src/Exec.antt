-- ===== src/Exec.antt =====
-- Go errors, and functions that return `(value, error)` after a change of state.
mod Errors
unfoldable pub use Errors.*
use bindings.Common.{String, Option, none, some}

-- What was done before an error stays done, so the state comes back beside the error too.
abbrev pub Exec {ℓ} : Type ℓ → Type ℓ → Type ℓ
Exec S A = S → Result A × S

module _ {ℓ} {S A : Type ℓ} where
  abbrev pub pure : A → Exec S A
  pure a s = (ok a, s)

  abbrev pub fail : GoError → Exec S A
  fail e s = (err e, s)

  abbrev pub lift : Result A → Exec S A
  lift r s = (r, s)

  -- `if err != nil { return fmt.Errorf("<text>: %w", err) }`
  abbrev pub describe : String → Exec S A → Exec S A
  describe text m s = let (r, s') = m s in (wrap_err text r, s')

module _ {ℓ} {S A B : Type ℓ} where
  abbrev pub continue : Result A → (A → Exec S B) → Exec S B
  continue (ok a) f s = f a s
  continue (err e) f s = (err e, s)

  infixl 10 ◌>>=◌ ◌>>◌
  abbrev pub ◌>>=◌ : Exec S A → (A → Exec S B) → Exec S B
  ◌>>=◌ m f s = let (r, s') = m s in continue r f s'

  abbrev pub ◌>>◌ : Exec S A → Exec S B → Exec S B
  m >> n = m >>= λ _. n

-- The value of a function that returns only an error.
abbrev pub Done : Type 0
Done = Unit

-- An `error` return with no value.
abbrev pub check {ℓ} : {S : Type ℓ} → Option GoError → Exec S (Unit {ℓ})
check none s = (ok tt, s)
check (some e) s = (err e, s)

-- A call's error as its result.
abbrev pub answered {ℓ} : Option GoError → Result (Unit {ℓ})
answered none = ok tt
answered (some e) = err e
