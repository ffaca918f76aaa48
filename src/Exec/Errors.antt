-- ===== src/Exec/Errors.antt =====
-- Error values, `fmt.Errorf` with `%w`, and the tests `errors.As` and `errors.Is`.
use bindings.Common.{
  refl, inr, inl, ◌⊎◌, ◌≡◌, ℕ, String, Bool, true, false, Option, none, some, ◌=?◌,
}

-- `vendor` is a driver's or an API's own error with its numeric code (`network.OracleError`,
-- `mongo.CommandError`, `atlasAPIError`); `no_rows` is `sql.ErrNoRows`; `wrap` is `%w`.
pub data GoError : Type 0 where
  message : String → GoError
  vendor : ℕ → String → GoError
  no_rows : GoError
  wrap : String → GoError → GoError
  joined : GoError → GoError → GoError

abbrev first_of_two {ℓ} : {A : Type ℓ} → Option A → Option A → Option A
first_of_two none b = b
first_of_two (some a) b = some a

-- The code of the first vendor error that `errors.As` finds in the tree.
unfoldable pub vendor_code : GoError → Option ℕ
vendor_code (message _) = none
vendor_code (vendor code _) = some code
vendor_code no_rows = none
vendor_code (wrap _ e) = vendor_code e
vendor_code (joined a b) = first_of_two (vendor_code a) (vendor_code b)

unfoldable pub has_code : GoError → ℕ → Bool
has_code e code = elim (vendor_code e) [ none ↦ false | some found ↦ found =? code ]

-- errors.Is(err, sql.ErrNoRows)
unfoldable pub is_no_rows : GoError → Bool
is_no_rows (message _) = false
is_no_rows (vendor _ _) = false
is_no_rows no_rows = true
is_no_rows (wrap _ e) = is_no_rows e
is_no_rows (joined a b) = elim (is_no_rows a) [ true ↦ true | false ↦ is_no_rows b ]

pub data Result {ℓ} (A : Type ℓ) : Type ℓ where
  ok : A → Result A
  err : GoError → Result A

abbrev pub wrap_err {ℓ} : {A : Type ℓ} → String → Result A → Result A
wrap_err text (ok a) = ok a
wrap_err text (err e) = err (wrap text e)

-- A chain of calls that return `(value, error)` and change no state.
infixl 5 ◌>>-◌
abbrev pub ◌>>-◌ {ℓ κ} : {A : Type ℓ} {B : Type κ} → Result A → (A → Result B) → Result B
ok a >>- f = f a
err e >>- f = err e

pub >>--eq-ok {ℓ κ} :
    {A : Type ℓ} {B : Type κ} (r : Result A) (f : A → Result B) {b : B}
    → (r >>- f) ≡ ok b
    → (a : A) × (r ≡ ok a) × (f a ≡ ok b)
>>--eq-ok (ok a) f e = (a, refl, e)
>>--eq-ok (err _) f e = cc

abbrev pub is_ok {ℓ} : {A : Type ℓ} → Result A → Bool
is_ok (ok _) = true
is_ok (err _) = false

pub Result-cases {ℓ} :
    {A : Type ℓ} (r : Result A) → ((a : A) × (r ≡ ok a)) ⊎ ((e : GoError) × (r ≡ err e))
Result-cases (ok a) = inl (a, refl)
Result-cases (err e) = inr (e, refl)
