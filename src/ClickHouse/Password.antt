-- ===== src/ClickHouse/Password.antt =====
-- generateClickhousePassword of clickhouse/clickhouse_binding.go.
pub mod Policy
use Prim.Native.Char.{Char}
use Prim.Native.String
use bindings.Common.{
  ℕ, zero, suc, ◌-◌, String, Option, none, some, List, [], ◌∷◌, push, length, get_elem?, set,
}
use bindings.Exec.{GoError, message, Result, ok, err, Exec, pure, lift, ◌>>=◌}

-- `rand.Int(rand.Reader, n)`: what the k-th draw below n gives.
abbrev pub Random : Type 0
Random = ℕ → ℕ → Result ℕ

-- The state is the number of draws so far.
unfoldable pub draw : Random → ℕ → Exec ℕ ℕ
draw random n k = (random k n, suc k)

abbrev pub chars : String → List Char
chars String.[] = []
chars (String.◌∷◌ c s) = c ∷ chars s

-- string(password)
abbrev pub to_text : List Char → String
to_text [] = String.[]
to_text (c ∷ cs) = String.◌∷◌ c (to_text cs)

abbrev pub lower : List Char
lower = chars "abcdefghijkmnopqrstuvwxyz"

abbrev pub upper : List Char
upper = chars "ABCDEFGHJKLMNPQRSTUVWXYZ"

abbrev pub digits : List Char
digits = chars "23456789"

abbrev pub special : List Char
special = chars "~-._"

-- An index expression: Go panics out of range.
abbrev pub or_panic {ℓ} : {A : Type ℓ} → Option A → Result A
or_panic none = err (message "panic: index out of range")
or_panic (some a) = ok a

abbrev pub exchanged : ℕ → ℕ → List Char → Option Char → Option Char → Result (List Char)
exchanged i j password (some a) (some c) = ok (set (set password i c) j a)
exchanged i j password _ _ = err (message "panic: index out of range")

-- `password[i], password[j] = password[j], password[i]`
abbrev pub swap : ℕ → ℕ → List Char → Result (List Char)
swap i j password = exchanged i j password (get_elem? password i) (get_elem? password j)

module _ (random : Random) where
  -- `for range n { password = append(password, class[idx]) }`
  unfoldable pub pick : ℕ → List Char → List Char → Exec ℕ (List Char)
  pick zero class password = pure password
  pick (suc n) class password = do
    idx ← draw random (length class)
    c ← lift (or_panic (get_elem? class idx))
    pick n class (push password c)

  unfoldable pub pick_classes : List (List Char) → List Char → Exec ℕ (List Char)
  pick_classes [] password = pure password
  pick_classes (class ∷ classes) password = do
    picked ← pick 6 class password
    pick_classes classes picked

  -- `for i := n; i > 0; i--`
  unfoldable pub shuffle : ℕ → List Char → Exec ℕ (List Char)
  shuffle zero password = pure password
  shuffle (suc i) password = do
    j ← draw random (suc (suc i))
    swapped ← lift (swap (suc i) j password)
    shuffle i swapped

  unfoldable pub generate_password : Exec ℕ String
  generate_password = do
    password ← pick_classes (lower ∷ upper ∷ digits ∷ special ∷ []) []
    shuffled ← shuffle (length password - 1) password
    pure (to_text shuffled)
