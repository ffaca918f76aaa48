-- ===== src/ClickHouse/Password/Policy.antt =====
-- Every generated password has 24 characters, six of each class, whatever the draws.
pub mod Counts
use Prim.Native.Char.{Char, code}
use native.Mathlib.Nat.{le_refl}
use bindings.Common.{
  ℕ, zero, suc, ◌+◌, ◌-◌, ◌≤◌, ◌<◌, String, ◌≡◌, refl, sym, ◌∙◌, Bool, true, false, not, ◌||◌,
  Option, none, some, List, [], ◌∷◌, arith, push, length, get_elem?, set, ◌=?◌,
}
use bindings.Exec.{Result, ok, err, lift, ◌>>=◌, pure}
use bindings.ClickHouse.Password.{
  Random, draw, chars, to_text, lower, upper, digits, special, or_panic, exchanged, swap, pick,
  pick_classes, shuffle, generate_password,
}
use Counts.{
  hit-eq-one, hit-eq-zero, count, all, length-push, length-set, count-push, count-swap,
  elem_in_range, all-get_elem?,
}

-- `rand.Int` gives a number below its bound, and does not fail.
abbrev pub DrawsBelow : Random → Type 0
DrawsBelow random = (k n : ℕ) → 0 < n → (i : ℕ) × (random k n ≡ ok i) × (i < n)

abbrev pub is_in : List Char → Char → Bool
is_in [] c = false
is_in (d ∷ class) c = (code d =? code c) || is_in class c

module _ (random : Random) (draws : DrawsBelow random) where
  abbrev Picked : ℕ → List Char → List Char → Result (List Char) × ℕ → Type 0
  Picked n class password (ok picked, k) =
      (length picked ≡ length password + n)
      × ((p : Char → Bool) → all p class ≡ true → count p picked ≡ count p password + n)
      × ((p : Char → Bool) → all (λ c. not (p c)) class ≡ true → count p picked ≡ count p password)
  Picked n class password (err _, k) = ⊥

  Picked-suc :
      (n i : ℕ) (class password : List Char) (c : Char) (out : Result (List Char) × ℕ)
      → get_elem? class i ≡ some c
      → Picked n class (push password c) out
      → Picked (suc n) class password out
  Picked-suc n i class password c (ok picked, k) found (len, hits, misses) = (
    omega (arith, length-push password c),
    λ p e. omega (
      arith,
      hits p e,
      count-push p password c,
      hit-eq-one p c (all-get_elem? p class i c e found),
    ),
    λ p e. omega (
      arith,
      misses p e,
      count-push p password c,
      hit-eq-zero p c (all-get_elem? (λ d. not (p d)) class i c e found),
    ),
  )
  Picked-suc n i class password c (err _, k) found h = h

  pick-Picked :
      (n : ℕ) (class password : List Char) (k : ℕ)
      → 0 < length class
      → Picked n class password (pick random n class password k)
  unfolding pick draw
  pick-Picked zero class password k h = (omega arith, λ p e. omega arith, λ p e. refl)
  pick-Picked (suc n) class password k h =
      let (i, drawn, below) = draws k (length class) h in
      let (c, found) = elem_in_range class i below in
      rw drawn (
        rw found (
          Picked-suc n i class password c _ found
            (pick-Picked n class (push password c) (suc k) h)))

  -- A permutation, as far as lengths and counts can tell.
  abbrev Shuffled : List Char → Result (List Char) × ℕ → Type 0
  Shuffled password (ok shuffled, k) =
      (length shuffled ≡ length password)
      × ((p : Char → Bool) → count p shuffled ≡ count p password)
  Shuffled password (err _, k) = ⊥

  Shuffled-swap :
      (password : List Char) (i j : ℕ) (a c : Char) (out : Result (List Char) × ℕ)
      → get_elem? password i ≡ some a
      → get_elem? password j ≡ some c
      → Shuffled (set (set password i c) j a) out
      → Shuffled password out
  Shuffled-swap password i j a c (ok shuffled, k) ea ec (len, same) = (
    len ∙ length-set (set password i c) j a ∙ length-set password i c,
    λ p. same p ∙ count-swap p password i j a c ea ec,
  )
  Shuffled-swap password i j a c (err _, k) ea ec h = h

  shuffle-Shuffled :
      (n : ℕ) (password : List Char) (k : ℕ)
      → n ≤ length password - 1
      → Shuffled password (shuffle random n password k)
  unfolding shuffle draw
  shuffle-Shuffled zero password k h = (refl, λ p. refl)
  shuffle-Shuffled (suc i) password k h =
      let (j, drawn, below) = draws k (suc (suc i)) (omega arith) in
      let (a, at_i) = elem_in_range password (suc i) (omega arith) in
      let (c, at_j) = elem_in_range password j (omega arith) in
      let ih =
        shuffle-Shuffled i (set (set password (suc i) c) j a) (suc k)
          (omega (arith, length-set (set password (suc i) c) j a, length-set password (suc i) c)) in
      rw drawn (rw at_i (rw at_j (Shuffled-swap password (suc i) j a c _ at_i at_j ih)))

  -- Six characters of one class were appended: those that pass a test of the class are six more,
  -- and those that pass a test that no character of the class passes are as many as before.
  pick_six :
      (class password : List Char) (k : ℕ)
      → 0 < length class
      → (picked : List Char) × (k' : ℕ) × (pick random 6 class password k ≡ (ok picked, k'))
        × Picked 6 class password (ok picked, k')
  pick_six class password k h =
      returned (pick random 6 class password k) refl (pick-Picked 6 class password k h)
    where
      returned :
          (out : Result (List Char) × ℕ)
          → pick random 6 class password k ≡ out
          → Picked 6 class password out
          → (picked : List Char) × (k' : ℕ) × (pick random 6 class password k ≡ (ok picked, k'))
            × Picked 6 class password (ok picked, k')
      returned (ok picked, k') e p = (picked, k', e, p)
      returned (err _, k') e p = absurd p

  shuffle_returns :
      (n : ℕ) (password : List Char) (k : ℕ)
      → n ≤ length password - 1
      → (shuffled : List Char) × (k' : ℕ) × (shuffle random n password k ≡ (ok shuffled, k'))
        × Shuffled password (ok shuffled, k')
  shuffle_returns n password k h =
      returned (shuffle random n password k) refl (shuffle-Shuffled n password k h)
    where
      returned :
          (out : Result (List Char) × ℕ)
          → shuffle random n password k ≡ out
          → Shuffled password out
          → (shuffled : List Char) × (k' : ℕ) × (shuffle random n password k ≡ (ok shuffled, k'))
            × Shuffled password (ok shuffled, k')
      returned (ok shuffled, k') e p = (shuffled, k', e, p)
      returned (err _, k') e p = absurd p

-- If `rand.Int` succeeds and stays below its bound, a password is generated, no index being out
-- of range; it has 24 characters, and exactly six of each of the four classes.
pub generate_password_policy :
    (random : Random)
    → DrawsBelow random
    → (k : ℕ)
    → (password : List Char) × (k' : ℕ) × (generate_password random k ≡ (ok (to_text password), k'))
      × (length password ≡ 24)
      × (count (is_in lower) password ≡ 6)
      × (count (is_in upper) password ≡ 6)
      × (count (is_in digits) password ≡ 6)
      × (count (is_in special) password ≡ 6)
unfolding generate_password pick_classes
generate_password_policy random draws k =
    let (p1, k1, e1, s1) = pick_six random draws lower [] k (omega arith) in
    let (p2, k2, e2, s2) = pick_six random draws upper p1 k1 (omega arith) in
    let (p3, k3, e3, s3) = pick_six random draws digits p2 k2 (omega arith) in
    let (p4, k4, e4, s4) = pick_six random draws special p3 k3 (omega arith) in
    let (p5, k5, e5, s5) = shuffle_returns random draws (length p4 - 1) p4 k4 (le_refl _) in
    (
      p5,
      k5,
      rw e1 (rw e2 (rw e3 (rw e4 (rw e5)))),
      omega (arith, s1.0, s2.0, s3.0, s4.0, s5.0),
      omega (
        arith,
        s5.1 (is_in lower),
        s1.1 (is_in lower) refl,
        s2.2 (is_in lower) refl,
        s3.2 (is_in lower) refl,
        s4.2 (is_in lower) refl,
      ),
      omega (
        arith,
        s5.1 (is_in upper),
        s1.2 (is_in upper) refl,
        s2.1 (is_in upper) refl,
        s3.2 (is_in upper) refl,
        s4.2 (is_in upper) refl,
      ),
      omega (
        arith,
        s5.1 (is_in digits),
        s1.2 (is_in digits) refl,
        s2.2 (is_in digits) refl,
        s3.1 (is_in digits) refl,
        s4.2 (is_in digits) refl,
      ),
      omega (
        arith,
        s5.1 (is_in special),
        s1.2 (is_in special) refl,
        s2.2 (is_in special) refl,
        s3.2 (is_in special) refl,
        s4.1 (is_in special) refl,
      ),
    )
