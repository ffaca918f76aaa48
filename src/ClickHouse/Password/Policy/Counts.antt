-- ===== src/ClickHouse/Password/Policy/Counts.antt =====
-- Counting the elements of a list that pass a test, under `append`, index writes and swaps.
use bindings.Common.{
  ℕ, zero, suc, ◌+◌, ◌<◌, ◌≡◌, refl, ap, Bool, true, not, ◌&&◌, some, List, [], ◌∷◌, arith, push,
  length, get_elem?, set, if◌then◌else◌,
}

module _ {ℓ} {A : Type ℓ} where
  abbrev pub hit : (A → Bool) → A → ℕ
  hit p a = if p a then 1 else 0

  abbrev pub count : (A → Bool) → List A → ℕ
  count p [] = 0
  count p (x ∷ xs) = hit p x + count p xs

  pub hit-eq-one : (p : A → Bool) (a : A) → p a ≡ true → hit p a ≡ 1
  hit-eq-one p a e = rw e

  pub hit-eq-zero : (p : A → Bool) (a : A) → not (p a) ≡ true → hit p a ≡ 0
  hit-eq-zero p a e = ground arith

  abbrev pub all : (A → Bool) → List A → Bool
  all p [] = true
  all p (x ∷ xs) = p x && all p xs

  pub length-push : (xs : List A) (a : A) → length (push xs a) ≡ length xs + 1
  length-push [] a = omega arith
  length-push (x ∷ xs) a = omega (arith, length-push xs a)

  pub count-push : (p : A → Bool) (xs : List A) (a : A) → count p (push xs a) ≡ count p xs + hit p a
  count-push p [] a = omega arith
  count-push p (x ∷ xs) a = omega (arith, count-push p xs a)

  pub length-set : (xs : List A) (i : ℕ) (v : A) → length (set xs i v) ≡ length xs
  length-set [] i v = refl
  length-set (x ∷ xs) zero v = refl
  length-set (x ∷ xs) (suc i) v = ap suc (length-set xs i v)

  pub count-set :
      (p : A → Bool) (xs : List A) (i : ℕ) (v a : A)
      → get_elem? xs i ≡ some a
      → count p (set xs i v) + hit p a ≡ count p xs + hit p v
  count-set p [] i v a e = ground arith
  count-set p (x ∷ xs) zero v a e = ground arith
  count-set p (x ∷ xs) (suc i) v a e = omega (arith, count-set p xs i v a e)

  -- A write leaves an element that was the value written.
  pub get_elem?-set_same :
      (xs : List A) (i j : ℕ) (c : A) → get_elem? xs j ≡ some c → get_elem? (set xs i c) j ≡ some c
  get_elem?-set_same [] i j c e = e
  get_elem?-set_same (x ∷ xs) zero zero c e = refl
  get_elem?-set_same (x ∷ xs) zero (suc j) c e = e
  get_elem?-set_same (x ∷ xs) (suc i) zero c e = e
  get_elem?-set_same (x ∷ xs) (suc i) (suc j) c e = get_elem?-set_same xs i j c e

  -- Exchanging two elements changes no count.
  pub count-swap :
      (p : A → Bool) (xs : List A) (i j : ℕ) (a c : A)
      → get_elem? xs i ≡ some a
      → get_elem? xs j ≡ some c
      → count p (set (set xs i c) j a) ≡ count p xs
  count-swap p xs i j a c ea ec = omega (
    arith,
    count-set p (set xs i c) j a c (get_elem?-set_same xs i j c ec),
    count-set p xs i c a ea,
  )

  pub elem_in_range : (xs : List A) (i : ℕ) → i < length xs → (a : A) × (get_elem? xs i ≡ some a)
  elem_in_range [] i h = absurd (omega arith)
  elem_in_range (x ∷ xs) zero h = (x, refl)
  elem_in_range (x ∷ xs) (suc i) h = elem_in_range xs i (omega arith)

  pub all-get_elem? :
      (p : A → Bool) (xs : List A) (i : ℕ) (a : A)
      → all p xs ≡ true
      → get_elem? xs i ≡ some a
      → p a ≡ true
  all-get_elem? p [] i a h e = ground arith
  all-get_elem? p (x ∷ xs) zero a h e = ground arith
  all-get_elem? p (x ∷ xs) (suc i) a h e = all-get_elem? p xs i a (ground arith) e
