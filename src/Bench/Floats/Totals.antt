-- ===== src/Bench/Floats/Totals.antt =====
-- The statistics over floats are there for lists that are not empty.
use zhtps.Common.{
  ℕ, zero, suc, ◌+◌, ◌-◌, ◌/◌, ◌%◌, ◌<◌, ◌≡◌, refl, Bool-cases, inl, inr, List, [], ◌∷◌, length,
  ◌==◌, ok, arith,
}
use zhtps.Bench.Floats.{Floats, number, insert, sorted, at, middle, median}

module _ (N : Floats) where
  open N use {F}

  length-insert : (x : F) (ys : List F) → length (insert N x ys) ≡ suc (length ys)
  unfolding insert
  length-insert x [] = refl
  length-insert x (y ∷ ys) = elim (Bool-cases (N.is_below x y)) [
    | inl before ↦ rw before
    | inr later ↦ rw (later, length-insert x ys)
  ]

  length-sorted : (done xs : List F) → length (sorted N done xs) ≡ length done + length xs
  unfolding sorted
  length-sorted done [] = omega arith
  length-sorted done (x ∷ xs) =
      omega (arith, length-sorted (insert N x done) xs, length-insert x done)

  at_total : (n : ℕ) (xs : List F) → n < length xs → (y : F) × (at N n xs ≡ ok y)
  at_total n [] h = absurd (omega arith)
  at_total zero (x ∷ xs) h = (x, refl)
  at_total (suc n) (x ∷ xs) h = at_total n xs (omega arith)

  middle_total : (n : ℕ) (xs : List F) → 0 < n → length xs ≡ n → (y : F) × (middle N n xs ≡ ok y)
  middle_total n xs some_there counted = elim (Bool-cases (n % 2 == 1)) [
    | inl odd ↦ let (y, found) = at_total (n / 2) xs (omega arith) in (y, rw odd found)
    | inr even ↦
        let (a, first) = at_total (n / 2 - 1) xs (omega arith) in
        let (b, second) = at_total (n / 2) xs (omega arith) in
        (N.over (N.plus a b) (number N 2), rw (even, first, second) refl)
  ]

  pub median_total : (x : F) (xs : List F) → (y : F) × (median N (x ∷ xs) ≡ ok y)
  unfolding median
  median_total x xs =
      middle_total (suc (length xs)) (sorted N [] (x ∷ xs)) (omega arith)
        (omega (arith, length-sorted [] (x ∷ xs)))
