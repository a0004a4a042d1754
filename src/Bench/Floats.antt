-- ===== src/Bench/Floats.antt =====
-- The arithmetic of Python's floats, which the tools of bench/ compute with, as a parameter.
pub mod Thousandths
pub mod Totals
use zhtps.Common.{
  ℕ, zero, suc, ◌-◌, ◌/◌, ◌%◌, length, index_error, ◌>>=◌, Bool, String, List, [], ◌∷◌, ◌||◌, ◌==◌,
  if◌then◌else◌, Result, ok, err, zero_division_error, value_error, ℤ, pos, negsuc,
}

-- A decimal literal is a numerator and a denominator.
pub record Floats : Type 1 where
  pub F : Type 0
  pub literal : ℕ → ℕ → F
  pub plus : F → F → F
  pub minus : F → F → F
  pub times : F → F → F
  pub over : F → F → F
  pub is_below : F → F → Bool
  pub is_zero : F → Bool
  pub is_finite : F → Bool
  pub truncate : F → ℤ
  pub show : F → String

module _ (N : Floats) where
  open N use {F, literal, plus, minus, over, is_below, is_zero}

  abbrev pub number : ℕ → F
  number n = literal n 1

  abbrev pub integer : ℤ → F
  integer (pos n) = number n
  integer (negsuc n) = minus (number 0) (number (suc n))

  -- `a / b` of floats
  abbrev pub divide : F → F → Result F
  divide a b = if is_zero b then err (zero_division_error "division by zero") else ok (over a b)

  -- `a / n` of natural numbers
  abbrev pub ratio : ℕ → ℕ → Result F
  ratio a n =
      if n == 0
      then err (zero_division_error "division by zero")
      else ok (over (number a) (number n))

  abbrev pub minimum_from : F → List F → F
  minimum_from best [] = best
  minimum_from best (x ∷ xs) = minimum_from (if is_below x best then x else best) xs

  -- `min(xs)`
  abbrev pub minimum : List F → Result F
  minimum [] = err (value_error "min() iterable argument is empty")
  minimum (x ∷ xs) = ok (minimum_from x xs)

  abbrev pub maximum_from : F → List F → F
  maximum_from best [] = best
  maximum_from best (x ∷ xs) = maximum_from (if is_below best x then x else best) xs

  -- `max(xs)`
  abbrev pub maximum : List F → Result F
  maximum [] = err (value_error "max() iterable argument is empty")
  maximum (x ∷ xs) = ok (maximum_from x xs)

  unfoldable pub insert : F → List F → List F
  insert x [] = x ∷ []
  insert x (y ∷ ys) = let later = insert x ys in if is_below x y then x ∷ y ∷ ys else y ∷ later

  -- `sorted(xs)`
  unfoldable pub sorted : List F → List F → List F
  unfolding insert
  sorted done [] = done
  sorted done (x ∷ xs) = sorted (insert x done) xs

  abbrev pub at : ℕ → List F → Result F
  at n [] = err (index_error "list index out of range")
  at zero (x ∷ xs) = ok x
  at (suc n) (x ∷ xs) = at n xs

  abbrev pub middle : ℕ → List F → Result F
  middle n xs =
      let between : Result F = (do
        a ← at (n / 2 - 1) xs
        b ← at (n / 2) xs
        ok (over (plus a b) (number 2))) in
      if n % 2 == 1 then at (n / 2) xs else between

  -- `statistics.median(xs)`; its StatisticsError is a ValueError.
  unfoldable pub median : List F → Result F
  unfolding sorted
  median [] = err (value_error "no median for empty data")
  median (x ∷ xs) = middle (length (x ∷ xs)) (sorted [] (x ∷ xs))
