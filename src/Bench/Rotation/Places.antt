-- ===== src/Bench/Rotation/Places.antt =====
-- The rotation of bench/'s drivers is fair to the variants' places in the order.
use native.Mathlib.Nat.{mod-lt, mod-add-mod, mod-eq_of_lt, mod-eq-sub-mod}
use zhtps.Common.{
  ◌⊎◌, ℕ, ◌+◌, ◌-◌, ◌%◌, ◌≤◌, ◌<◌, ◌≡◌, sym, ap, ◌∙◌, Bool-cases, inl, inr, List, length, ltb,
  ltb→lt, arith, ◌⊎◌,
}
use zhtps.Bench.Rotation.{get_elem?, rotate}
use zhtps.Bench.Rotation.Balance.{rotate-get_elem?}

-- The place after so many steps round a circle of n places.
round_lem :
    (n r j : ℕ)
    → r < n
    → j < n
    → ((r + j < n) × ((r + j) % n ≡ r + j)) ⊎ ((n ≤ r + j) × ((r + j) % n ≡ r + j - n))
round_lem n r j hr hj = elim (Bool-cases (ltb (r + j) n)) [
  | inl early ↦ let inside = ltb→lt (r + j) n early in inl (inside, mod-eq_of_lt inside)
  | inr late ↦
      let outside : n ≤ r + j = ground arith in
      inr (outside, mod-eq-sub-mod outside ∙ mod-eq_of_lt (omega arith))
]

-- One number of steps leads from a place to another.
steps_to : (n i j : ℕ) → i < n → j < n → (r : ℕ) × (r < n) × ((r + j) % n ≡ i)
steps_to n i j hi hj = elim (Bool-cases (ltb i j)) [
  | inl below ↦
      let behind : i < j = ltb→lt i j below in
      let r = i + n - j in
      let few : r < n = omega arith in
      (
        r,
        few,
        elim (round_lem n r j few hj) [
          | inl (inside, e) ↦ absurd (omega arith)
          | inr (outside, e) ↦ e ∙ omega arith
        ],
      )
  | inr above ↦
      let ahead : j ≤ i = ground arith in
      let few : i - j < n = omega arith in
      (
        i - j,
        few,
        elim (round_lem n (i - j) j few hj) [
          | inl (inside, e) ↦ e ∙ omega arith
          | inr (outside, e) ↦ absurd (omega arith)
        ],
      )
]

steps_unique : (n r s j : ℕ) → r < n → s < n → j < n → (r + j) % n ≡ (s + j) % n → r ≡ s
steps_unique n r s j hr hs hj h = elim (round_lem n r j hr hj) [
  | inl (a, e) ↦ elim (round_lem n s j hs hj) [
    | inl (b, d) ↦ let same : r + j ≡ s + j = sym e ∙ h ∙ d in omega arith
    | inr (b, d) ↦ let same : r + j ≡ s + j - n = sym e ∙ h ∙ d in omega arith
  ]
  | inr (a, e) ↦ elim (round_lem n s j hs hj) [
    | inl (b, d) ↦ let same : r + j - n ≡ s + j = sym e ∙ h ∙ d in omega arith
    | inr (b, d) ↦ let same : r + j - n ≡ s + j - n = sym e ∙ h ∙ d in omega arith
  ]
]

module _ {ℓ} {A : Type ℓ} where
  -- No variant stands at two places of the list.
  abbrev pub IsDistinct : List A → Type ℓ
  IsDistinct xs =
      (i k : ℕ) → i < length xs → k < length xs → get_elem? xs i ≡ get_elem? xs k → i ≡ k

  place_lem :
      (first r j : ℕ) (xs : List A)
      → j < length xs
      → get_elem? (rotate (first + r) xs) j
        ≡ get_elem? xs ((r + (first + j) % length xs) % length xs)
  place_lem first r j xs h =
      let n = length xs in
      let order : r + (first + j) % n ≡ (first + j) % n + r = omega arith in
      let whole : first + j + r ≡ first + r + j = omega arith in
      rotate-get_elem? (first + r) j xs h
      ∙ ap (get_elem? xs) (
          ap (λ m. m % n) (sym whole)
          ∙ sym (mod-add-mod (first + j) n r)
          ∙ ap (λ m. m % n) (sym order))

  -- If the variants are different, then in as many repeats in a row as there are variants, from any first
  -- one on, each variant stands at each place of the order in exactly one repeat.
  pub rotate-TakesOnce :
      (first i j : ℕ) (xs : List A)
      → IsDistinct xs
      → i < length xs
      → j < length xs
      → (r : ℕ) × (r < length xs)
        × (get_elem? (rotate (first + r) xs) j ≡ get_elem? xs i)
        × ((s : ℕ) → s < length xs → get_elem? (rotate (first + s) xs) j ≡ get_elem? xs i → s ≡ r)
  rotate-TakesOnce first i j xs distinct hi hj =
      let n = length xs in
      let place = (first + j) % n in
      let inside : place < n = mod-lt (first + j) (omega arith) in
      let (r, few, reached) = steps_to n i place hi inside in
      (
        r,
        few,
        place_lem first r j xs hj ∙ ap (get_elem? xs) reached,
        λ s hs same.
            let there : (s + place) % n ≡ i =
              distinct ((s + place) % n) i (mod-lt (s + place) (omega arith)) hi
                (sym (place_lem first s j xs hj) ∙ same) in
            steps_unique n s r place hs few inside (there ∙ sym reached),
      )
