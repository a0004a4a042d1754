-- ===== src/Bench/Rotation/Balance.antt =====
-- The rotation of bench/'s drivers is fair to each variant's number of trials.
use native.Mathlib.Nat.{mod-lt, mod-add-mod, mod-eq_of_lt, mod-eq-sub-mod}
use zhtps.Common.{
  ℕ, zero, suc, ◌+◌, ◌-◌, ◌*◌, ◌%◌, ◌≤◌, ◌<◌, ◌≡◌, refl, sym, ap, ◌∙◌, Bool, Bool-cases, inl, inr,
  ◌&&◌, List, [], ◌∷◌, ◌++◌, map, length, if◌then◌else◌, ltb, ltb→lt, arith,
}
use zhtps.Bench.Rotation.{take, drop, get_elem?, rotate, settings_of, trials}

module _ {ℓ} {A : Type ℓ} where
  abbrev pub count : (A → Bool) → List A → ℕ
  count p [] = 0
  count p (x ∷ xs) = (if p x then 1 else 0) + count p xs

  pub count-append : (p : A → Bool) (xs ys : List A) → count p (xs ++ ys) ≡ count p xs + count p ys
  count-append p [] ys = omega arith
  count-append p (x ∷ xs) ys = omega (arith, count-append p xs ys)

  take-drop : (n : ℕ) (xs : List A) → take n xs ++ drop n xs ≡ xs
  take-drop zero xs = refl
  take-drop (suc n) [] = refl
  take-drop (suc n) (x ∷ xs) = rw (take-drop n xs)

  pub rotate-count :
      (p : A → Bool) (repeat : ℕ) (xs : List A) → count p (rotate repeat xs) ≡ count p xs
  unfolding rotate
  rotate-count p repeat xs =
      let k = repeat % length xs in
      let split = count-append p (take k xs) (drop k xs) in
      let whole = ap (count p) (take-drop k xs) in
      omega (arith, count-append p (drop k xs) (take k xs), split, whole)

  get-drop : (k j : ℕ) (xs : List A) → get_elem? (drop k xs) j ≡ get_elem? xs (k + j)
  get-drop zero j xs = let same : 0 + j ≡ j = omega arith in rw same
  get-drop (suc k) j [] = refl
  get-drop (suc k) j (x ∷ xs) =
      let same : suc k + j ≡ suc (k + j) = omega arith in rw same (get-drop k j xs)

  get-append-left :
      (xs ys : List A) (j : ℕ) → j < length xs → get_elem? (xs ++ ys) j ≡ get_elem? xs j
  get-append-left [] ys j h = absurd (omega arith)
  get-append-left (x ∷ xs) ys zero h = refl
  get-append-left (x ∷ xs) ys (suc j) h = get-append-left xs ys j (omega arith)

  get-append-right :
      (xs ys : List A) (j : ℕ)
      → length xs ≤ j
      → get_elem? (xs ++ ys) j ≡ get_elem? ys (j - length xs)
  get-append-right [] ys j h = let same : j - 0 ≡ j = omega arith in rw same
  get-append-right (x ∷ xs) ys zero h = absurd (omega arith)
  get-append-right (x ∷ xs) ys (suc j) h =
      let same : suc j - suc (length xs) ≡ j - length xs = omega arith in
      rw same (get-append-right xs ys j (omega arith))

  get-take : (k j : ℕ) (xs : List A) → j < k → get_elem? (take k xs) j ≡ get_elem? xs j
  get-take zero j xs h = absurd (omega arith)
  get-take (suc k) j [] h = refl
  get-take (suc k) zero (x ∷ xs) h = refl
  get-take (suc k) (suc j) (x ∷ xs) h = get-take k j xs (omega arith)

  length-drop : (k : ℕ) (xs : List A) → length (drop k xs) ≡ length xs - k
  length-drop zero xs = omega arith
  length-drop (suc k) [] = omega arith
  length-drop (suc k) (x ∷ xs) = omega (arith, length-drop k xs)

  -- Before the rotation, what is at a place of the order was so many places further, round its end.
  pub rotate-get_elem? :
      (repeat j : ℕ) (xs : List A)
      → j < length xs
      → get_elem? (rotate repeat xs) j ≡ get_elem? xs ((repeat + j) % length xs)
  unfolding rotate
  rotate-get_elem? repeat j xs h =
      let n = length xs in
      let k = repeat % n in
      let below : k < n = mod-lt repeat (omega arith) in
      let moved : (repeat + j) % n ≡ (k + j) % n = sym (mod-add-mod repeat n j) in
      let rest : length (drop k xs) ≡ n - k = length-drop k xs in
      elim (Bool-cases (ltb (k + j) n)) [
        | inl early ↦
            let inside : k + j < n = ltb→lt (k + j) n early in
            get-append-left (drop k xs) (take k xs) j (omega arith)
            ∙ get-drop k j xs
            ∙ ap (get_elem? xs) (sym (moved ∙ mod-eq_of_lt inside))
        | inr late ↦
            let outside : n ≤ k + j = ground arith in
            let wraps : (k + j) % n ≡ k + j - n =
              mod-eq-sub-mod outside ∙ mod-eq_of_lt (omega arith) in
            let place : j - length (drop k xs) ≡ k + j - n = omega arith in
            get-append-right (drop k xs) (take k xs) j (omega arith)
            ∙ get-take k (j - length (drop k xs)) xs (omega arith)
            ∙ ap (get_elem? xs) (place ∙ sym (moved ∙ wraps))
      ]

module _ {ℓ κ} {A : Type ℓ} {B : Type κ} (pb : B → Bool) (pa : A → Bool) where
  -- The trials of a setting and a variant.
  abbrev pub is_of : ℕ × B × A → Bool
  is_of (_, b, a) = pb b && pa a

  count-map :
      (repeat : ℕ) (b : B) (order : List A)
      → count is_of (map (λ a. (repeat, b, a)) order) ≡ (if pb b then count pa order else 0)
  count-map repeat b [] = ground arith
  count-map repeat b (a ∷ order) = ground (arith, count-map repeat b order)

  settings_of-count :
      (repeat : ℕ) (bs : List B) (order : List A)
      → count is_of (settings_of repeat bs order) ≡ count pb bs * count pa order
  settings_of-count repeat [] order = omega arith
  settings_of-count repeat (b ∷ bs) order =
      let split =
        count-append is_of (map (λ a. (repeat, b, a)) order) (settings_of repeat bs order) in
      grind (arith, count-map repeat b order, settings_of-count repeat bs order, split)

  -- Among the trials, those of a setting and a variant are as many in each repeat as the setting and
  -- the variant are given times.
  pub trials-count :
      (n repeat : ℕ) (bs : List B) (variants : List A)
      → count is_of (trials n repeat bs variants) ≡ n * (count pb bs * count pa variants)
  unfolding trials
  trials-count zero repeat bs variants = omega arith
  trials-count (suc n) repeat bs variants =
      let split =
        count-append is_of (settings_of repeat bs (rotate repeat variants))
          (trials n (suc repeat) bs variants) in
      let fair = ap (λ (t : ℕ). count pb bs * t) (rotate-count pa repeat variants) in
      let here = settings_of-count repeat bs (rotate repeat variants) in
      let later = trials-count n (suc repeat) bs variants in grind arith
