-- ===== src/Bench/Rotation.antt =====
-- The order of the trials in the drivers of bench/: in each repeat the variants are rotated by one more
-- place, `order = variants[repeat % n:] + variants[:repeat % n]`.
pub mod Balance
pub mod Places
use zhtps.Common.{ℕ, zero, suc, ◌+◌, ◌%◌, List, [], ◌∷◌, ◌++◌, Option, none, some, map, length}

module _ {ℓ} {A : Type ℓ} where
  abbrev pub take : ℕ → List A → List A
  take zero xs = []
  take (suc n) [] = []
  take (suc n) (x ∷ xs) = x ∷ take n xs

  abbrev pub drop : ℕ → List A → List A
  drop zero xs = xs
  drop (suc n) [] = []
  drop (suc n) (x ∷ xs) = drop n xs

  abbrev pub get_elem? : List A → ℕ → Option A
  get_elem? [] i = none
  get_elem? (x ∷ xs) zero = some x
  get_elem? (x ∷ xs) (suc i) = get_elem? xs i

  unfoldable pub rotate : ℕ → List A → List A
  rotate repeat xs = drop (repeat % length xs) xs ++ take (repeat % length xs) xs

module _ {ℓ κ} {A : Type ℓ} {B : Type κ} where
  -- A trial is a repeat, a setting and a variant. Within a repeat, each setting meets all the variants.
  abbrev pub settings_of : ℕ → List B → List A → List (ℕ × B × A)
  settings_of repeat [] order = []
  settings_of repeat (b ∷ bs) order = map (λ a. (repeat, b, a)) order ++ settings_of repeat bs order

  -- The trials of so many repeats, from one on.
  unfoldable pub trials : ℕ → ℕ → List B → List A → List (ℕ × B × A)
  trials zero repeat bs variants = []
  trials (suc n) repeat bs variants =
      settings_of repeat bs (rotate repeat variants) ++ trials n (suc repeat) bs variants
