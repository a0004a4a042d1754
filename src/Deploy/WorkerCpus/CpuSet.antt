-- ===== src/Deploy/WorkerCpus/CpuSet.antt =====
-- Python's sets of CPU numbers, as ascending lists without repetition. `sorted` gives the list itself.
use zhtps.Common.{
  ap, ==_iff, ℕ, suc, ◌≡◌, refl, Bool, true, false, not, ◌&&◌, ◌||◌, List, [], ◌∷◌, ◌==◌, ltb,
  if◌then◌else◌, arith, leb, ◌+◌, Bool-cases, inl, inr,
}

abbrev pub member : ℕ → List ℕ → Bool
member c [] = false
member c (x ∷ xs) = c == x || member c xs

abbrev pub insert : ℕ → List ℕ → List ℕ
insert c [] = c ∷ []
insert c (x ∷ xs) =
    let rest = insert c xs in if ltb c x then c ∷ x ∷ xs else if c == x then x ∷ xs else x ∷ rest

-- `a | b`, and `a.update(b)`
unfoldable pub union : List ℕ → List ℕ → List ℕ
union [] b = b
union (x ∷ a) b = insert x (union a b)

abbrev keep_if : Bool → ℕ → List ℕ → List ℕ
keep_if true x xs = x ∷ xs
keep_if false x xs = xs

unfoldable pub filter_by : (ℕ → Bool) → List ℕ → List ℕ
filter_by p [] = []
filter_by p (x ∷ xs) = keep_if (p x) x (filter_by p xs)

-- `a & b` and `a - b`
abbrev pub intersection : List ℕ → List ℕ → List ℕ
intersection a b = filter_by (λ x. member x b) a

abbrev pub difference : List ℕ → List ℕ → List ℕ
difference a b = filter_by (λ x. not (member x b)) a

-- `cpus.update(range(lo, lo + n))`
unfoldable pub add_range : ℕ → ℕ → List ℕ → List ℕ
add_range lo ℕ.zero s = s
add_range lo (suc n) s = insert lo (add_range (suc lo) n s)

pub member-insert : (c x : ℕ) (xs : List ℕ) → member c (insert x xs) ≡ (c == x || member c xs)
member-insert c x [] = refl
member-insert c x (y ∷ ys) = ground (arith, member-insert c x ys)

pub member-union : (c : ℕ) (a b : List ℕ) → member c (union a b) ≡ (member c a || member c b)
unfolding union
member-union c [] b = refl
member-union c (x ∷ a) b = ground (arith, member-insert c x (union a b), member-union c a b)

pub member-filter_by :
    (p : ℕ → Bool) (c : ℕ) (xs : List ℕ) → member c (filter_by p xs) ≡ (p c && member c xs)
unfolding filter_by
member-filter_by p c [] = ground arith
member-filter_by p c (x ∷ xs) = elim (Bool-cases (c == x)) [
  | inl same ↦ ground (arith, ap p ((==_iff c x).0 same), member-filter_by p c xs)
  | inr other ↦ ground (arith, member-filter_by p c xs)
]

-- A range holds the numbers from its first to its last.
pub member-add_range :
    (c lo n : ℕ) (s : List ℕ)
    → member c (add_range lo n s) ≡ ((leb lo c && ltb c (lo + n)) || member c s)
unfolding add_range
member-add_range c lo ℕ.zero s = ground arith
member-add_range c lo (suc n) s =
    ground (arith, member-insert c lo (add_range (suc lo) n s), member-add_range c (suc lo) n s)
