-- ===== src/Bench/Http2Remote/Setup.antt =====
-- What `run` of bench/http2_remote.py checks before it starts the clients, and how it shares out CPUs
-- and connections among them.
use native.Mathlib.Nat.{div-add-mod, mod-lt}
use text.Mathlib.Text.{◌==◌ as str_eq}
use text.Mathlib.TextEquality.{eq_iff}
use zhtps.Common.{
  ◌||◌, leb, ◌⊎◌, ℕ, zero, suc, ◌+◌, ◌-◌, ◌*◌, ◌/◌, ◌%◌, ◌≤◌, min, ◌≡◌, ◌↔◌, refl, ap, ◌∙◌, Bool,
  Bool-cases, inl, inr, true, false, not, List, [], ◌∷◌, length, ◌==◌, ==_iff, ltb, all, String,
  if◌then◌else◌, Result, ok, value_error, require, ◌>>◌, arith,
}

-- `cpus[i::p]`, where the next element that is taken stands behind `i` others
unfoldable pub every : ℕ → ℕ → List ℕ → List ℕ
every p i [] = []
every p zero (c ∷ cs) = c ∷ every p (p - 1) cs
every p (suc i) (c ∷ cs) = every p i cs

-- `[f(i) for i in range(lo, lo + n)]`
abbrev pub tabulate {ℓ} : {A : Type ℓ} → (ℕ → A) → ℕ → ℕ → List A
tabulate f lo zero = []
tabulate f lo (suc n) = f lo ∷ tabulate f (suc lo) n

unfoldable pub placements : ℕ → List ℕ → List (List ℕ)
unfolding every
placements p cpus = tabulate (λ i. every p i cpus) 0 p

-- `connections // processes + (i < connections % processes)`
unfoldable pub connections_of : ℕ → ℕ → ℕ → ℕ
connections_of connections p i = connections / p + (if ltb i (connections % p) then 1 else 0)

abbrev pub sum_below : (ℕ → ℕ) → ℕ → ℕ
sum_below f zero = 0
sum_below f (suc n) = sum_below f n + f n

shares-sum : (q r n : ℕ) → sum_below (λ i. q + (if ltb i r then 1 else 0)) n ≡ n * q + min n r
shares-sum q r zero = omega arith
shares-sum q r (suc n) = elim (Bool-cases (ltb n r)) [
  | inl below ↦ rw below (ground (arith, shares-sum q r n))
  | inr above ↦ rw above (ground (arith, shares-sum q r n))
]

-- With at least one process, the shares of the connections add up to all of them, and each is the
-- quotient or one more.
pub connections_of-sum :
    (connections p : ℕ)
    → 1 ≤ p
    → (sum_below (connections_of connections p) p ≡ connections)
      × ((i : ℕ)
          → (connections_of connections p i ≡ connections / p)
            ⊎ (connections_of connections p i ≡ connections / p + 1))
unfolding connections_of
connections_of-sum connections p some_process = (
  omega (
    arith,
    shares-sum (connections / p) (connections % p) p,
    div-add-mod connections p,
    mod-lt connections {m = p} (omega arith),
  ),
  λ i. elim (Bool-cases (ltb i (connections % p))) [
    | inl below ↦ inr (rw below refl)
    | inr above ↦ inl (rw above (omega arith))
  ],
)

abbrev pub total : (ℕ → ℕ) → List ℕ → ℕ
total w [] = 0
total w (c ∷ cs) = w c + total w cs

sum_below-zero : (n : ℕ) → sum_below (λ i. 0) n ≡ 0
sum_below-zero zero = refl
sum_below-zero (suc n) = omega (arith, sum_below-zero n)

-- The first summand on its own
sum_below-shift : (f : ℕ → ℕ) (n : ℕ) → sum_below f (suc n) ≡ f 0 + sum_below (λ i. f (suc i)) n
sum_below-shift f zero = omega arith
sum_below-shift f (suc n) = omega (arith, sum_below-shift f n)

-- With at least one process, and whatever each CPU counts for, the placements count as much as the
-- list of CPUs: each CPU of the list stands in one placement, as often as in the list.
pub placements-total :
    (w : ℕ → ℕ) (p : ℕ) (cpus : List ℕ)
    → 1 ≤ p
    → sum_below (λ i. total w (every p i cpus)) p ≡ total w cpus
unfolding every
placements-total w zero cpus some_process = absurd (omega arith)
placements-total w (suc m) [] some_process = sum_below-zero (suc m)
placements-total w (suc m) (c ∷ cs) some_process =
    let f : ℕ → ℕ = λ i. total w (every (suc m) i (c ∷ cs)) in
    let first : sum_below f (suc m)
        ≡ (w c + total w (every (suc m) (suc m - 1) cs))
          + sum_below (λ i. total w (every (suc m) i cs)) m =
      sum_below-shift f m in
    let next : total w (every (suc m) (suc m - 1) cs) ≡ total w (every (suc m) m cs) =
      ap (λ k. total w (every (suc m) k cs)) (omega arith) in
    let rest : sum_below (λ i. total w (every (suc m) i cs)) m + total w (every (suc m) m cs)
        ≡ total w cs =
      placements-total w (suc m) cs some_process in
    first ∙ omega arith

abbrev pub has : ℕ → List ℕ → Bool
has c [] = false
has c (x ∷ xs) = c == x || has c xs

abbrev is_empty : List ℕ → Bool
is_empty [] = true
is_empty (c ∷ cs) = false

-- The checks on the client's file, its CPUs and their placement. The number of processes is not
-- negative.
unfoldable pub prepare : String → String → List ℕ → ℕ → List ℕ → Result (List (List ℕ))
unfolding placements
prepare digest expected affinity p cpus = do
  require (str_eq digest expected) (value_error "client executable hash mismatch")
  require (all (λ c. has c affinity) cpus) (value_error "unavailable client CPUs")
  require (all (λ l. not (is_empty l)) (placements p cpus))
      (value_error "empty client CPU placement")
  ok (placements p cpus)

is_empty-every : (p i : ℕ) (cpus : List ℕ) → is_empty (every p i cpus) ≡ leb (length cpus) i
unfolding every
is_empty-every p zero [] = refl
is_empty-every p (suc i) [] = ground arith
is_empty-every p zero (c ∷ cs) = ground arith
is_empty-every p (suc i) (c ∷ cs) = ground (arith, is_empty-every p i cs)

all_taken :
    (p lo n : ℕ) (cpus : List ℕ)
    → all (λ l. not (is_empty l)) (tabulate (λ i. every p i cpus) lo n)
      ≡ (n == 0 || leb (lo + n) (length cpus))
all_taken p lo zero cpus = ground arith
all_taken p lo (suc n) cpus = ground (arith, is_empty-every p lo cpus, all_taken p (suc lo) n cpus)

-- The checks pass exactly if the client's file has the expected hash, all its CPUs are available, and
-- there are no more processes than CPUs; the placements are then every p-th CPU from each of the
-- first p on.
pub prepare_iff :
    (digest expected : String) (affinity : List ℕ) (p : ℕ) (cpus : List ℕ) (ps : List (List ℕ))
    → (prepare digest expected affinity p cpus ≡ ok ps) ↔ (
        (digest ≡ expected)
        × (all (λ c. has c affinity) cpus ≡ true)
        × (p ≤ length cpus)
        × (ps ≡ placements p cpus))
unfolding prepare
prepare_iff digest expected affinity p cpus ps =
    ground (arith, eq_iff digest expected, all_taken p 0 p cpus, ==_iff p 0)
