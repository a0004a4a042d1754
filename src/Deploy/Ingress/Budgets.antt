-- ===== src/Deploy/Ingress/Budgets.antt =====
-- The budgets of deploy/ingress.py, for worker and connection numbers in their ranges.
use native.Mathlib.Nat.{mul-div-le, le-div_iff_mul-le}
use zhtps.Common.{
  ℕ, ◌+◌, ◌-◌, ◌*◌, ◌/◌, ◌≤◌, min, max, ◌≡◌, arith, sub_ℕ, ℤ, pos, negsuc, Option, none, some,
}
use zhtps.Deploy.Ingress.{Options, connection_budget, idle_per_worker, active_budget, cap_active}

-- The idle connections of one proxy worker, out of a budget of b for p workers.
abbrev pub share : ℕ → ℕ → ℕ
share b p = min 32 (b / (2 * p))

-- All workers together keep at most half of the budget idle.
pub shares-le : (b p : ℕ) → 2 * (p * share b p) ≤ b
shares-le b p = grind (arith, mul-div-le b (2 * p))

pub share-pos : (b p : ℕ) → 1 ≤ p → 2 * p ≤ b → 1 ≤ share b p
share-pos b p h k =
    omega (arith, (le-div_iff_mul-le {k = 2 * p} {x = 1} {y = b} (omega arith)).1 (omega arith))

-- Three quarters of the slots, and at least one, is at most all of them.
pub three_quarters_bounds : (s : ℕ) → 1 ≤ s → (1 ≤ max 1 (s * 3 / 4)) × (max 1 (s * 3 / 4) ≤ s)
three_quarters_bounds s h = (omega arith, omega arith)

pub budget-le : (w s : ℕ) → 1 ≤ s → w * max 1 (s * 3 / 4) ≤ w * s
budget-le w s h = grind (arith, three_quarters_bounds s h)

-- The methods of `Options`, on numbers.
abbrev pub usable : ℕ → ℕ → ℕ
usable w s = w * max 1 (s * 3 / 4)

-- What the idle connections leave, or less if the origin admits less.
abbrev pub active_slots : Option ℤ → ℕ → ℕ → ℕ → ℕ
active_slots none w b p = b - p * share b p
active_slots (some (pos a)) w b p = min (b - p * share b p) (w * a)
active_slots (some (negsuc a)) w b p = 0

abbrev pub NotNegative : Option ℤ → Type 0
NotNegative none = Unit
NotNegative (some a) = (n : ℕ) × (a ≡ pos n)

sub_ℕ-pos : {b i : ℕ} → i ≤ b → sub_ℕ b i ≡ pos (b - i)
sub_ℕ-pos h = ground arith

cap_active-pos :
    (a : Option ℤ) (w b p : ℕ)
    → NotNegative a
    → p * share b p ≤ b
    → cap_active a (pos w) (sub_ℕ b (p * share b p)) ≡ pos (active_slots a w b p)
cap_active-pos none w b p _ h = sub_ℕ-pos h
cap_active-pos (some (pos a)) w b p _ h = rw (sub_ℕ-pos h)
cap_active-pos (some (negsuc a)) w b p given h = cc (given.1)

abbrev pub Positive : Option ℤ → Type 0
Positive none = Unit
Positive (some a) = (n : ℕ) × (a ≡ pos n) × (1 ≤ n)

module _ (o : Options) {w s p : ℕ} (workers : o.origin_workers ≡ pos w)
    (slots : o.origin_slots ≡ pos s) (processes : o.proxy_workers ≡ pos p) where
  pub connection_budget-pos : connection_budget o ≡ pos (usable w s)
  unfolding connection_budget
  connection_budget-pos = rw (workers, slots)

  pub idle_per_worker-pos : idle_per_worker o ≡ pos (share (usable w s) p)
  unfolding idle_per_worker
  idle_per_worker-pos = rw (connection_budget-pos, processes)

  pub active_budget-pos :
      NotNegative o.origin_active_per_worker
      → active_budget o ≡ pos (active_slots o.origin_active_per_worker w (usable w s) p)
  unfolding active_budget
  active_budget-pos given =
      rw (connection_budget-pos, idle_per_worker-pos, processes, workers)
        (cap_active-pos o.origin_active_per_worker w (usable w s) p given
          (omega (arith, shares-le (usable w s) p)))

-- At least one slot stays active, and the active and the idle connections fit the budget.
pub active_slots_bounds :
    (a : Option ℤ) (w b p : ℕ)
    → 1 ≤ p
    → 2 * p ≤ b
    → 1 ≤ w
    → Positive a
    → (1 ≤ active_slots a w b p) × (active_slots a w b p + p * share b p ≤ b)
active_slots_bounds none w b p hp hb hw given = omega (arith, shares-le b p)
active_slots_bounds (some (pos a)) w b p hp hb hw (n, e, h) =
    let some_slot : 1 ≤ w * a = grind arith in omega (arith, shares-le b p)
active_slots_bounds (some (negsuc a)) w b p hp hb hw (n, e, h) = cc

-- Where the origin gives a limit for each worker, the active slots are within it.
pub active_slots_capped : (n w b p : ℕ) → active_slots (some (pos n)) w b p ≤ w * n
active_slots_capped n w b p = omega arith
