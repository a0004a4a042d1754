-- ===== src/Deploy/WorkerCpus/Select.antt =====
-- The loop of `suggest` in deploy/worker_cpus.py that spreads the workers over the cache domains.
pub mod Invariant
pub mod Total
use zhtps.Common.{
  ℕ, zero, suc, Bool, true, false, List, [], ◌∷◌, ◌++◌, Option, none, some, length, ◌==◌, ltb,
  if◌then◌else◌, Result, ok, err, Error, value_error, out_of_fuel, ◌>>=◌, ◌<>◌, str_ℕ,
}
use zhtps.Deploy.WorkerCpus.CpuSet.{member, union}

-- `selected` and `used`
pub record Choice : Type 0 where
  pub selected : List ℕ
  pub used : List ℕ

-- `next((cpu for cpu in group if cpu not in used), None)`
abbrev pub first_unused : List ℕ → List ℕ → Option ℕ
first_unused used [] = none
first_unused used (c ∷ cs) = if member c used then first_unused used cs else some c

-- A CPU is taken with its siblings.
abbrev pub take_cpu : ℕ → List ℕ → Choice → Choice
take_cpu cpu siblings s = record { selected = s.selected ++ cpu ∷ []; used = union siblings s.used }

module _ (siblings : ℕ → Result (List ℕ)) (workers : ℕ) where
  abbrev pub Rest : Type 0
  Rest = Choice → Bool → Result (Choice × Bool)

  -- After a CPU is taken: the `break`, or the groups that are left.
  abbrev pub unless_full : Bool → Rest → Choice → Result (Choice × Bool)
  unless_full true rest s = ok (s, true)
  unless_full false rest s = rest s true

  -- What one group adds. `rest` goes on with the groups behind it.
  abbrev pub take_from : Option ℕ → Rest → Rest
  take_from none rest s advanced = rest s advanced
  take_from (some cpu) rest s advanced = do
    shared ← siblings cpu
    unless_full (length (take_cpu cpu shared s).selected == workers) rest (take_cpu cpu shared s)

  -- One round over the groups, with `advanced`.
  unfoldable pub round_groups : List (List ℕ) → Rest
  round_groups [] s advanced = ok (s, advanced)
  round_groups (group ∷ groups) s advanced =
      take_from (first_unused s.used group) (round_groups groups) s advanced

  abbrev pub too_few : ℕ → Error
  too_few n = value_error (
      "only "
      <> str_ℕ n
      <> " allowed physical cores share IRQ L3 caches; requested "
      <> str_ℕ workers)

  abbrev pub next_round : (Choice → Result Choice) → Choice × Bool → Result Choice
  next_round again (s, true) = again s
  next_round again (s, false) = err (too_few (length s.selected))

  -- `while len(selected) < workers`, on as many rounds as workers.
  unfoldable pub select_from : ℕ → List (List ℕ) → Choice → Result Choice
  unfolding round_groups
  select_from zero groups s = if ltb (length s.selected) workers then err out_of_fuel else ok s
  select_from (suc fuel) groups s =
      let more = round_groups groups s false >>= next_round (select_from fuel groups) in
      if ltb (length s.selected) workers then more else ok s
