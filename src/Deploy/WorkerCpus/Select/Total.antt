-- ===== src/Deploy/WorkerCpus/Select/Total.antt =====
-- The loop ends within as many rounds as there are workers: each round takes a CPU or gives up.
use zhtps.Common.{
  ℕ, zero, suc, ◌+◌, ◌≤◌, ◌<◌, ◌≡◌, ◌⊎◌, inl, inr, refl, Bool, true, false, List, [], ◌∷◌, length,
  length-append, ◌==◌, ltb, Result, ok, err, Error, arith, Bool-cases, ==_iff, Option-cases,
}
use zhtps.Deploy.WorkerCpus.Select.{
  Choice, first_unused, take_cpu, unless_full, round_groups, select_from, too_few,
}

pub Result-cases {ℓ} :
    {A : Type ℓ} (m : Result A) → ((a : A) × (m ≡ ok a)) ⊎ ((e : Error) × (m ≡ err e))
Result-cases (ok a) = inl (a, refl)
Result-cases (err e) = inr (e, refl)

module _ (siblings : ℕ → Result (List ℕ)) (workers : ℕ) where
  -- Reading the siblings of some CPU raises the error.
  abbrev pub Raises : Error → Type 0
  Raises e = (cpu : ℕ) × (siblings cpu ≡ err e)

  -- After a round no CPU is given up, and a round that advanced has one more.
  abbrev Progress : ℕ → Bool → Choice × Bool → Type 0
  Progress n advanced (s, true) =
      (n ≤ length s.selected) × ((advanced ≡ true) ⊎ (n < length s.selected))
  Progress n advanced (s, false) = (n ≤ length s.selected) × (length s.selected < workers)

  Progress-taken :
      (n : ℕ) (advanced : Bool) (s : Choice) (t : Choice × Bool)
      → n < length s.selected
      → Progress (length s.selected) true t
      → Progress n advanced t
  Progress-taken n advanced s (t, true) more (grown, _) = (omega arith, inr (omega arith))
  Progress-taken n advanced s (t, false) more (grown, few) = (omega arith, few)

  RoundOutcome : ℕ → Bool → Result (Choice × Bool) → Type 0
  RoundOutcome n advanced m =
      ((t : Choice × Bool) × (m ≡ ok t) × Progress n advanced t)
      ⊎ ((e : Error) × Raises e × (m ≡ err e))

  RoundOutcome-taken :
      (n : ℕ) (advanced : Bool) (s : Choice) (m : Result (Choice × Bool))
      → n < length s.selected
      → RoundOutcome (length s.selected) true m
      → RoundOutcome n advanced m
  unfolding RoundOutcome
  RoundOutcome-taken n advanced s m more (inl (t, e, p)) =
      inl (t, e, Progress-taken n advanced s t more p)
  RoundOutcome-taken n advanced s m more (inr failed) = inr failed

  unless_full-RoundOutcome :
      (full : Bool) (rest : Choice → Bool → Result (Choice × Bool)) (n : ℕ) (advanced : Bool)
      (s : Choice)
      → n < length s.selected
      → (full ≡ false → RoundOutcome (length s.selected) true (rest s true))
      → RoundOutcome n advanced (unless_full siblings workers full rest s)
  unfolding RoundOutcome
  unless_full-RoundOutcome true rest n advanced s more go =
      inl ((s, true), refl, (omega arith, inr more))
  unless_full-RoundOutcome false rest n advanced s more go =
      RoundOutcome-taken n advanced s (rest s true) more (go refl)

  round_groups-RoundOutcome :
      (groups : List (List ℕ)) (s : Choice) (advanced : Bool)
      → length s.selected < workers
      → RoundOutcome (length s.selected) advanced (round_groups siblings workers groups s advanced)
  unfolding RoundOutcome round_groups
  round_groups-RoundOutcome [] s true few = inl ((s, true), refl, (omega arith, inl refl))
  round_groups-RoundOutcome [] s false few = inl ((s, false), refl, (omega arith, few))
  round_groups-RoundOutcome (group ∷ groups) s advanced few =
      elim (Option-cases (first_unused s.used group)) [
        | inl full ↦ rw full (round_groups-RoundOutcome groups s advanced few)
        | inr (c, found) ↦ elim (Result-cases (siblings c)) [
          | inl (ss, read) ↦
              let s' = take_cpu c ss s in
              let longer = length-append s.selected (c ∷ []) in
              rw (found, read)
                (unless_full-RoundOutcome (length s'.selected == workers)
                  (round_groups siblings workers groups) (length s.selected) advanced s'
                  (omega (longer, arith))
                  (λ room.
                    round_groups-RoundOutcome groups s' true
                      (ground (arith, longer, ==_iff (length s'.selected) workers))))
          | inr (e, failed) ↦ rw (found, failed) (inr (e, (c, failed), refl))
        ]
      ]

  -- The loop selects, finds too few CPUs, or passes on an error of reading the siblings.
  abbrev pub Outcome : Result Choice → Type 0
  Outcome m =
      ((r : Choice) × (m ≡ ok r))
      ⊎ ((k : ℕ) × (k < workers) × (m ≡ err (too_few siblings workers k)))
      ⊎ ((e : Error) × Raises e × (m ≡ err e))

  pub select_from-Outcome :
      (fuel : ℕ) (groups : List (List ℕ)) (s : Choice)
      → workers ≤ fuel + length s.selected
      → Outcome (select_from siblings workers fuel groups s)
  unfolding select_from RoundOutcome
  select_from-Outcome zero groups s enough = elim (Bool-cases (ltb (length s.selected) workers)) [
    | inl short ↦ ground arith
    | inr full ↦ rw full (inl (s, refl))
  ]
  select_from-Outcome (suc fuel) groups s enough =
      elim (Bool-cases (ltb (length s.selected) workers)) [
        | inl short ↦ elim (round_groups-RoundOutcome groups s false (ground arith)) [
          | inl ((s', true), round, (_, inr grown)) ↦
              rw (short, round) (select_from-Outcome fuel groups s' (omega arith))
          | inl ((s', true), round, (_, inl absurd)) ↦ cc
          | inl ((s', false), round, (_, few)) ↦
              rw (short, round) (inr (inl (length s'.selected, few, refl)))
          | inr (e, raised, round) ↦ rw (short, round) (inr (inr (e, raised, refl)))
        ]
        | inr full ↦ rw full (inl (s, refl))
      ]
