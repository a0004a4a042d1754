-- ===== src/Deploy/WorkerCpus/Select/Invariant.antt =====
-- The workers that the loop selects: allowed, none twice, and no two on one physical core.
use zhtps.Common.{
  ==_iff, ok-injective, ◌∙◌, sym, subst, ℕ, zero, suc, ◌≤◌, ◌<◌, ◌≡◌, ◌⊎◌, inl, inr, refl, Bool,
  true, false, List, [], ◌∷◌, ◌++◌, some, length, length-append, ltb, Result, ok, >>=-eq-ok, All,
  All-append, arith, Bool-cases, Option-cases,
}
use zhtps.Deploy.WorkerCpus.CpuSet.{member, union, member-union}
use zhtps.Deploy.WorkerCpus.Select.{
  Choice, first_unused, take_cpu, unless_full, round_groups, next_round, select_from,
}

abbrev pub Subset : List ℕ → List ℕ → Type 0
Subset a b = (c : ℕ) → member c a ≡ true → member c b ≡ true

first_unused_sound :
    (used group : List ℕ) (c : ℕ)
    → first_unused used group ≡ some c
    → (member c used ≡ false) × (member c group ≡ true)
first_unused_sound used [] c h = cc
first_unused_sound used (x ∷ xs) c h = ground (arith, ==_iff c c, first_unused_sound used xs c)

not-member_of_Subset : (a b : List ℕ) (c : ℕ) → Subset a b → member c b ≡ false → member c a ≡ false
not-member_of_Subset a b c sub h = elim (Bool-cases (member c a)) [
  | inl inside ↦ cc (sub c inside)
  | inr outside ↦ outside
]

pub Subset-union_right : (a b c : List ℕ) → Subset a b → Subset a (union c b)
Subset-union_right a b c sub x h = ground (arith, member-union x c b, sub x h)

pub Subset-union_left : (a b : List ℕ) → Subset a (union a b)
Subset-union_left a b x h = ground (arith, member-union x a b)

-- A property of every element is one of the last, too.
All-snoc : (P : ℕ → Type 0) (xs : List ℕ) (x : ℕ) → All P xs → P x → All P (xs ++ x ∷ [])
All-snoc P xs x h p = All-append P xs (x ∷ []) h (p, tt)

All-map : {P Q : ℕ → Type 0} (xs : List ℕ) → ((x : ℕ) → P x → Q x) → All P xs → All Q xs
All-map [] f h = tt
All-map (x ∷ xs) f (p, h) = (f x p, All-map xs f h)

module _ (siblings : ℕ → Result (List ℕ)) where
  -- The second CPU is no sibling of the first.
  abbrev pub NotBeside : ℕ → ℕ → Type 0
  NotBeside d c = (ss : List ℕ) → siblings c ≡ ok ss → member d ss ≡ false

  -- No CPU of the list is a sibling of one before it.
  abbrev pub Apart : List ℕ → Type 0
  Apart [] = Unit
  Apart (c ∷ cs) = All (λ d. NotBeside d c) cs × Apart cs

  Apart-snoc : (cs : List ℕ) (d : ℕ) → Apart cs → All (NotBeside d) cs → Apart (cs ++ d ∷ [])
  Apart-snoc [] d _ _ = (tt, tt)
  Apart-snoc (c ∷ cs) d (before, apart) (new, rest) =
      (All-snoc (λ d. NotBeside d c) cs d before new, Apart-snoc cs d apart rest)

  module _ (Fits : ℕ → Type 0) (excluded : List ℕ) where
    pub record Sound (s : Choice) : Type 0 where
      pub fit : All (λ c. Fits c × (member c excluded ≡ false)) s.selected
      pub apart : Apart s.selected
      pub covered : All (λ c. (ss : List ℕ) → siblings c ≡ ok ss → Subset ss s.used) s.selected
      pub kept : Subset excluded s.used

    take_cpu-Sound :
        (c : ℕ) (ss : List ℕ) (s : Choice)
        → Fits c
        → siblings c ≡ ok ss
        → member c s.used ≡ false
        → Sound s
        → Sound (take_cpu c ss s)
    take_cpu-Sound c ss s fits read new v = record {
      fit =
          All-snoc (λ d. Fits d × (member d excluded ≡ false)) s.selected c v.fit
            (fits, not-member_of_Subset excluded s.used c v.kept new);
      apart = Apart-snoc s.selected c v.apart (
          All-map s.selected (λ d cover ss' e. not-member_of_Subset ss' s.used c (cover ss' e) new)
            v.covered);
      covered =
          All-snoc (λ d. (ss' : List ℕ) → siblings d ≡ ok ss' → Subset ss' (union ss s.used))
            s.selected c
            (All-map s.selected (λ d cover ss' e. Subset-union_right ss' s.used ss (cover ss' e))
              v.covered)
            (λ ss' e.
              subst (λ t. Subset t (union ss s.used)) (ok-injective (sym read ∙ e))
                (Subset-union_left ss s.used));
      kept = Subset-union_right excluded s.used ss v.kept;
    }

    module _ (workers : ℕ) where
      unless_full-cases :
          (full : Bool) (rest : Choice → Bool → Result (Choice × Bool)) (s : Choice)
          (r : Choice × Bool)
          → unless_full siblings workers full rest s ≡ ok r
          → ((full ≡ true) × (ok (s, true) ≡ ok r)) ⊎ ((full ≡ false) × (rest s true ≡ ok r))
      unless_full-cases true rest s r h = inl (refl, h)
      unless_full-cases false rest s r h = inr (refl, h)

      -- A round keeps the invariant and stops at the number of workers.
      round_groups-Sound :
          (groups : List (List ℕ)) (s : Choice) (advanced : Bool) (r : Choice × Bool)
          → All (λ group. (c : ℕ) → member c group ≡ true → Fits c) groups
          → Sound s
          → length s.selected < workers
          → round_groups siblings workers groups s advanced ≡ ok r
          → Sound r.0 × (length r.0.selected ≤ workers)
      unfolding round_groups
      round_groups-Sound [] s advanced r _ v few h =
          subst (λ t. Sound t.0 × (length t.0.selected ≤ workers)) (ok-injective h) (v, omega arith)
      round_groups-Sound (group ∷ groups) s advanced r (fits, rest) v few h =
          elim (Option-cases (first_unused s.used group)) [
            | inl full ↦ round_groups-Sound groups s advanced r rest v few (rw full at h)
            | inr (c, found) ↦
                let (new, inside) = first_unused_sound s.used group c found in
                let (ss, read, more) = >>=-eq-ok (siblings c) _ (rw found at h) in
                let v' = take_cpu-Sound c ss s (fits c inside) read new v in
                let longer = length-append s.selected (c ∷ []) in
                elim (unless_full-cases _ (round_groups siblings workers groups) (take_cpu c ss s) r
                  more) [
                    | inl (full, last) ↦
                        subst (λ t. Sound t.0 × (length t.0.selected ≤ workers)) (ok-injective last)
                          (v', ground (arith, ==_iff (length (take_cpu c ss s).selected) workers))
                    | inr (room, more') ↦
                        round_groups-Sound groups (take_cpu c ss s) true r rest v'
                          (ground (arith, ==_iff (length (take_cpu c ss s).selected) workers)) more'
                  ]
          ]

      next_round-eq-ok :
          (again : Choice → Result Choice) (t : Choice × Bool) (r : Choice)
          → next_round siblings workers again t ≡ ok r
          → again t.0 ≡ ok r
      next_round-eq-ok again (s, true) r h = h
      next_round-eq-ok again (s, false) r h = cc

      -- The loop keeps it, and ends with as many CPUs as there are workers.
      pub select_from-Sound :
          (fuel : ℕ) (groups : List (List ℕ)) (s r : Choice)
          → All (λ group. (c : ℕ) → member c group ≡ true → Fits c) groups
          → Sound s
          → length s.selected ≤ workers
          → select_from siblings workers fuel groups s ≡ ok r
          → Sound r × (length r.selected ≡ workers)
      unfolding select_from
      select_from-Sound zero groups s r fits v few h =
          elim (Bool-cases (ltb (length s.selected) workers)) [
            | inl short ↦ cc (rw short at h)
            | inr full ↦
                subst (λ t. Sound t × (length t.selected ≡ workers)) (ok-injective (rw full at h))
                  (v, ground arith)
          ]
      select_from-Sound (suc fuel) groups s r fits v few h =
          elim (Bool-cases (ltb (length s.selected) workers)) [
            | inl short ↦
                let ((s', advanced), round, again) =
                  >>=-eq-ok (round_groups siblings workers groups s false) _ (rw short at h) in
                let (v', few') =
                  round_groups-Sound groups s false (s', advanced) fits v (ground arith) round in
                select_from-Sound fuel groups s' r fits v' few' (
                  next_round-eq-ok (select_from siblings workers fuel groups) (s', advanced) r
                    again)
            | inr full ↦
                subst (λ t. Sound t × (length t.selected ≡ workers)) (ok-injective (rw full at h))
                  (v, ground arith)
          ]
