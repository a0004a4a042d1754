-- ===== src/Bench/SummarizeOverload/Cores.antt =====
-- The use of the server's cores in bench/summarize_overload.py, for counters that do not fall.
use zhtps.Common.{
  ℕ, suc, zero, ◌+◌, ◌-◌, ◌*◌, ◌≤◌, ◌<◌, ◌≡◌, refl, sym, subst, Bool-cases, inl, inr, false, List,
  [], ◌∷◌, map, Option, some, String, ok, >>=-eq-ok, ok-injective, ℤ, pos, sub_ℕ, eqb_ℤ, ◌+ℤ◌, ◌-ℤ◌,
  arith,
}
use zhtps.Bench.Floats.{Floats, number, maximum}
use zhtps.Bench.SummarizeOverload.{Table, Cores, CoreUse}
use zhtps.Bench.SummarizeOverload.Samples.{
  delta, sum_first, nth, core_ticks, core_of, Busy, percent_of, with_core, sum_cores, values,
  busy_cores, core_use,
}

-- No counter has fallen.
abbrev pub Grows : List ℕ → List ℕ → Type 0
Grows (a ∷ before) (b ∷ after) = (a ≤ b) × Grows before after
Grows _ _ = Unit

-- Nor has one of any core.
abbrev pub AllGrow : Option Cores → Cores → Type 0
AllGrow last [] = Unit
AllGrow last ((name, before) ∷ more) =
    ((after : List ℕ) → core_of last name ≡ ok after → Grows before after) × AllGrow last more

delta-pos :
    (before after : List ℕ) → Grows before after → (ds : List ℕ) × (delta before after ≡ map pos ds)
delta-pos [] after g = ([], refl)
delta-pos (a ∷ before) [] g = ([], refl)
delta-pos (a ∷ before) (b ∷ after) (ab, g) =
    let (ds, e) = delta-pos before after g in
    let first : sub_ℕ b a ≡ pos (b - a) = ground arith in ((b - a) ∷ ds, rw (first, e))

total_ℕ : ℕ → List ℕ → ℕ
total_ℕ zero ds = 0
total_ℕ (suc n) [] = 0
total_ℕ (suc n) (d ∷ ds) = d + total_ℕ n ds

sum_first-pos : (n : ℕ) (ds : List ℕ) → sum_first n (map pos ds) ≡ pos (total_ℕ n ds)
unfolding total_ℕ
sum_first-pos zero ds = refl
sum_first-pos (suc n) [] = refl
sum_first-pos (suc n) (d ∷ ds) = rw (sum_first-pos n ds)

-- The busy ticks of a part of the total.
abbrev pub IsPart : ℤ → ℤ → Type 0
IsPart busy total = (k m : ℕ) × (busy ≡ pos k) × (total ≡ pos m) × (k ≤ m)

-- Fields 3 and 4 are two parts of the sum of the first eight.
two_parts :
    (ds : List ℕ) (i w : ℤ)
    → nth 3 (map pos ds) ≡ ok i
    → nth 4 (map pos ds) ≡ ok w
    → IsPart (sum_first 8 (map pos ds) -ℤ i -ℤ w) (sum_first 8 (map pos ds))
two_parts [] i w h k = cc
two_parts (a ∷ []) i w h k = cc
two_parts (a ∷ b ∷ []) i w h k = cc
two_parts (a ∷ b ∷ c ∷ []) i w h k = cc
two_parts (a ∷ b ∷ c ∷ d ∷ []) i w h k = cc
two_parts (a ∷ b ∷ c ∷ d ∷ e ∷ ds) i w h k =
    let is_i : pos d ≡ i = ok-injective h in
    let is_w : pos e ≡ w = ok-injective k in
    rw (← is_i, ← is_w, sum_first-pos 3 ds)
      (
        a + b + c + total_ℕ 3 ds,
        a + b + c + d + e + total_ℕ 3 ds,
        ground arith,
        ground arith,
        omega arith,
      )

core_ticks-IsPart :
    (before after : List ℕ) (total busy : ℤ)
    → Grows before after
    → core_ticks before after ≡ ok (total, busy)
    → IsPart busy total
unfolding core_ticks
core_ticks-IsPart before after total busy g h =
    let (ds, e) = delta-pos before after g in
    let (i, idle, h1) = >>=-eq-ok (nth 3 (delta before after)) _ h in
    let (w, waiting, h2) = >>=-eq-ok (nth 4 (delta before after)) _ h1 in
    let ticks = ok-injective h2 in
    let part =
      subst (λ xs. IsPart (sum_first 8 xs -ℤ i -ℤ w) (sum_first 8 xs)) (sym e)
        (two_parts ds i w (rw (← e) idle) (rw (← e) waiting)) in
    subst (λ (p : ℤ × ℤ). IsPart p.1 p.0) ticks part

add-IsPart : (b t b' t' : ℤ) → IsPart b t → IsPart b' t' → IsPart (b +ℤ b') (t +ℤ t')
add-IsPart b t b' t' (k, m, e, f, le) (k', m', e', f', le') =
    rw (e, f, e', f') (k + k', m + m', refl, refl, omega arith)

module _ (N : Floats) where
  open N use {F, over}

  -- A share of a hundred: of some ticks, of which there is one at least, in per cent.
  abbrev pub IsShare : F → Type 0
  IsShare x = (k m : ℕ) × (x ≡ over (number N (100 * k)) (number N m)) × (k ≤ m) × (0 < m)

  abbrev pub SharesOnly : Table F → Type 0
  SharesOnly [] = Unit
  SharesOnly ((name, x) ∷ more) = IsShare x × SharesOnly more

  percent_of-IsShare :
      (busy total : ℤ)
      → IsPart busy total
      → eqb_ℤ total (pos 0) ≡ false
      → IsShare (percent_of N busy total)
  percent_of-IsShare busy total (k, m, e, f, le) some_ticks =
      let positive : 0 < m = ground arith in rw (e, f) (k, m, refl, le, positive)

  record AreParts (b : Busy F) : Type 0 where
    sums : IsPart b.busy b.total
    shares : SharesOnly b.per_core

  with_core-AreParts :
      (name : String) (total busy : ℤ) (b : Busy F)
      → IsPart busy total
      → AreParts b
      → AreParts (with_core N name (total, busy) b)
  with_core-AreParts name total busy b part parts = record {
    sums = add-IsPart busy total b.busy b.total part parts.sums;
    shares = elim (Bool-cases (eqb_ℤ total (pos 0))) [
      | inl none_spent ↦ rw none_spent parts.shares
      | inr some_spent ↦ rw some_spent (percent_of-IsShare busy total part some_spent, parts.shares)
    ];
  }

  sum_cores-AreParts :
      (last : Option Cores) (cores : Cores) (b : Busy F)
      → AllGrow last cores
      → sum_cores N last cores ≡ ok b
      → AreParts b
  unfolding sum_cores
  sum_cores-AreParts last [] b g h =
      subst AreParts (ok-injective h)
        (record { sums = (0, 0, refl, refl, omega arith); shares = tt })
  sum_cores-AreParts last ((name, before) ∷ more) b (grows, g) h =
      let (after, found, h1) = >>=-eq-ok (core_of last name) _ h in
      let (ticks, counted, h2) = >>=-eq-ok (core_ticks before after) _ h1 in
      let (rest, summed, h3) = >>=-eq-ok (sum_cores N last more) _ h2 in
      let part = core_ticks-IsPart before after ticks.0 ticks.1 (grows after found) counted in
      subst AreParts (ok-injective h3) (
        with_core-AreParts name ticks.0 ticks.1 rest part
          (sum_cores-AreParts last more rest g summed))

  busy_cores-Shares :
      (b : Busy F) (u : CoreUse N)
      → AreParts b
      → busy_cores N b ≡ ok (some u)
      → IsShare u.busy_percent × SharesOnly u.busy_percent_by_cpu
  busy_cores-Shares b u parts h = elim (Bool-cases (eqb_ℤ b.total (pos 0))) [
    | inl none_spent ↦ let fails = rw none_spent at h in cc fails
    | inr some_spent ↦
        let given = rw some_spent at h in
        let (most, _, last) = >>=-eq-ok (maximum N (values N b.per_core)) _ given in
        let same : record {
          busy_percent = percent_of N b.busy b.total;
          busy_percent_by_cpu = b.per_core;
          busy_percent_max = most;
        }
            ≡ u =
          cc in
        subst (λ (x : CoreUse N). IsShare x.busy_percent × SharesOnly x.busy_percent_by_cpu) same
          (percent_of-IsShare b.busy b.total parts.sums some_spent, parts.shares)
  ]

  -- If no core's counter falls between the first and the last sample, then what the summary says of the
  -- cores' use are shares: over all the cores and for each one that is listed, the busy ticks are no more
  -- than the ticks, of which there is one at least.
  pub core_use-Shares :
      (first : Cores) (last : Option Cores) (u : CoreUse N)
      → AllGrow last first
      → core_use N (some first) last ≡ ok (some u)
      → IsShare u.busy_percent × SharesOnly u.busy_percent_by_cpu
  unfolding core_use
  core_use-Shares first last u g h =
      let (b, summed, h1) = >>=-eq-ok (sum_cores N last first) _ h in
      busy_cores-Shares b u (sum_cores-AreParts last first b g summed) h1
