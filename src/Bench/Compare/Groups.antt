-- ===== src/Bench/Compare/Groups.antt =====
-- The trials of a pair of connections and a variant in bench/compare.py, and their row.
use zhtps.Common.{
  ℕ, ◌<◌, ◌≡◌, refl, sym, subst, ◌∙◌, Bool, Bool-cases, inl, inr, true, false, List, [], ◌∷◌, all,
  All, length, if◌then◌else◌, ok, map_result, ◌>>=◌, ℤ, eqb_ℤ, eqb_ℤ_iff, arith, and-eq-true,
}
use zhtps.Bench.Floats.{Floats}
use zhtps.Bench.SummarizeOverload.Accounts.{Matches}
use zhtps.Bench.Rotation.Balance.{count, is_of}
use zhtps.Bench.Compare.{Variant, same_variant, Options}
use zhtps.Bench.Compare.Trial.{Load, Outside, Trial, unsupported, measured, load_of, is_beyond}
use zhtps.Bench.Compare.Outcomes.{IsOutcome}
use zhtps.Bench.Compare.Summary.{
  variant_of, connections_of, is_unsupported, belongs, group_of, load_with_cpu, Stats, Row,
  unsupported_row, measured_row, stats, first_of,
}
use zhtps.Bench.Compare.Figures.{stats_total}

same_variant_iff : (v w : Variant) → same_variant v w ≡ true → v ≡ w
same_variant_iff v w h = ground arith

module _ (N : Floats) (o : Options N) where
  -- A trial's result goes with the trial.
  abbrev pub Goes : ℕ × ℤ × Variant → Trial N → Type 0
  Goes (r, c, v) t =
      (variant_of N t ≡ v) × (connections_of N t ≡ c) × (is_unsupported N t ≡ is_beyond N o v c)

  pub outcome-Goes :
      (v : Variant) (c : ℤ) (repeat : ℕ) (x : Outside N) (t : Trial N) (r : ℕ)
      → ((l : Load N) → load_of N x.client ≡ ok l → l.connections ≡ c)
      → IsOutcome N o v c repeat x t
      → Goes (r, c, v) t
  outcome-Goes v c repeat x (unsupported v' repeat' c') r reports outcome =
      (outcome.0, outcome.2, sym (outcome.3))
  outcome-Goes v c repeat x (measured v' repeat' l percent) r reports outcome =
      (outcome.0, reports l (outcome.3), sym (outcome.2))

  module _ (c : ℤ) (v : Variant) where
    -- The trials of the pair.
    abbrev pub mine : ℕ × ℤ × Variant → Bool
    mine = is_of (λ d. eqb_ℤ d c) (λ w. same_variant w v)

    belongs-mine :
        (r : ℕ) (d : ℤ) (w : Variant) (t : Trial N)
        → Goes (r, d, w) t
        → belongs N c v t ≡ mine (r, d, w)
    belongs-mine r d w t (of_variant, of_connections, _) = rw (of_variant, of_connections)

    pub length-group_of :
        (ts : List (ℕ × ℤ × Variant)) (runs : List (Trial N))
        → Matches Goes ts runs
        → length (group_of N c v runs) ≡ count mine ts
    length-group_of [] [] m = refl
    length-group_of [] (t ∷ runs) m = absurd m
    length-group_of (t ∷ ts) [] m = absurd m
    length-group_of ((r, d, w) ∷ ts) (t ∷ runs) (g, m) =
        let same = belongs-mine r d w t g in
        let rest = length-group_of ts runs m in
        elim (Bool-cases (mine (r, d, w))) [
          | inl yes_mine ↦ rw (same, yes_mine) (omega arith)
          | inr other ↦ rw (same, other) (omega arith)
        ]

    -- In the group all trials are unsupported, or none.
    abbrev pub IsAlike : Trial N → Type 0
    IsAlike t = is_unsupported N t ≡ is_beyond N o v c

    pub group_of-All :
        (ts : List (ℕ × ℤ × Variant)) (runs : List (Trial N))
        → Matches Goes ts runs
        → All IsAlike (group_of N c v runs)
    group_of-All [] [] m = tt
    group_of-All [] (t ∷ runs) m = absurd m
    group_of-All (t ∷ ts) [] m = absurd m
    group_of-All ((r, d, w) ∷ ts) (t ∷ runs) (g, m) =
        let rest = group_of-All ts runs m in
        let same = belongs-mine r d w t g in
        elim (Bool-cases (mine (r, d, w))) [
          | inl yes_mine ↦
              let (by_connections, by_variant) =
                and-eq-true (eqb_ℤ d c) (same_variant w v) yes_mine in
              let d_is : d ≡ c = (eqb_ℤ_iff d c).0 by_connections in
              let w_is : w ≡ v = same_variant_iff w v by_variant in
              let alike : IsAlike t =
                subst (λ e. is_unsupported N t ≡ is_beyond N o v e) d_is
                  (subst (λ u. is_unsupported N t ≡ is_beyond N o u d) w_is (g.2)) in
              rw (same, yes_mine) (alike, rest)
          | inr other ↦ rw (same, other) rest
        ]

    -- The row of the pair: unsupported exactly if the connections are beyond what a server takes, and
    -- else with so many trials.
    abbrev pub IsRow : ℕ → Row N → Type 0
    IsRow n (unsupported_row w d) = (w ≡ v) × (d ≡ c) × (is_beyond N o v c ≡ true)
    IsRow n (measured_row w d s) =
        (w ≡ v) × (d ≡ c) × (is_beyond N o v c ≡ false) × (length s.window_failures_per_run ≡ n)

    loads_total :
        (ts : List (Trial N))
        → All (λ t. is_unsupported N t ≡ false) ts
        → (loads : List (Load N × N.F)) × (map_result (load_with_cpu N) ts ≡ ok loads)
          × (length loads ≡ length ts)
    loads_total [] _ = ([], refl, refl)
    loads_total (unsupported w r d ∷ ts) (h, _) = cc h
    loads_total (measured w r l percent ∷ ts) (_, h) =
        let (loads, given, counted) = loads_total ts h in
        ((l, percent) ∷ loads, rw given refl, rw counted)

    all_unsupported :
        (ts : List (Trial N))
        → All (λ t. is_unsupported N t ≡ true) ts
        → all (is_unsupported N) ts ≡ true
    all_unsupported [] _ = refl
    all_unsupported (t ∷ ts) (h, hs) = rw h (all_unsupported ts hs)

    figures_total :
        (loads : List (Load N × N.F))
        → 0 < length loads
        → (s : Stats N) × (stats N loads ≡ ok s) × (length s.window_failures_per_run ≡ length loads)
    figures_total [] h = absurd (omega arith)
    figures_total (l ∷ ls) h = stats_total N l ls

    pub group_row :
        (g : List (Trial N)) (b : Bool)
        → is_beyond N o v c ≡ b
        → 0 < length g
        → All (λ t. is_unsupported N t ≡ b) g
        → (row : Row N) × ((if all (is_unsupported N) g
              then first_of N c v g
              else (map_result (load_with_cpu N) g >>= λ loads.
                  stats N loads >>= λ s. ok (measured_row v c s)))
            ≡ ok row)
          × IsRow (length g) row
    group_row [] b fits some_there alike = absurd (omega arith)
    group_row (t ∷ g) true fits some_there alike =
        (unsupported_row v c, rw (all_unsupported (t ∷ g) alike) refl, (refl, refl, fits))
    group_row (t ∷ g) false fits some_there alike =
        let (loads, given, counted) = loads_total (t ∷ g) alike in
        let (s, figured, lengthened) = figures_total loads (omega arith) in
        (
          measured_row v c s,
          rw (alike.0, given, figured) refl,
          (refl, refl, fits, lengthened ∙ counted),
        )
