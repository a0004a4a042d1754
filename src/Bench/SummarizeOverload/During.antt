-- ===== src/Bench/SummarizeOverload/During.antt =====
-- The samples of a phase in bench/summarize_overload.py, by the times at which they were taken.
use zhtps.Common.{ℕ, suc, ◌≡◌, refl, true, false, List, [], ◌∷◌, ℤ, pos, leb_ℤ, arith}
use zhtps.Bench.Floats.{Floats}
use zhtps.Bench.SummarizeOverload.{Sample, Load}
use zhtps.Bench.SummarizeOverload.Rows.{in_phase, with_errors}

module _ (N : Floats) where
  -- The samples that were taken from one time to another, both included.
  abbrev pub during : ℤ → ℤ → List (Sample N) → List (Sample N)
  during from to [] = []
  during from to (s ∷ ss) = elim (leb_ℤ from (pos s.unix_ns)) [
    | false ↦ during from to ss
    | true ↦ elim (leb_ℤ (pos s.unix_ns) to) [
      | false ↦ during from to ss
      | true ↦ s ∷ during from to ss
    ]
  ]

  abbrev pub failed_samples : List (Sample N) → ℕ
  failed_samples [] = 0
  failed_samples (s ∷ ss) = elim s.admin_error [
    | true ↦ suc (failed_samples ss)
    | false ↦ failed_samples ss
  ]

  pub in_phase-during :
      (p : Load N) (samples : List (Sample N))
      → in_phase N p samples ≡ during p.start_unix_ns p.end_unix_ns samples
  in_phase-during p [] = refl
  in_phase-during p (s ∷ ss) = ground (arith, in_phase-during p ss)

  pub with_errors-failed : (ss : List (Sample N)) → with_errors N ss ≡ failed_samples ss
  with_errors-failed [] = refl
  with_errors-failed (s ∷ ss) = ground (arith, with_errors-failed ss)
