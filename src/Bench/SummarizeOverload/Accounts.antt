-- ===== src/Bench/SummarizeOverload/Accounts.antt =====
-- What the summary of bench/summarize_overload.py says of the phases of the run.
use text.Mathlib.Text.{◌==◌ as str_eq}
use text.Mathlib.TextEquality.{eq_iff}
use zhtps.Common.{
  ◌∙◌, ℕ, ◌+◌, ◌*◌, ◌<◌, ◌≡◌, refl, sym, ap, subst, true, not, ◌&&◌, List, [], ◌∷◌, Option, none,
  some, ◌==◌, ==_iff, Result, ok, map_result, require-eq-ok, >>=-eq-ok, ok-injective, ℤ, pos, arith,
  and-eq-true, eqb_ℤ_iff, Bool-cases, inl, inr,
}
use zhtps.Bench.Floats.{Floats, number, divide, ratio}
use zhtps.Bench.SummarizeOverload.{Table, is_http, total_of, Sample, Load, Run, Row, Summary}
use zhtps.Bench.SummarizeOverload.Samples.{usage, resources}
use zhtps.Bench.SummarizeOverload.During.{
  during, failed_samples, in_phase-during, with_errors-failed,
}
use zhtps.Bench.SummarizeOverload.Rows.{
  in_phase, unsent, failures, http_failures, transport_failures, row, summarize, is_zero_exit,
  kernel_delta,
}

-- The failures are those of HTTP and those of the transport.
total_of-split :
    (t : Table ℕ)
    → total_of (λ _. true) t ≡ total_of is_http t + total_of (λ kind. not (is_http kind)) t
total_of-split [] = omega arith
total_of-split ((kind, n) ∷ t) = elim (Bool-cases (is_http kind)) [
  | inl http ↦ rw http (omega (arith, total_of-split t))
  | inr other ↦ rw other (omega (arith, total_of-split t))
]

-- Two lists go together element by element.
abbrev pub Matches {ℓ κ} : {A : Type ℓ} {B : Type κ} → (A → B → Type 0) → List A → List B → Type 0
Matches R [] [] = Unit
Matches R (x ∷ xs) (y ∷ ys) = R x y × Matches R xs ys
Matches R _ _ = ⊥

pub map_result-Matches {ℓ κ} :
    {A : Type ℓ} {B : Type κ} (R : A → B → Type 0) (f : A → Result B)
    → ((x : A) (y : B) → f x ≡ ok y → R x y)
    → (xs : List A) (ys : List B) → map_result f xs ≡ ok ys
    → Matches R xs ys
map_result-Matches R f sound [] [] h = tt
map_result-Matches R f sound [] (y ∷ ys) h = cc
map_result-Matches R f sound (x ∷ xs) [] h =
    let (y, one, h1) = >>=-eq-ok (f x) _ h in
    let (rest, all_of, last) = >>=-eq-ok (map_result f xs) _ h1 in cc
map_result-Matches R f sound (x ∷ xs) (y ∷ ys) h =
    let (y', one, h1) = >>=-eq-ok (f x) _ h in
    let (rest, all_of, last) = >>=-eq-ok (map_result f xs) _ h1 in
    let same : y' ≡ y = cc in
    let same_rest : rest ≡ ys = cc in
    (sound x y (rw (← same) one), map_result-Matches R f sound xs ys (rw (← same_rest) all_of))

module _ (N : Floats) where
  open N use {F, over}

  -- The row says of the phase what it is to say, and the phase's offers balance.
  pub record Describes (samples : List (Sample N)) (p : Load N) (r : Row N) : Type 0 where
    pub label : r.label ≡ p.label
    pub balanced : p.offered ≡ p.successes + http_failures N p + transport_failures N p + unsent N p
    pub offered : 0 < p.offered
    pub success : r.success_percent ≡ over (number N (100 * p.successes)) (number N p.offered)
    pub unsent_share : r.unsent_percent ≡ over (number N (100 * unsent N p)) (number N p.offered)
    pub errors : r.admin_errors ≡ failed_samples N (during N p.start_unix_ns p.end_unix_ns samples)
    pub memory : r.resources ≡ resources N (during N p.start_unix_ns p.end_unix_ns samples)

  pub ratio-eq-ok :
      (a n : ℕ) (x : F) → ratio N a n ≡ ok x → (0 < n) × (x ≡ over (number N a) (number N n))
  ratio-eq-ok a n x h = elim (Bool-cases (n == 0)) [
    | inl none_offered ↦ let fails = rw none_offered at h in cc fails
    | inr some_offered ↦
        let gives = rw some_offered at h in (ground (arith, ==_iff n 0), sym (ok-injective gives))
  ]

  row-Describes :
      (samples : List (Sample N)) (p : Load N) (r : Row N)
      → row N samples p ≡ ok r
      → Describes samples p r
  unfolding row
  row-Describes samples p r h =
      let (balances, h1) =
        require-eq-ok (p.successes + total_of (λ _. true) (failures N p) + unsent N p == p.offered)
          _ _ h in
      let (success, shared, h2) = >>=-eq-ok (ratio N (100 * p.successes) p.offered) _ h1 in
      let (lost, lost_is, h3) = >>=-eq-ok (ratio N (100 * unsent N p) p.offered) _ h2 in
      let (http, _, h4) =
        >>=-eq-ok (divide N (number N (http_failures N p)) p.duration_seconds) _ h3 in
      let (transport, _, h5) =
        >>=-eq-ok (divide N (number N (transport_failures N p)) p.duration_seconds) _ h4 in
      let (used, _, h6) = >>=-eq-ok (usage N (in_phase N p samples)) _ h5 in
      subst (Describes samples p) (ok-injective h6) (record {
        label = refl;
        balanced = ground (
          arith,
          ==_iff (p.successes + total_of (λ _. true) (failures N p) + unsent N p) p.offered,
          total_of-split (failures N p),
        );
        offered = (ratio-eq-ok (100 * p.successes) p.offered success shared).0;
        success = (ratio-eq-ok (100 * p.successes) p.offered success shared).1;
        unsent_share = (ratio-eq-ok (100 * unsent N p) p.offered lost lost_is).1;
        errors =
            with_errors-failed N (in_phase N p samples)
            ∙ ap (failed_samples N) (in_phase-during N p samples);
        memory = ap (resources N) (in_phase-during N p samples);
      })

  zero_exit : (o : Option ℤ) → is_zero_exit N o ≡ true → o ≡ some (pos 0)
  zero_exit none h = cc
  zero_exit (some code) h = ap some ((eqb_ℤ_iff code (pos 0)).0 h)

  -- If `summarize` returns a summary, the run was completed and the server left with 0, as the summary
  -- says; and the summary has one row for each phase, in their order, which has the phase's label, the
  -- shares of its successful and its unsent offers, the number of samples between the phase's start and
  -- end with an admin error, and the memory that those samples show; and of each phase, which has at least
  -- one offer, the successes, HTTP failures, transport failures and unsent offers add up to the offers.
  pub summarize-Describes :
      (run : Run N) (s : Summary N)
      → summarize N run ≡ ok s
      → (run.status ≡ "complete")
        × (run.server_exit ≡ some (pos 0))
        × (s.server_exit ≡ some (pos 0))
        × Matches (Describes run.samples) run.phases s.phases
  unfolding summarize
  summarize-Describes run s h =
      let (ended, h1) =
        require-eq-ok (str_eq run.status "complete" && is_zero_exit N run.server_exit) _ _ h in
      let (completed, left) =
        and-eq-true (str_eq run.status "complete") (is_zero_exit N run.server_exit) ended in
      let (rows, described, h2) = >>=-eq-ok (map_result (row N run.samples) run.phases) _ h1 in
      let (change, _, last) = >>=-eq-ok (kernel_delta N run) _ h2 in
      let exit = zero_exit run.server_exit left in
      subst
        (λ x.
          (run.status ≡ "complete")
          × (run.server_exit ≡ some (pos 0))
          × (x.server_exit ≡ some (pos 0))
          × Matches (Describes run.samples) run.phases x.phases)
        (ok-injective last)
        (
          (eq_iff run.status "complete").0 completed,
          exit,
          exit,
          map_result-Matches (Describes run.samples) (row N run.samples) (row-Describes run.samples)
              run.phases rows described,
        )
