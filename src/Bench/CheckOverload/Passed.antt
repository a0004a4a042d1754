-- ===== src/Bench/CheckOverload/Passed.antt =====
-- When the audit of bench/check_overload.py passes: exactly if every criterion is met.
use text.Mathlib.TextEquality.{eq_iff}
use zhtps.Common.{
  Option-cases, ok-injective, ◌<>◌, ◌≡◌, ◌≢◌, ◌↔◌, refl, sym, ap, subst, ◌∙◌, Bool, inl, inr, true,
  false, not, ◌||◌, List, [], ◌∷◌, ◌++◌, Option, none, some, String, ◌==◌, length, ok, arith,
  >>-eq-ok_iff, All,
}
use zhtps.Bench.Floats.{Floats}
use zhtps.Bench.CheckOverload.{
  Targets, Phase, Report, notes, phase_of, are_unique, validate, is_missing, same_text, is_none,
}
use zhtps.Bench.CheckOverload.Issues.{
  report_tests, common_issues, Kind, steady, overload, kind_issues, phase_issues, required,
  required_issues, clock_ms, issues, audit,
}
use zhtps.Bench.CheckOverload.Criteria.{
  notes_iff, append-nil_iff, Within, exceeds_iff, MeetsCommon, MeetsOverload, common_iff,
  overload_iff,
}

not-eq-false : (b : Bool) → not b ≡ false → b ≡ true
not-eq-false true h = refl
not-eq-false false h = sym h

-- The two hosts have boot ids, and they differ.
abbrev pub AreSeparate : Option String → Option String → Bool → Type 0
AreSeparate o c separate =
    (a b : String) × (o ≡ some a) × (c ≡ some b) × (a ≢ "") × (b ≢ "") × (a ≢ b) × (separate ≡ true)

separated_tests :
    (a b a' b' : String) {separate : Bool}
    → some a ≡ some a'
    → some b ≡ some b'
    → a' ≢ ""
    → b' ≢ ""
    → a' ≢ b'
    → separate ≡ true
    → (is_missing (some a) || is_missing (some b) || same_text (some a) (some b) || not separate)
      ≡ false
separated_tests a b a' b' e e' no_a no_b apart separated =
    let same : a ≡ a' = cc in
    let same' : b ≡ b' = cc in
    rw (same, same', separated) (ground (arith, eq_iff a' "", eq_iff b' "", eq_iff a' b'))

separate_iff :
    (o c : Option String) (separate : Bool)
    → ((is_missing o || is_missing c || same_text o c || not separate) ≡ false)
      ↔ AreSeparate o c separate
separate_iff none c separate = (λ h. cc, λ (a, b, e, _, _, _, _, _). cc)
separate_iff (some a) none separate = (λ h. absurd (ground arith), λ (a', b, _, e, _, _, _, _). cc)
separate_iff (some a) (some b) separate = (
  λ h. (
    a,
    b,
    refl,
    refl,
    λ e. ground (arith, eq_iff a ""),
    λ e. ground (arith, eq_iff b ""),
    λ e. ground (arith, eq_iff a b),
    ground arith,
  ),
  λ (a', b', e, e', no_a, no_b, apart, separated).
      separated_tests a b a' b' e e' no_a no_b apart separated,
)

module _ (N : Floats) (t : Targets N) (r : Report N) where
  open N use {is_below, literal, F}

  abbrev pub MeetsKind : Phase N → Kind N → Phase N → Type 0
  MeetsKind b steady p = is_below p.success_percent (literal 999 10) ≡ false
  MeetsKind b (overload multiple) p = MeetsOverload N t r.churn b multiple p

  kind_iff :
      (b p : Phase N) (label : String) (kind : Kind N)
      → (kind_issues N t r.churn (some b) label kind p ≡ []) ↔ MeetsKind b kind p
  kind_iff b p label steady =
      let quiet = notes_iff (
        (
          is_below p.success_percent (literal 999 10),
          label <> ": fewer than 99.9% of scheduled offers succeeded",
        )
        ∷ []) in
      (λ h. (quiet.0 h).0, λ h. quiet.1 (h, tt))
  kind_iff b p label (overload multiple) = overload_iff N t r.churn b p label multiple

  abbrev pub MeetsPhase : Phase N → String × F × Kind N → Type 0
  MeetsPhase b (label, seconds, kind) =
      (p : Phase N) × (phase_of N label r.phases ≡ some p)
      × MeetsCommon N t b seconds p
      × MeetsKind b kind p

  phase_iff :
      (b : Phase N) (label : String) (seconds : F) (kind : Kind N) (o : Option (Phase N))
      → (phase_issues N t r.churn (some b) label seconds kind o ≡ [])
        ↔ ((p : Phase N) × (o ≡ some p) × MeetsCommon N t b seconds p × MeetsKind b kind p)
  phase_iff b label seconds kind none = (λ h. cc, λ (p, e, _, _). cc)
  phase_iff b label seconds kind (some p) =
      let split =
        append-nil_iff (common_issues N t (some b) label seconds p)
          (kind_issues N t r.churn (some b) label kind p) in
      let common = common_iff N t b p label seconds in
      let special = kind_iff b p label kind in
      (
        λ h. (p, refl, common.0 (split.0 h).0, special.0 (split.0 h).1),
        λ (q, e, c, k).
            let same : q ≡ p = cc in
            split.1 (
              common.1 (subst (MeetsCommon N t b seconds) same c),
              special.1 (subst (MeetsKind b kind) same k),
            ),
      )

  required_iff :
      (b : Phase N) (ks : List (String × F × Kind N))
      → phase_of N "baseline" r.phases ≡ some b
      → (required_issues N t r ks ≡ []) ↔ All (MeetsPhase b) ks
  required_iff b [] base = (λ _. tt, λ _. refl)
  required_iff b ((label, seconds, kind) ∷ ks) base =
      let found = phase_of N label r.phases in
      let same : phase_issues N t r.churn (phase_of N "baseline" r.phases) label seconds kind found
          ≡ phase_issues N t r.churn (some b) label seconds kind found =
        ap (λ o. phase_issues N t r.churn o label seconds kind found) base in
      let split =
        append-nil_iff
          (phase_issues N t r.churn (phase_of N "baseline" r.phases) label seconds kind found)
          (required_issues N t r ks) in
      let phase = phase_iff b label seconds kind found in
      let rest = required_iff b ks base in
      (
        λ h. (phase.0 (sym same ∙ (split.0 h).0), rest.0 (split.0 h).1),
        λ m. split.1 (same ∙ phase.1 (m.0), rest.1 (m.1)),
      )

  -- Every criterion of the audit is met.
  pub record IsDemonstrated : Type 0 where
    pub separate : AreSeparate r.origin_boot r.client_boot r.separate_kernel
    pub clock : Within N (clock_ms N r.clock_uncertainty_ns) t.max_clock_uncertainty_ms
    pub unique : are_unique N r.phases ≡ true
    pub baseline : Phase N
    pub found : phase_of N "baseline" r.phases ≡ some baseline
    pub phases : All (MeetsPhase baseline) (required N t)

  issues_iff : (issues N t r ≡ []) ↔ IsDemonstrated
  unfolding issues
  issues_iff = (to, from)
    where
      split :
          ((notes (report_tests N t r) ++ required_issues N t r (required N t)) ≡ [])
          ↔ ((notes (report_tests N t r) ≡ []) × (required_issues N t r (required N t) ≡ []))
      split = append-nil_iff (notes (report_tests N t r)) (required_issues N t r (required N t))

      to : issues N t r ≡ [] → IsDemonstrated
      to h =
          let (separated, (aligned, (unique, (present, _)))) =
            (notes_iff (report_tests N t r)).0 (split.0 h).0 in
          elim (Option-cases (phase_of N "baseline" r.phases)) [
            | inl missing ↦ cc
            | inr (b, found) ↦ record {
              separate = (separate_iff r.origin_boot r.client_boot r.separate_kernel).0 separated;
              clock =
                  (exceeds_iff N (clock_ms N r.clock_uncertainty_ns) t.max_clock_uncertainty_ms).0
                    aligned;
              unique = not-eq-false (are_unique N r.phases) unique;
              baseline = b;
              found = found;
              phases = (required_iff b (required N t) found).0 (split.0 h).1;
            }
          ]

      from : IsDemonstrated → issues N t r ≡ []
      from d = split.1 (
        (notes_iff (report_tests N t r)).1 (
          (separate_iff r.origin_boot r.client_boot r.separate_kernel).1 d.separate,
          (
            (exceeds_iff N (clock_ms N r.clock_uncertainty_ns) t.max_clock_uncertainty_ms).1
                d.clock,
            (ap not d.unique, (ap is_none d.found, tt)),
          ),
        ),
        (required_iff d.baseline (required N t) d.found).1 d.phases,
      )

  -- For any arithmetic of floats, the audit passes exactly if the targets are valid and every criterion
  -- is met: the hosts have boot ids that differ and a separate kernel is stated; the clock's uncertainty
  -- is known and within its target; the labels are unique; and each of the seven required phases is
  -- there, long and quick enough, sampled without errors, with memory within its growth over the
  -- baseline, and, for an overload, with the rate, the pressure, the goodput, the headroom and the tails
  -- that the targets ask for, and otherwise with 99.9 % of its offers successful.
  pub audit_iff : (audit N t r ≡ ok (true, [])) ↔ ((validate N t ≡ ok tt) × IsDemonstrated)
  unfolding audit
  audit_iff =
      let steps =
        >>-eq-ok_iff (validate N t) (ok (length (issues N t r) == 0, issues N t r)) (true, []) in
      (
        λ h. ((steps.0 h).0, issues_iff.0 (ap (λ x. x.1) (ok-injective (steps.0 h).1))),
        λ p. steps.1 (p.0, ap (λ l. ok (length l == 0, l)) (issues_iff.1 (p.1))),
      )
