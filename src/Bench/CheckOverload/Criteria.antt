-- ===== src/Bench/CheckOverload/Criteria.antt =====
-- The tests of the audit in bench/check_overload.py for one phase, and what they ask for.
use zhtps.Common.{
  ℕ, suc, zero, ◌≤◌, ◌≡◌, ◌↔◌, refl, ap, Bool, true, false, not, List, [], ◌∷◌, ◌++◌, Option, none,
  some, String, ==_iff, arith,
}
use zhtps.Bench.Floats.{Floats, number}
use zhtps.Bench.CheckOverload.{Targets, Phase, notes, exceeds}
use zhtps.Bench.CheckOverload.Issues.{
  rss_exceeds, attempted, falls_short, tail_exceeds, common_tests, overload_tests, common_issues,
  overload_issues,
}

-- No test holds.
abbrev pub AllFalse : List (Bool × String) → Type 0
AllFalse [] = Unit
AllFalse ((test, text) ∷ tests) = (test ≡ false) × AllFalse tests

pub notes_iff : (tests : List (Bool × String)) → (notes tests ≡ []) ↔ AllFalse tests
notes_iff [] = (λ _. tt, λ _. refl)
notes_iff ((true, text) ∷ tests) = (λ h. cc, λ (h, _). cc)
notes_iff ((false, text) ∷ tests) =
    (λ h. (refl, (notes_iff tests).0 h), λ (_, h). (notes_iff tests).1 h)

pub append-nil_iff : (xs ys : List String) → (xs ++ ys ≡ []) ↔ ((xs ≡ []) × (ys ≡ []))
append-nil_iff [] ys = (λ h. (refl, h), λ (_, h). h)
append-nil_iff (x ∷ xs) ys = (λ h. cc, λ (h, _). cc)

module _ (N : Floats) where
  open N use {F, literal, plus, minus, times, over, is_below}

  -- A number is there, and within the bound.
  abbrev pub Within : Option F → F → Type 0
  Within o bound = (x : F) × (o ≡ some x) × (is_below bound x ≡ false)

  abbrev pub Reaches : Option F → F → Type 0
  Reaches o bound = (x : F) × (o ≡ some x) × (is_below x bound ≡ false)

  pub exceeds_iff : (o : Option F) (bound : F) → (exceeds N o bound ≡ false) ↔ Within o bound
  exceeds_iff none bound = (λ h. cc, λ (x, e, _). cc)
  exceeds_iff (some x) bound = (λ h. (x, refl, h), λ (y, e, h). let same : x ≡ y = cc in rw same h)

  falls_short_iff : (o : Option F) (bound : F) → (falls_short N o bound ≡ false) ↔ Reaches o bound
  falls_short_iff none bound = (λ h. cc, λ (x, e, _). cc)
  falls_short_iff (some x) bound =
      (λ h. (x, refl, h), λ (y, e, h). let same : x ≡ y = cc in rw same h)

  tail_exceeds_iff :
      (count : ℕ) (o : Option F) (bound : F)
      → (tail_exceeds N count o bound ≡ false) ↔ (1 ≤ count → Within o bound)
  tail_exceeds_iff zero o bound = (λ _ h. absurd (omega arith), λ _. refl)
  tail_exceeds_iff (suc n) o bound =
      (λ h _. (exceeds_iff o bound).0 h, λ h. (exceeds_iff o bound).1 (h (omega arith)))

  module _ (t : Targets N) where
    abbrev pub Bounded : Option F → Option F → Type 0
    Bounded rss base =
        (x y : F) × (rss ≡ some x)
        × (base ≡ some y)
        × (is_below (times y (plus (number N 1) (over t.max_rss_growth_percent (number N 100)))) x
            ≡ false)

    rss_exceeds_iff : (rss base : Option F) → (rss_exceeds N t rss base ≡ false) ↔ Bounded rss base
    rss_exceeds_iff none base = (λ h. cc, λ (x, y, e, _, _). cc)
    rss_exceeds_iff (some x) none = (λ h. cc, λ (x, y, _, e, _). cc)
    rss_exceeds_iff (some x) (some y) = (
      λ h. (x, y, refl, refl, h),
      λ (x', y', e, e', h). let a : x ≡ x' = cc in let b : y ≡ y' = cc in rw (a, b) h,
    )

    -- What every required phase meets, beside the baseline b.
    pub record MeetsCommon (b : Phase N) (seconds : F) (p : Phase N) : Type 0 where
      pub long_enough : is_below p.seconds seconds ≡ false
      pub quick : is_below t.max_success_p99_ms p.success_p99_ms ≡ false
      pub sampled : p.admin_errors ≡ 0
      pub bounded : Bounded p.rss_max_mib b.rss_max_mib

    -- What an overload phase meets, of so many times the baseline's rate.
    pub record MeetsOverload (churn : Bool) (b : Phase N) (multiple : ℕ) (p : Phase N)
        : Type 0 where
      pub pressed : is_below p.offered_rate (times (number N multiple) b.offered_rate) ≡ false
      pub delivered :
          Reaches
            (attempted N churn p)
            (times p.offered (minus (number N 1) (over t.max_unsent_percent (number N 100))))
      pub retained : is_below p.goodput (times b.goodput t.min_goodput_ratio) ≡ false
      pub headroom : Within p.core_busy_percent_max t.max_core_busy_percent
      pub rejections : 1 ≤ p.rejection_count → Within p.rejection_p999_ms t.max_failure_p999_ms
      pub failures : 1 ≤ p.failure_count → Within p.failure_p999_ms t.max_failure_p999_ms

    pub common_iff :
        (b p : Phase N) (label : String) (seconds : F)
        → (common_issues N t (some b) label seconds p ≡ []) ↔ MeetsCommon b seconds p
    common_iff b p label seconds =
        let quiet = notes_iff (common_tests N t (some b) label seconds p) in
        (
          λ h.
              let (long_enough, (quick, (sampled, (bounded, _)))) = quiet.0 h in
              record {
                long_enough = long_enough;
                quick = quick;
                sampled = ground (arith, ==_iff p.admin_errors 0);
                bounded = (rss_exceeds_iff p.rss_max_mib b.rss_max_mib).0 bounded;
              },
          λ m. quiet.1 (
            m.long_enough,
            (
              m.quick,
              (
                ap not ((==_iff p.admin_errors 0).1 m.sampled),
                ((rss_exceeds_iff p.rss_max_mib b.rss_max_mib).1 m.bounded, tt),
              ),
            ),
          ),
        )

    pub overload_iff :
        (churn : Bool) (b p : Phase N) (label : String) (multiple : ℕ)
        → (overload_issues N t churn (some b) label multiple p ≡ [])
          ↔ MeetsOverload churn b multiple p
    overload_iff churn b p label multiple =
        let quiet = notes_iff (overload_tests N t churn (some b) label multiple p) in
        let needed =
          times p.offered (minus (number N 1) (over t.max_unsent_percent (number N 100))) in
        (
          λ h.
              let (pressed, (delivered, (retained, (headroom, (rejections, (failures, _)))))) =
                quiet.0 h in
              record {
                pressed = pressed;
                delivered = (falls_short_iff (attempted N churn p) needed).0 delivered;
                retained = retained;
                headroom = (exceeds_iff p.core_busy_percent_max t.max_core_busy_percent).0 headroom;
                rejections =
                    (tail_exceeds_iff p.rejection_count p.rejection_p999_ms t.max_failure_p999_ms).0
                      rejections;
                failures =
                    (tail_exceeds_iff p.failure_count p.failure_p999_ms t.max_failure_p999_ms).0
                      failures;
              },
          λ m. quiet.1 (
            m.pressed,
            (
              (falls_short_iff (attempted N churn p) needed).1 m.delivered,
              (
                m.retained,
                (
                  (exceeds_iff p.core_busy_percent_max t.max_core_busy_percent).1 m.headroom,
                  (
                    (tail_exceeds_iff p.rejection_count p.rejection_p999_ms t.max_failure_p999_ms).1
                        m.rejections,
                    (
                      (tail_exceeds_iff p.failure_count p.failure_p999_ms t.max_failure_p999_ms).1
                          m.failures,
                      tt,
                    ),
                  ),
                ),
              ),
            ),
          ),
        )
