-- ===== src/Bench/CheckOverload.antt =====
-- bench/check_overload.py: the audit of an overload run, from its summary on. The numbers are floats,
-- whose arithmetic is a parameter.
pub mod Issues
pub mod Criteria
pub mod Passed
pub mod Tests
use text.Mathlib.Text.{◌==◌ as str_eq}
use zhtps.Bench.Floats.{Floats, number}
use zhtps.Common.{
  ℕ, zero, suc, ◌≡◌, refl, Bool, true, false, not, ◌&&◌, ◌||◌, List, [], ◌∷◌, ◌++◌, Option, none,
  some, String, ◌<>◌, str_ℕ, ltb, ◌==◌, length, if◌then◌else◌, Result, ok, err, Error, value_error,
  key_error, ◌>>=◌, ◌>>◌, require, any,
}

-- Tests, each with the issue that it is if it holds.
abbrev pub notes : List (Bool × String) → List String
notes [] = []
notes ((true, text) ∷ tests) = text ∷ notes tests
notes ((false, text) ∷ tests) = notes tests

abbrev pub is_missing : Option String → Bool
is_missing none = true
is_missing (some text) = str_eq text ""

-- Texts that may be missing, a boot id or a label, are equal.
abbrev pub same_text : Option String → Option String → Bool
same_text (some a) (some b) = str_eq a b
same_text none none = true
same_text _ _ = false

abbrev pub is_none {ℓ} : {A : Type ℓ} → Option A → Bool
is_none none = true
is_none (some _) = false

module _ (N : Floats) where
  open N use {F, is_below, is_finite}

  pub record Targets : Type 0 where
    pub baseline_seconds : F
    pub overload_seconds : F
    pub recovery_seconds : F
    pub max_unsent_percent : F
    pub min_goodput_ratio : F
    pub max_success_p99_ms : F
    pub max_failure_p999_ms : F
    pub max_core_busy_percent : F
    pub max_rss_growth_percent : F
    pub max_clock_uncertainty_ms : F

  abbrev target_values : Targets → List F
  target_values t =
      t.baseline_seconds ∷ t.overload_seconds ∷ t.recovery_seconds ∷ t.max_unsent_percent
      ∷ t.min_goodput_ratio ∷ t.max_success_p99_ms ∷ t.max_failure_p999_ms ∷ t.max_core_busy_percent
      ∷ t.max_rss_growth_percent ∷ t.max_clock_uncertainty_ms ∷ []

  abbrev any_of : (F → Bool) → List F → Bool
  any_of p [] = false
  any_of p (x ∷ xs) = p x || any_of p xs

  -- `Targets.validate`
  unfoldable pub validate : Targets → Result (Unit {0})
  validate t = do
    require (not (any_of (λ x. not (is_finite x) || is_below x (number N 0)) (target_values t)))
        (value_error "targets must be finite, nonnegative numbers")
    require
        (not (
          is_below t.baseline_seconds (number N 60)
          || is_below t.overload_seconds (number N 180)
          || is_below t.recovery_seconds (number N 30)))
        (value_error
          "sustained evidence requires at least 60/180/30-second baseline/overload/recovery phases")
    require
        (is_below (number N 0) t.min_goodput_ratio
          && not (is_below (number N 1) t.min_goodput_ratio)
          && is_below t.max_unsent_percent (number N 100))
        (value_error "invalid goodput or unsent-offer target")
    require
        (is_below (number N 0) t.max_core_busy_percent
          && not (is_below (number N 100) t.max_core_busy_percent))
        (value_error "invalid CPU headroom target")

  -- A row of the summary, and what the audit reads of the phase it stands for.
  pub record Phase : Type 0 where
    pub label : Option String
    pub seconds : F
    pub offered_rate : F
    pub goodput : F
    pub success_percent : F
    pub success_p99_ms : F
    pub admin_errors : ℕ
    pub rss_max_mib : Option F
    pub core_busy_percent_max : Option F
    pub rejection_count : ℕ
    pub rejection_p999_ms : Option F
    pub failure_count : ℕ
    pub failure_p999_ms : Option F
    pub dial_attempts : Option F
    pub sent : F
    pub offered : F

  -- What the audit reads of the report. An empty boot id counts as missing.
  pub record Report : Type 0 where
    pub origin_boot : Option String
    pub client_boot : Option String
    pub separate_kernel : Bool
    pub clock_uncertainty_ns : Option F
    pub churn : Bool
    pub phases : List Phase

  -- A number is there and not above a bound.
  abbrev pub exceeds : Option F → F → Bool
  exceeds none bound = true
  exceeds (some x) bound = is_below bound x

  -- `{phase["label"]: phase for phase in phases}`: the last phase with a label stands for it.
  abbrev pub phase_of : String → List Phase → Option Phase
  phase_of l [] = none
  phase_of l (p ∷ ps) =
      let earlier = if same_text p.label (some l) then some p else none in
      or_earlier (phase_of l ps) earlier
    where
      or_earlier : Option Phase → Option Phase → Option Phase
      or_earlier none o = o
      or_earlier (some p) o = some p

  abbrev has_label : Option String → List Phase → Bool
  has_label l [] = false
  has_label l (p ∷ ps) = same_text p.label l || has_label l ps

  abbrev pub are_unique : List Phase → Bool
  are_unique [] = true
  are_unique (p ∷ ps) = not (has_label p.label ps) && are_unique ps
