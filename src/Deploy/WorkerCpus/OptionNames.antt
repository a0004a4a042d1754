-- ===== src/Deploy/WorkerCpus/OptionNames.antt =====
-- The server arguments that `launch_arguments` of deploy/worker_cpus.py refuses, described by their text.
use zhtps.Common.{
  sym, ap, ◌∙◌, all, not, and-eq-true, ℕ, ◌≡◌, ◌↔◌, ◌⊎◌, inl, inr, refl, Bool, Bool-cases, true,
  false, ◌||◌, List, [], ◌∷◌, String, codes, ◌==◌, ==_iff, All, arith,
}
use zhtps.Deploy.WorkerCpus.Launch.{is_text, option_name, sets_mapping}

-- The text is the name, or goes on after it with an equals sign.
abbrev pub Names : List ℕ → List ℕ → Type 0
Names [] [] = Unit
Names [] (c ∷ s) = c ≡ b'='
Names (x ∷ name) [] = ⊥
Names (x ∷ name) (c ∷ s) = (c ≡ x) × Names name s

-- The argument gives the option `--workers` or `--worker-cpus`.
abbrev pub SetsMapping : String → Type 0
SetsMapping argument =
    Names (codes "--workers") (codes argument) ⊎ Names (codes "--worker-cpus") (codes argument)

option_name_iff :
    (name s : List ℕ)
    → All (λ x. (x == b'=') ≡ false) name
    → (is_text (option_name s) name ≡ true) ↔ Names name s
option_name_iff [] [] plain = (λ _. tt, λ _. refl)
option_name_iff [] (c ∷ s) plain = ground (arith, ==_iff c b'=')
option_name_iff (x ∷ name) [] plain = (λ h. cc, λ h. absurd h)
option_name_iff (x ∷ name) (c ∷ s) (first, plain) = elim (Bool-cases (c == b'=')) [
  | inl equals ↦
      let same : c ≡ b'=' = (==_iff c b'=').0 equals in
      rw equals (λ h. cc, λ (e, _). cc (sym first ∙ ap (λ y. y == b'=') (sym e) ∙ equals))
  | inr other ↦
      let rest = option_name_iff name s plain in
      rw other (
        λ h.
            let (same, more) = and-eq-true (c == x) (is_text (option_name s) name) h in
            ((==_iff c x).0 same, rest.0 more),
        λ (e, named). rw ((==_iff c x).1 e, rest.1 named) refl,
      )
]

all_plain :
    (name : List ℕ) → all (λ x. not (x == b'=')) name ≡ true → All (λ x. (x == b'=') ≡ false) name
all_plain [] h = tt
all_plain (x ∷ name) h =
    let (first, rest) = and-eq-true (not (x == b'=')) (all (λ y. not (y == b'=')) name) h in
    (ground arith, all_plain name rest)

neither : (a b : Bool) → (a ≡ true → ⊥) → (b ≡ true → ⊥) → (a || b) ≡ false
neither true b no_a no_b = absurd (no_a refl)
neither false true no_a no_b = absurd (no_b refl)
neither false false no_a no_b = refl

-- An argument sets the mapping exactly if its text is one of the two names, or goes on with an equals sign.
pub sets_mapping_iff :
    (argument : String) → (sets_mapping argument ≡ false) ↔ (¬ SetsMapping argument)
unfolding sets_mapping
sets_mapping_iff argument =
    let workers =
      option_name_iff (codes "--workers") (codes argument) (all_plain (codes "--workers") refl) in
    let cpus =
      option_name_iff (codes "--worker-cpus") (codes argument)
        (all_plain (codes "--worker-cpus") refl) in
    (
      λ h given. elim given [
        | inl named ↦ ground (arith, workers.1 named)
        | inr named ↦ ground (arith, cpus.1 named)
      ],
      λ free. neither _ _ (λ h. free (inl (workers.0 h))) (λ h. free (inr (cpus.0 h))),
    )
