-- ===== src/Bench/Compare/Summarized.antt =====
-- The summary of bench/compare.py stands for all the trials.
use zhtps.Common.{
  ℕ, suc, zero, ◌*◌, ◌≤◌, ◌<◌, ◌≡◌, refl, subst, ◌∙◌, Bool, true, List, [], ◌∷◌, All, length,
  if◌then◌else◌, Result, ok, map_result, ℤ, pos, negsuc, eqb_ℤ, eqb_ℤ_iff, between, arith,
}
use zhtps.Bench.Floats.{Floats}
use zhtps.Bench.SummarizeOverload.Accounts.{Matches, map_result-Matches}
use zhtps.Bench.Rotation.{trials}
use zhtps.Bench.Rotation.Balance.{count, trials-count}
use zhtps.Bench.Compare.{
  Variant, zig_debug, zig_release_safe, go, same_variant, Options, as_count, check_sizes,
}
use zhtps.Bench.Compare.Trial.{Load, Outside, Trial, load_of, is_beyond, run_one}
use zhtps.Bench.Compare.Outcomes.{accepted_sizes, run_one-IsOutcome}
use zhtps.Bench.Compare.Summary.{
  group_of, Row, row_of, pairs, with_variants, summarize, run_all, compare_variants,
}
use zhtps.Bench.Compare.Groups.{Goes, outcome-Goes, length-group_of, group_of-All, IsRow, group_row}

-- A fallible function that returns on every element returns on the list.
map_result-total {ℓ κ} :
    {A : Type ℓ} {B : Type κ} (R : A → B → Type 0) (f : A → Result B) (xs : List A)
    → All (λ x. (y : B) × (f x ≡ ok y) × R x y) xs
    → (ys : List B) × (map_result f xs ≡ ok ys) × Matches R xs ys
map_result-total R f [] _ = ([], refl, tt)
map_result-total R f (x ∷ xs) ((y, given, r), rest) =
    let (ys, all_given, rs) = map_result-total R f xs rest in
    (y ∷ ys, rw (given, all_given) refl, (r, rs))

-- Each element of a list is counted among its elements.
self_counts {ℓ} :
    {A : Type ℓ} (eq : A → A → Bool)
    → ((a : A) → eq a a ≡ true)
    → (xs ys : List A) → ((p : A → Bool) → count p ys ≤ count p xs)
    → All (λ x. 0 < count (λ a. eq a x) xs) ys
self_counts eq reflexive xs [] sub = tt
self_counts eq reflexive xs (y ∷ ys) sub =
    let here : (if eq y y then 1 else 0) ≡ (let n : ℕ = 1 in n) = rw (reflexive y) in
    let counted = sub (λ a. eq a y) in
    (omega arith, self_counts eq reflexive xs ys (λ p. let more = sub p in omega arith))

same_variant_refl : (v : Variant) → same_variant v v ≡ true
same_variant_refl zig_debug = refl
same_variant_refl zig_release_safe = refl
same_variant_refl go = refl

eqb_refl : (c : ℤ) → eqb_ℤ c c ≡ true
eqb_refl c = (eqb_ℤ_iff c c).1 refl

module _ (N : Floats) (o : Options N) where
  -- So many trials there are of a pair.
  abbrev pub trials_of : ℤ → Variant → ℕ
  trials_of c v =
      as_count o.repeats
      * (count (λ d. eqb_ℤ d c) o.connections * count (λ w. same_variant w v) o.variants)

  abbrev pub IsRowOf : ℤ × Variant → Row N → Type 0
  IsRowOf (c, v) = IsRow N o c v (trials_of c v)

  positive_product : (a b c : ℕ) → 0 < a → 0 < b → 0 < c → 0 < a * (b * c)
  positive_product (suc a) (suc b) (suc c) h k l = grind arith
  positive_product zero b c h k l = absurd (omega arith)
  positive_product (suc a) zero c h k l = absurd (omega arith)
  positive_product (suc a) (suc b) zero h k l = absurd (omega arith)

  module _ (runs : List (Trial N))
      (m : Matches (Goes N o) (trials (as_count o.repeats) 0 o.connections o.variants) runs)
      (repeated : 0 < as_count o.repeats) where
    row_total :
        (c : ℤ) (v : Variant)
        → 0 < count (λ d. eqb_ℤ d c) o.connections
        → 0 < count (λ w. same_variant w v) o.variants
        → (row : Row N) × (row_of N runs (c, v) ≡ ok row) × IsRowOf (c, v) row
    unfolding row_of
    row_total c v some_c some_v =
        let ts = trials (as_count o.repeats) 0 o.connections o.variants in
        let g = group_of N c v runs in
        let counted : length g ≡ trials_of c v =
          length-group_of N o c v ts runs m
          ∙ trials-count (λ d. eqb_ℤ d c) (λ w. same_variant w v) (as_count o.repeats) 0
              o.connections o.variants in
        let some_there =
          positive_product (as_count o.repeats) (count (λ d. eqb_ℤ d c) o.connections)
            (count (λ w. same_variant w v) o.variants) repeated some_c some_v in
        let (row, given, is_row) =
          group_row N o c v g (is_beyond N o v c) refl (omega arith)
            (group_of-All N o c v ts runs m) in
        (row, given, subst (λ n. IsRow N o c v n row) counted is_row)

    abbrev RowIsThere : ℤ × Variant → Type 0
    RowIsThere pair = (row : Row N) × (row_of N runs pair ≡ ok row) × IsRowOf pair row

    variants_there :
        (c : ℤ) (vs : List Variant) (more : List (ℤ × Variant))
        → 0 < count (λ d. eqb_ℤ d c) o.connections
        → All (λ v. 0 < count (λ w. same_variant w v) o.variants) vs
        → All RowIsThere more
        → All RowIsThere (with_variants N c vs more)
    variants_there c [] more some_c _ rest = rest
    variants_there c (v ∷ vs) more some_c (some_v, some_vs) rest =
        (row_total c v some_c some_v, variants_there c vs more some_c some_vs rest)

    pairs_there :
        (cs : List ℤ)
        → All (λ c. 0 < count (λ d. eqb_ℤ d c) o.connections) cs
        → All RowIsThere (pairs N cs o.variants)
    pairs_there [] _ = tt
    pairs_there (c ∷ cs) (some_c, some_cs) =
        variants_there c o.variants (pairs N cs o.variants) some_c
          (self_counts same_variant same_variant_refl o.variants o.variants (λ p. omega arith))
          (pairs_there cs some_cs)

    summarize_total :
        (rows : List (Row N)) × (summarize N runs o.connections o.variants ≡ ok rows)
        × Matches IsRowOf (pairs N o.connections o.variants) rows
    unfolding summarize
    summarize_total = map_result-total IsRowOf (row_of N runs) (pairs N o.connections o.variants) (
        pairs_there o.connections
          (self_counts eqb_ℤ eqb_refl o.connections o.connections (λ p. omega arith)))

  run_all-Goes :
      (outside : ℕ → ℤ → Variant → Outside N) (runs : List (Trial N))
      → check_sizes N o ≡ ok tt
      → ((r : ℕ) (c : ℤ) (v : Variant) (l : Load N)
          → load_of N (outside r c v).client ≡ ok l
          → l.connections ≡ c)
      → run_all N o outside ≡ ok runs
      → Matches (Goes N o) (trials (as_count o.repeats) 0 o.connections o.variants) runs
  unfolding run_all
  run_all-Goes outside runs accepted reports h =
      map_result-Matches (Goes N o)
        (λ (t : ℕ × ℤ × Variant). run_one N o t.2 t.1 (suc t.0) (outside t.0 t.1 t.2))
        (λ (r, c, v) t e.
          outcome-Goes N o v c (suc r) (outside r c v) t r (reports r c v)
            (run_one-IsOutcome N o v c (suc r) (outside r c v) t accepted e))
        (trials (as_count o.repeats) 0 o.connections o.variants) runs h

  repeats_positive : (r : ℤ) → between 1 20 r ≡ true → 0 < as_count r
  repeats_positive (pos n) h = ground arith
  repeats_positive (negsuc n) h = absurd (ground arith)

  -- If the options are accepted, each client reports the connections that it was asked for, and all the
  -- trials return, then the summary returns too. It has one row for each number of connections and each
  -- variant, in the order of the options: unsupported exactly if the connections are beyond what the
  -- variant's server takes, and else from as many trials as there are repeats, times how often the
  -- connections and the variant are given.
  pub compare_variants-IsRowOf :
      (outside : ℕ → ℤ → Variant → Outside N) (runs : List (Trial N))
      → check_sizes N o ≡ ok tt
      → ((r : ℕ) (c : ℤ) (v : Variant) (l : Load N)
          → load_of N (outside r c v).client ≡ ok l
          → l.connections ≡ c)
      → run_all N o outside ≡ ok runs
      → (rows : List (Row N)) × (compare_variants N o outside ≡ ok (runs, rows))
        × Matches IsRowOf (pairs N o.connections o.variants) rows
  unfolding compare_variants
  compare_variants-IsRowOf outside runs accepted reports h =
      let (rows, summarized, matched) =
        summarize_total runs (run_all-Goes outside runs accepted reports h)
          (repeats_positive o.repeats (accepted_sizes N o accepted).0) in
      (rows, rw (h, summarized) refl, matched)
