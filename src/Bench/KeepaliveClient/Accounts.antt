-- ===== src/Bench/KeepaliveClient/Accounts.antt =====
-- The counts in the summary of bench/keepalive_returning_client.py.
use text.Mathlib.Text.{◌==◌ as str_eq}
use zhtps.Common.{
  ℕ, suc, ◌+◌, ◌-◌, ◌*◌, ◌≤◌, ◌≡◌, ◌⊎◌, inl, inr, refl, subst, Bool, Bool-cases, true, false, List,
  [], ◌∷◌, map, String, ltb, length, ok, >>=-eq-ok, ok-injective, arith, All,
}
use zhtps.Bench.Floats.{Floats}
use zhtps.Bench.SummarizeOverload.Accounts.{Matches, map_result-Matches}
use zhtps.Bench.KeepaliveClient.{
  Reply, good, invalid, failed, Request, attempt, request, returning, successes_of, insert, sorted,
  count_opened, add_name, add_names, count_errors, quantiles, Summary, summarize,
}

-- The sum of the counts.
abbrev pub total : List (String × ℕ) → ℕ
total [] = 0
total ((k, n) ∷ more) = n + total more

-- A row of a resident: a success after one error at most, or a failure after two; it opens no more
-- connections than it makes attempts.
abbrev pub IsResident : Request → Type 0
IsResident r =
    ((r.success ≡ true) × (length r.attempts ≤ 1) × (r.connections_opened ≤ 2))
    ⊎ ((r.success ≡ false) × (length r.attempts ≡ 2) × (r.connections_opened ≤ 2))

attempt-IsResident :
    (elapsed : ℕ) (is_open : Bool) (replies : List Reply) (r : Request × Bool)
    → attempt 2 elapsed is_open [] 0 replies ≡ ok r
    → IsResident r.0
unfolding attempt
attempt-IsResident elapsed is_open [] r h = cc
attempt-IsResident elapsed is_open (invalid ∷ replies) r h = cc
attempt-IsResident elapsed is_open (good keeps ∷ replies) r h =
    subst (λ (x : Request × Bool). IsResident x.0) (ok-injective h)
      (inl (refl, omega arith, ground arith))
attempt-IsResident elapsed is_open (failed name ∷ []) r h = cc
attempt-IsResident elapsed is_open (failed name ∷ invalid ∷ replies) r h = cc
attempt-IsResident elapsed is_open (failed name ∷ good keeps ∷ replies) r h =
    subst (λ (x : Request × Bool). IsResident x.0) (ok-injective h)
      (inl (refl, omega arith, ground arith))
attempt-IsResident elapsed is_open (failed name ∷ failed again ∷ replies) r h =
    subst (λ (x : Request × Bool). IsResident x.0) (ok-injective h) (inr (refl, refl, ground arith))

total-add_name :
    (name : String) (counts : List (String × ℕ)) → total (add_name name counts) ≡ suc (total counts)
total-add_name name [] = refl
total-add_name name ((k, n) ∷ more) = elim (Bool-cases (str_eq k name)) [
  | inl same ↦ rw same (omega arith)
  | inr other ↦ rw other (omega (arith, total-add_name name more))
]

total-add_names :
    (names : List String) (counts : List (String × ℕ))
    → total (add_names names counts) ≡ length names + total counts
total-add_names [] counts = omega arith
total-add_names (name ∷ names) counts =
    omega (arith, total-add_names names (add_name name counts), total-add_name name counts)

abbrev errors_in : List Request → ℕ
errors_in [] = 0
errors_in (r ∷ rs) = length r.attempts + errors_in rs

total-count_errors :
    (rs : List Request) (counts : List (String × ℕ))
    → total (count_errors rs counts) ≡ errors_in rs + total counts
total-count_errors [] counts = omega arith
total-count_errors (r ∷ rs) counts =
    omega (
      arith,
      total-count_errors rs (add_names r.attempts counts),
      total-add_names r.attempts counts,
    )

length-insert : (x : ℕ) (ys : List ℕ) → length (insert x ys) ≡ suc (length ys)
length-insert x [] = refl
length-insert x (y ∷ ys) = elim (Bool-cases (ltb x y)) [
  | inl before ↦ rw before
  | inr after ↦ rw (after, length-insert x ys)
]

length-sorted : (xs : List ℕ) → length (sorted xs) ≡ length xs
length-sorted [] = refl
length-sorted (x ∷ xs) = omega (arith, length-insert x (sorted xs), length-sorted xs)

-- The successes and the failures among so many rows, with the errors and the openings.
record Counted (rows successes errors opened : ℕ) : Type 0 where
  within : successes ≤ rows
  at_least : 2 * (rows - successes) ≤ errors
  at_most : errors ≤ 2 * (rows - successes) + successes
  openings : opened ≤ 2 * rows

rows-Counted :
    (rs : List Request)
    → All IsResident rs
    → Counted (length rs) (length (successes_of rs)) (errors_in rs) (count_opened rs)
rows-Counted [] _ = record {
  within = omega arith;
  at_least = omega arith;
  at_most = omega arith;
  openings = omega arith;
}
rows-Counted (r ∷ rs) (inl (well, few, opened), more) =
    let c = rows-Counted rs more in
    rw well (record {
      within = omega (arith, c.within);
      at_least = omega (arith, c.within, c.at_least);
      at_most = omega (arith, c.within, c.at_most);
      openings = omega (arith, c.openings);
    })
rows-Counted (r ∷ rs) (inr (ill, two, opened), more) =
    let c = rows-Counted rs more in
    rw ill (record {
      within = omega (arith, c.within);
      at_least = omega (arith, c.within, c.at_least);
      at_most = omega (arith, c.within, c.at_most);
      openings = omega (arith, c.openings);
    })

all_residents :
    (residents : List (Bool × List Reply × ℕ)) (rows : List (Request × Bool))
    → Matches (λ (x : Bool × List Reply × ℕ) (y : Request × Bool). IsResident y.0) residents rows
    → All IsResident (map (λ (y : Request × Bool). y.0) rows)
      × (length (map (λ (y : Request × Bool). y.0) rows) ≡ length residents)
all_residents [] [] m = (tt, refl)
all_residents [] (y ∷ ys) m = absurd m
all_residents (x ∷ xs) [] m = absurd m
all_residents (x ∷ xs) (y ∷ ys) (is_one, m) =
    let (rest, counted) = all_residents xs ys m in ((is_one, rest), rw counted)

-- If a round of the residents returns and is summarized, the summary has a success or a failure for each
-- resident; the errors of their attempts are two for each failure, and beyond that no more than one for
-- each success; and they have opened no more than two connections each.
pub returning-summarized :
    (N : Floats) (residents : List (Bool × List Reply × ℕ)) (rows : List (Request × Bool))
    (s : Summary)
    → returning residents ≡ ok rows
    → summarize N (map (λ (y : Request × Bool). y.0) rows) ≡ ok s
    → (s.offered ≡ length residents)
      × (s.offered ≡ s.successes + s.failures)
      × (2 * s.failures ≤ total s.attempt_errors)
      × (total s.attempt_errors ≤ 2 * s.failures + s.successes)
      × (s.connections_opened ≤ 2 * s.offered)
unfolding returning summarize
returning-summarized N residents rows s h k =
    let rs = map (λ (y : Request × Bool). y.0) rows in
    let matched =
      map_result-Matches (λ (x : Bool × List Reply × ℕ) (y : Request × Bool). IsResident y.0)
        (λ (r : Bool × List Reply × ℕ). request true r.0 (r.1, r.2))
        (λ x y e. attempt-IsResident x.2 x.0 x.1 y e) residents rows h in
    let (are_residents, counted) = all_residents residents rows matched in
    let c = rows-Counted rs are_residents in
    let (found, _, last) = >>=-eq-ok (quantiles N (sorted (successes_of rs))) _ k in
    subst
      (λ (x : Summary).
        (x.offered ≡ length residents)
        × (x.offered ≡ x.successes + x.failures)
        × (2 * x.failures ≤ total x.attempt_errors)
        × (total x.attempt_errors ≤ 2 * x.failures + x.successes)
        × (x.connections_opened ≤ 2 * x.offered))
      (ok-injective last)
      (
        counted,
        omega (arith, length-sorted (successes_of rs), c.within),
        omega (
          arith,
          length-sorted (successes_of rs),
          total-count_errors rs [],
          c.at_least,
          c.within,
        ),
        omega
            (arith, length-sorted (successes_of rs), total-count_errors rs [], c.at_most, c.within),
        c.openings,
      )
