-- ===== src/Bench/AccessLog.antt =====
-- `trial` of bench/access_log.py: the audit of the log that a server has written.
pub mod Commands
pub mod Trial
pub mod Tests
use zhtps.Common.{
  ℕ, suc, ◌+◌, ◌-◌, ◌≤◌, ◌≡◌, ◌↔◌, ◌⊎◌, inl, inr, refl, Bool, Bool-cases, true, false, not, ◌&&◌,
  ◌||◌, List, [], ◌∷◌, ltb, ◌==◌, ==_iff, if◌then◌else◌, Result, ok, err, runtime_error, require,
  ◌>>=◌, ◌>>◌, require-eq-ok, >>=-eq-ok, ok-injective, arith, All, subst, length, sym, ◌∙◌, ap,
}

-- One line of the log: is it a completed request of the measuring client, and what is checked of it:
-- `is_get` says that its method is GET, `has_obsolete` that it has a request or a connection, and
-- `has_integers` that worker, conn_gen and conn_slot are integers.
pub record Line : Type 0 where
  pub is_access : Bool
  pub status : ℕ
  pub is_get : Bool
  pub bytes : ℕ
  pub has_obsolete : Bool
  pub has_integers : Bool

-- The loop over the lines, with the number of access records.
unfoldable pub count_records : List Line → Result ℕ
count_records [] = ok 0
count_records (l ∷ ls) =
    let rest = count_records ls in
    let counted = (do
      require (l.status == 200 && l.is_get && l.bytes == 6)
          (runtime_error "incorrect access record")
      require (not l.has_obsolete) (runtime_error "obsolete access fields")
      require l.has_integers (runtime_error "noninteger field")
      n ← rest
      ok (suc n)) in
    if l.is_access then counted else rest

abbrev pub expected_records : Bool → ℕ → ℕ
expected_records logging expected = if logging then expected else 0

-- What the audit says of the log.
pub record LogReport : Type 0 where
  pub records : ℕ
  pub access_records : ℕ
  pub dropped : ℕ
  pub write_errors : ℕ
  pub is_complete : Bool

-- From the log and the metrics to the report; `expected` is the number of validated responses, of the
-- warm-up and the measured run together.
unfoldable pub audit_log : Bool → ℕ → ℕ → ℕ → List Line → Result LogReport
unfolding count_records
audit_log logging expected dropped errors lines = do
  n ← count_records lines
  require (not (ltb expected n || (not logging && not (n == 0))))
      (runtime_error "incorrect number of access records")
  require (not (logging && ltb n expected && ltb dropped (expected - n)))
      (runtime_error "missing access records not accounted for by dropped logs")
  ok (record {
    records = length lines;
    access_records = n;
    dropped = dropped;
    write_errors = errors;
    is_complete = n == expected_records logging expected && (dropped == errors && errors == 0);
  })

abbrev pub accesses : List Line → ℕ
accesses [] = 0
accesses (l ∷ ls) = (if l.is_access then 1 else 0) + accesses ls

-- A record of the measuring client is as it should be.
abbrev pub IsCorrect : Line → Type 0
IsCorrect l =
    l.is_access ≡ true
    → (l.status ≡ 200)
      × (l.is_get ≡ true)
      × (l.bytes ≡ 6)
      × (l.has_obsolete ≡ false)
      × (l.has_integers ≡ true)

count_records_sound :
    (ls : List Line) (n : ℕ) → count_records ls ≡ ok n → (n ≡ accesses ls) × All IsCorrect ls
unfolding count_records
count_records_sound [] n h = (ground arith, tt)
count_records_sound (l ∷ ls) n h = elim (Bool-cases l.is_access) [
  | inl access ↦
      let (fields, h1) =
        require-eq-ok (l.status == 200 && l.is_get && l.bytes == 6) _ _ (rw access at h) in
      let (current, h2) = require-eq-ok (not l.has_obsolete) _ _ h1 in
      let (integers, h3) = require-eq-ok l.has_integers _ _ h2 in
      let (m, counted, last) = >>=-eq-ok (count_records ls) (λ k. ok (suc k)) h3 in
      let (same, correct) = count_records_sound ls m counted in
      let next : suc m ≡ n = ok-injective last in
      (
        rw access (omega arith),
        ((λ _. ground (arith, ==_iff l.status 200, ==_iff l.bytes 6)), correct),
      )
  | inr no_access ↦
      let (same, correct) = count_records_sound ls n (rw no_access at h) in
      (rw no_access (omega arith), ((λ access. cc), correct))
]

pub audit_log_sound :
    (logging : Bool) (expected dropped errors : ℕ) (ls : List Line) (r : LogReport)
    → audit_log logging expected dropped errors ls ≡ ok r
    → All IsCorrect ls
      × (r.access_records ≡ accesses ls)
      × (accesses ls ≤ expected_records logging expected)
      × (expected_records logging expected ≤ accesses ls + dropped)
      × ((r.is_complete ≡ true)
          ↔ ((accesses ls ≡ expected_records logging expected) × (dropped ≡ 0) × (errors ≡ 0)))
unfolding audit_log
audit_log_sound logging expected dropped errors ls r h =
    let (n, counted, h1) = >>=-eq-ok (count_records ls) _ h in
    let (no_more, h2) =
      require-eq-ok (not (ltb expected n || (not logging && not (n == 0)))) _ _ h1 in
    let (accounted, last) =
      require-eq-ok (not (logging && ltb n expected && ltb dropped (expected - n))) _ _ h2 in
    let (same, correct) = count_records_sound ls n counted in
    subst
      (λ x.
        All IsCorrect ls
        × (x.access_records ≡ accesses ls)
        × (accesses ls ≤ expected_records logging expected)
        × (expected_records logging expected ≤ accesses ls + dropped)
        × ((x.is_complete ≡ true)
            ↔ ((accesses ls ≡ expected_records logging expected) × (dropped ≡ 0) × (errors ≡ 0))))
      (ok-injective last)
      (
        correct,
        same,
        ground (arith, ==_iff n 0),
        ground (arith, ==_iff n 0),
        ground (
          arith,
          ==_iff n (expected_records logging expected),
          ==_iff dropped errors,
          ==_iff errors 0,
        ),
      )

count_records_complete : (ls : List Line) → All IsCorrect ls → count_records ls ≡ ok (accesses ls)
unfolding count_records
count_records_complete [] correct = refl
count_records_complete (l ∷ ls) (first, correct) =
    let counted = count_records_complete ls correct in
    elim (Bool-cases l.is_access) [
      | inl access ↦
          let (status, method, bytes, current, integers) = first access in
          rw (access, status, method, bytes, current, integers, counted) (ground arith)
      | inr no_access ↦ rw (no_access, counted) (ground arith)
    ]

audit_log_complete :
    (logging : Bool) (expected dropped errors : ℕ) (ls : List Line)
    → All IsCorrect ls
    → accesses ls ≤ expected_records logging expected
    → expected_records logging expected ≤ accesses ls + dropped
    → audit_log logging expected dropped errors ls
      ≡ ok (record {
        records = length ls;
        access_records = accesses ls;
        dropped = dropped;
        write_errors = errors;
        is_complete =
            accesses ls == expected_records logging expected && (dropped == errors && errors == 0);
      })
unfolding audit_log
audit_log_complete logging expected dropped errors ls correct no_more accounted =
    let no_extra : not (ltb expected (accesses ls) || (not logging && not (accesses ls == 0)))
        ≡ true =
      ground (arith, ==_iff (accesses ls) 0) in
    let all_dropped : not
          (logging && ltb (accesses ls) expected && ltb dropped (expected - accesses ls))
        ≡ true =
      ground (arith) in
    rw (count_records_complete ls correct, no_extra, all_dropped) refl

-- The audit reports on a log exactly if each record of the measuring client is correct, there are no more of
-- them than validated responses, none without logging, and with logging the dropped ones account for all that are
-- missing; the report counts the lines and these records, gives both counters, and is complete if no record is
-- missing, none was dropped and no write failed.
pub audit_log_iff :
    (logging : Bool) (expected dropped errors : ℕ) (ls : List Line) (r : LogReport)
    → (audit_log logging expected dropped errors ls ≡ ok r) ↔ (
        All IsCorrect ls
        × (accesses ls ≤ expected_records logging expected)
        × (expected_records logging expected ≤ accesses ls + dropped)
        × (r ≡ record {
          records = length ls;
          access_records = accesses ls;
          dropped = dropped;
          write_errors = errors;
          is_complete =
              accesses ls == expected_records logging expected
              && (dropped == errors && errors == 0);
        }))
audit_log_iff logging expected dropped errors ls r =
    let reported = audit_log_complete logging expected dropped errors ls in
    (
      λ h.
          let (correct, same, no_more, accounted, complete) =
            audit_log_sound logging expected dropped errors ls r h in
          (correct, no_more, accounted, ok-injective (sym h ∙ reported correct no_more accounted)),
      λ (correct, no_more, accounted, e). reported correct no_more accounted ∙ ap ok (sym e),
    )
