-- ===== src/Bench/Overload/Recorded.antt =====
-- What the samples and the phases of a run of bench/overload.py are taken from.
use zhtps.Common.{
  ◌≡◌, ◌⊎◌, inl, inr, refl, sym, ap, subst, Bool, Bool-cases, true, false, List, [], ◌∷◌, map,
  Option, none, some, String, ◌==◌, ==_iff, length, Result, ok, err, Error, ◌>>=◌, require-eq-ok,
  >>=-eq-ok, ok-injective, ℤ, pos, ◌+ℤ◌, eqb_ℤ, eqb_ℤ_iff, arith,
}
use zhtps.Bench.Floats.{Floats}
use zhtps.Bench.SummarizeOverload.{Counters, Sample, Load}
use zhtps.Bench.SummarizeOverload.Accounts.{Matches}
use zhtps.Bench.Overload.Loops.{
  Tick, sampling, sample_of, after_sample, is_admin_failure, Ending, remote_end, local_end, shift,
  phases_of,
}
use zhtps.Bench.Overload.Report.{split_text, relabel, labelled}

module _ (N : Floats) where
  -- The sample of a round has what was read, and the counters, or the mark of an admin error if the
  -- connection failed; the server had not left.
  abbrev pub Records : Tick N → Sample N → Type 0
  Records t s =
      (read : Sample N) × (t.reading ≡ ok read)
      × (t.has_left ≡ false)
      × (((c : Counters) × (t.metrics ≡ ok c)
            × (s ≡ record read { counters = some c; admin_error = false }))
          ⊎ ((e : Error) × (t.metrics ≡ err e)
              × (is_admin_failure e ≡ true)
              × (s ≡ record read { counters = none; admin_error = true })))

  sample_of-Records :
      (read s : Sample N) (m : Result Counters)
      → sample_of N read m ≡ ok s
      → ((c : Counters) × (m ≡ ok c) × (s ≡ record read { counters = some c; admin_error = false }))
        ⊎ ((e : Error) × (m ≡ err e)
            × (is_admin_failure e ≡ true)
            × (s ≡ record read { counters = none; admin_error = true }))
  sample_of-Records read s (ok c) h = inl (c, refl, sym (ok-injective h))
  sample_of-Records read s (err e) h = elim (Bool-cases (is_admin_failure e)) [
    | inl known ↦ inr (e, refl, known, sym (ok-injective (rw known at h)))
    | inr unknown ↦ let fails = rw unknown at h in cc fails
  ]

  after_sample-eq-ok :
      (m : Result (Sample N)) (left : Bool) (rest : List (Sample N) × Result (Unit {0}))
      (samples : List (Sample N))
      → after_sample N m left rest ≡ (samples, ok tt)
      → (s : Sample N) × (m ≡ ok s) × (left ≡ false) × (samples ≡ s ∷ rest.0) × (rest.1 ≡ ok tt)
  after_sample-eq-ok (err e) left rest samples h = cc (ap (λ x. x.1) h)
  after_sample-eq-ok (ok s) true rest samples h = cc (ap (λ x. x.1) h)
  after_sample-eq-ok (ok s) false (more, r) samples h =
      (s, refl, refl, sym (ap (λ x. x.0) h), ap (λ x. x.1) h)

  pub sampling-Records :
      (ts : List (Tick N)) (samples : List (Sample N))
      → sampling N ts ≡ (samples, ok tt)
      → Matches Records ts samples
  unfolding sampling
  sampling-Records [] samples h = subst (Matches Records []) (ap (λ x. x.0) h) tt
  sampling-Records (t ∷ ts) samples h =
      let (s, given, stays, cons, went) =
        after_sample-eq-ok (t.reading >>= λ read. sample_of N read t.metrics) t.has_left
          (sampling N ts) samples h in
      let (read, found, marked) = >>=-eq-ok t.reading (λ read. sample_of N read t.metrics) given in
      let rest = sampling-Records ts (sampling N ts).0 (ap (λ r. ((sampling N ts).0, r)) went) in
      subst (Matches Records (t ∷ ts)) (sym cons)
        ((read, found, stays, sample_of-Records read s t.metrics marked), rest)

  -- The end of the client: it left with 0, and these are its phases and the offset of its clock.
  abbrev pub Ends : Ending N → List (Load N) → ℤ → Type 0
  Ends (remote_end collected code phases apart) raw offset =
      (collected ≡ ok tt) × (code ≡ pos 0) × (phases ≡ ok raw) × (offset ≡ apart)
  Ends (local_end code log phases) raw offset =
      (code ≡ pos 0) × (phases ≡ ok raw) × (offset ≡ pos 0)

  add-zero : (x : ℤ) → x +ℤ pos 0 ≡ x
  add-zero x = ground arith

  map-shift_zero : (ps : List (Load N)) → map (shift N (pos 0)) ps ≡ ps
  map-shift_zero [] = refl
  map-shift_zero (p ∷ ps) = rw (add-zero p.start_unix_ns, add-zero p.end_unix_ns, map-shift_zero ps)

  pub phases_of-Ends :
      (ending : Ending N) (ps : List (Load N))
      → phases_of N ending ≡ ok ps
      → (raw : List (Load N)) × (offset : ℤ) × Ends ending raw offset
        × (map (shift N offset) raw ≡ ps)
  phases_of-Ends (remote_end collected code phases apart) ps h =
      let (t, gathered, h1) = >>=-eq-ok collected _ h in
      let (left, h2) = require-eq-ok (eqb_ℤ code (pos 0)) _ _ h1 in
      let (raw, found, last) = >>=-eq-ok phases (λ qs. ok (map (shift N apart) qs)) h2 in
      (raw, apart, (gathered, (eqb_ℤ_iff code (pos 0)).0 left, found, refl), ok-injective last)
  phases_of-Ends (local_end code log phases) ps h =
      let (left, found) = require-eq-ok (eqb_ℤ code (pos 0)) _ phases h in
      (ps, pos 0, ((eqb_ℤ_iff code (pos 0)).0 left, found, refl), map-shift_zero ps)

  -- A phase is the same but for its label.
  abbrev pub Relabels : Load N → Load N → Type 0
  Relabels p q = q ≡ record p { label = q.label }

  -- A phase of the report is the client's but for its label, and for its start and its end, which are both
  -- later by the offset.
  abbrev pub Moves : ℤ → Load N → Load N → Type 0
  Moves offset p q = q ≡ record p {
    label = q.label;
    start_unix_ns = p.start_unix_ns +ℤ offset;
    end_unix_ns = p.end_unix_ns +ℤ offset;
  }

  pub shift-Moves :
      (offset : ℤ) (raw ps : List (Load N))
      → Matches Relabels (map (shift N offset) raw) ps
      → Matches (Moves offset) raw ps
  shift-Moves offset [] [] m = tt
  shift-Moves offset [] (q ∷ qs) m = absurd m
  shift-Moves offset (p ∷ raw) [] m = absurd m
  shift-Moves offset (p ∷ raw) (q ∷ qs) (same, rest) = (same, shift-Moves offset raw qs rest)

  -- With labels given, the phases have these.
  abbrev pub Named : Option String → List (Load N) → Type 0
  Named none ps = Unit
  Named (some String.[]) ps = Unit
  Named (some (String.◌∷◌ c s)) ps =
      map (λ (p : Load N). p.label) ps ≡ map some (split_text (String.◌∷◌ c s))

  same-Relabels : (ps : List (Load N)) → Matches Relabels ps ps
  same-Relabels [] = tt
  same-Relabels (p ∷ ps) = (refl, same-Relabels ps)

  relabel-Relabels :
      (ps : List (Load N)) (ls : List String)
      → length ls ≡ length ps
      → Matches Relabels ps (relabel N ps ls)
  relabel-Relabels [] ls h = tt
  relabel-Relabels (p ∷ ps) [] h = absurd (omega arith)
  relabel-Relabels (p ∷ ps) (l ∷ ls) h = (refl, relabel-Relabels ps ls (omega arith))

  map-relabel :
      (ps : List (Load N)) (ls : List String)
      → length ls ≡ length ps
      → map (λ (p : Load N). p.label) (relabel N ps ls) ≡ map some ls
  map-relabel [] [] h = refl
  map-relabel [] (l ∷ ls) h = absurd (omega arith)
  map-relabel (p ∷ ps) [] h = absurd (omega arith)
  map-relabel (p ∷ ps) (l ∷ ls) h = rw (map-relabel ps ls (omega arith))

  pub labelled-Named :
      (labels : Option String) (ps qs : List (Load N))
      → labelled N labels ps ≡ ok qs
      → Matches Relabels ps qs × Named labels qs
  labelled-Named none ps qs h =
      subst (λ x. Matches Relabels ps x × Unit {0}) (ok-injective h) (same-Relabels ps, tt)
  labelled-Named (some String.[]) ps qs h =
      subst (λ x. Matches Relabels ps x × Unit {0}) (ok-injective h) (same-Relabels ps, tt)
  labelled-Named (some (String.◌∷◌ c s)) ps qs h =
      let ls = split_text (String.◌∷◌ c s) in
      let (counted, last) = require-eq-ok (length ls == length ps) _ _ h in
      let same : length ls ≡ length ps = (==_iff (length ls) (length ps)).0 counted in
      subst (λ x. Matches Relabels ps x × Named (some (String.◌∷◌ c s)) x) (ok-injective last)
        (relabel-Relabels ps ls same, map-relabel ps ls same)
