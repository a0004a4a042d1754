-- ===== src/Bench/Overload/Completed.antt =====
-- What a run of bench/overload.py that completes has recorded.
use text.Mathlib.TextEquality.{eq_iff}
use zhtps.Common.{
  ◌≡◌, ◌↔◌, refl, sym, subst, List, Option, none, some, String, Result, ok, err, ◌>>◌, >>=-eq-ok,
  >>-eq-ok_iff, ℤ,
}
use zhtps.Bench.Floats.{Floats}
use zhtps.Bench.SummarizeOverload.{Sample, Load}
use zhtps.Bench.SummarizeOverload.Accounts.{Matches}
use zhtps.Bench.Overload.Loops.{sampling, phases_of}
use zhtps.Bench.Overload.Report.{
  labelled, Outside, Report, start_all, finish, run, after_start, after_sampling, after_finish,
  after_last, complete,
}
use zhtps.Bench.Overload.Recorded.{
  Records, sampling-Records, Ends, phases_of-Ends, Relabels, Moves, shift-Moves, Named,
  labelled-Named,
}

module _ (N : Floats) where
  -- A report says that the run is complete exactly if nothing was raised.
  abbrev pub Fits : Report N × Result (Unit {0}) → Type 0
  Fits (r, raised) = (r.status ≡ "complete") ↔ (raised ≡ ok tt)

  failed_ne : ¬ (◌≡◌ {A = String} "failed" "complete")
  failed_ne h = cc ((eq_iff "failed" "complete").1 h)

  after_last-Fits :
      (x : Outside N) (samples : List (Sample N)) (ps : List (Load N)) (r : Result (Unit {0}))
      → Fits (after_last N x samples ps r)
  after_last-Fits x samples ps (ok t) = (λ _. refl, λ _. refl)
  after_last-Fits x samples ps (err e) = (λ h. absurd (failed_ne h), λ h. cc)

  after_finish-Fits :
      (x : Outside N) (samples : List (Sample N)) (r : Result (List (Load N)))
      → Fits (after_finish N x samples r)
  after_finish-Fits x samples (ok ps) = after_last-Fits x samples ps x.last_samples
  after_finish-Fits x samples (err e) = (λ h. absurd (failed_ne h), λ h. cc)

  module _ (labels : Option String) (x : Outside N) where
    after_sampling-Fits :
        (r : List (Sample N) × Result (Unit {0})) → Fits (after_sampling N labels x r)
    after_sampling-Fits (samples, ok t) = after_finish-Fits x samples (finish N labels x)
    after_sampling-Fits (samples, err e) = (λ h. absurd (failed_ne h), λ h. cc)

    after_start-Fits : (r : Result (Unit {0})) → Fits (after_start N labels x r)
    after_start-Fits (ok t) = after_sampling-Fits (sampling N x.ticks)
    after_start-Fits (err e) = (λ h. absurd (failed_ne h), λ h. cc)

    pub run-Fits : Fits (run N labels x)
    unfolding run
    run-Fits = after_start-Fits (x.spawned >> start_all N x)

    -- What a completed run has in its report.
    pub record Completed (r : Report N) : Type 0 where
      pub no_error : r.error ≡ none
      pub sampled : Matches (Records N) x.ticks r.samples
      pub raw : List (Load N)
      pub offset : ℤ
      pub ended : Ends N x.ending raw offset
      pub phases : List (Load N)
      pub reported : r.phases ≡ some phases
      pub moved : Matches (Moves N offset) raw phases
      pub named : Named N labels phases
      pub after : r.kernel_after ≡ some x.kernel_after
      pub exit : r.server_exit ≡ some x.exit_code

    finish-parts :
        (ps : List (Load N))
        → finish N labels x ≡ ok ps
        → (raw : List (Load N)) × (offset : ℤ) × Ends N x.ending raw offset
          × Matches (Moves N offset) raw ps
          × Named N labels ps
    unfolding finish
    finish-parts ps h =
        let (qs, own, given) = >>=-eq-ok (phases_of N x.ending) (λ qs. labelled N labels qs) h in
        let (raw, offset, ends, shifted) = phases_of-Ends N x.ending qs own in
        let (same, names) = labelled-Named N labels qs ps given in
        (
          raw,
          offset,
          ends,
          shift-Moves N offset raw ps (subst (λ us. Matches (Relabels N) us ps) (sym shifted) same),
          names,
        )

    complete-Completed :
        (samples : List (Sample N)) (ps : List (Load N))
        → x.spawned ≡ ok tt
        → sampling N x.ticks ≡ (samples, ok tt)
        → finish N labels x ≡ ok ps
        → Completed (complete N x samples ps).0
    complete-Completed samples ps spawned sampled done =
        let (raw, offset, ends, same, names) = finish-parts ps done in
        record {
          no_error = refl;
          sampled = sampling-Records N x.ticks samples sampled;
          raw = raw;
          offset = offset;
          ended = ends;
          phases = ps;
          reported = refl;
          moved = same;
          named = names;
          after = refl;
          exit = rw spawned;
        }

    after_last-Completed :
        (samples : List (Sample N)) (ps : List (Load N)) (r : Result (Unit {0}))
        → x.spawned ≡ ok tt
        → sampling N x.ticks ≡ (samples, ok tt)
        → finish N labels x ≡ ok ps
        → (after_last N x samples ps r).1 ≡ ok tt
        → Completed (after_last N x samples ps r).0
    after_last-Completed samples ps (ok t) spawned sampled done h =
        complete-Completed samples ps spawned sampled done
    after_last-Completed samples ps (err e) spawned sampled done h = cc

    after_finish-Completed :
        (samples : List (Sample N)) (m : Result (List (Load N)))
        → x.spawned ≡ ok tt
        → sampling N x.ticks ≡ (samples, ok tt)
        → finish N labels x ≡ m
        → (after_finish N x samples m).1 ≡ ok tt
        → Completed (after_finish N x samples m).0
    after_finish-Completed samples (ok ps) spawned sampled done h =
        after_last-Completed samples ps x.last_samples spawned sampled done h
    after_finish-Completed samples (err e) spawned sampled done h = cc

    after_sampling-Completed :
        (r : List (Sample N) × Result (Unit {0}))
        → x.spawned ≡ ok tt
        → sampling N x.ticks ≡ r
        → (after_sampling N labels x r).1 ≡ ok tt
        → Completed (after_sampling N labels x r).0
    after_sampling-Completed (samples, ok t) spawned sampled h =
        after_finish-Completed samples (finish N labels x) spawned sampled refl h
    after_sampling-Completed (samples, err e) spawned sampled h = cc

    after_start-Completed :
        (m : Result (Unit {0}))
        → (m ≡ ok tt → x.spawned ≡ ok tt)
        → (after_start N labels x m).1 ≡ ok tt
        → Completed (after_start N labels x m).0
    after_start-Completed (ok t) spawned h =
        after_sampling-Completed (sampling N x.ticks) (spawned refl) refl h
    after_start-Completed (err e) spawned h = cc

    -- The report says that the run is complete exactly if the run raises nothing. In that case it names no
    -- error and has the kernel's counters after the run and the exit code of the server; its samples are
    -- those of the rounds in their order, each with what was read and either the counters or the mark of
    -- an admin error if the connection failed, the server never having left; the client left with 0; and
    -- the report's phases are those of the client, each with its start and its end later by its clock's
    -- offset if it ran on another host, with the given labels in their order, of which there are as many.
    pub run-Completed :
        (((run N labels x).0.status ≡ "complete") ↔ ((run N labels x).1 ≡ ok tt))
        × ((run N labels x).1 ≡ ok tt → Completed (run N labels x).0)
    unfolding run
    run-Completed = (
      run-Fits,
      λ h.
          after_start-Completed (x.spawned >> start_all N x)
            (λ e. ((>>-eq-ok_iff x.spawned (start_all N x) tt).0 e).0) h,
    )
