-- ===== src/Bench/RemoteLoad/Agent/Supervise.antt =====
-- The events of one run of the load client, and their number, in `agent` of bench/remote_load.py.
use text.Mathlib.TextLemmas.{append-eq-nil_iff}
use zhtps.Common.{
  length-append, str, ◌>>=◌, value_error, os_error, timeout_error, runtime_error, key_error,
  index_error, zero_division_error, assertion_error, http_exception, usage_error, out_of_fuel,
  eqb_ℤ, pos, ℕ, ◌+◌, ◌-◌, ◌*◌, ◌≤◌, ◌<◌, ◌≡◌, ◌≢◌, ◌⊎◌, inl, inr, refl, sym, ap, ◌∙◌, Bool,
  Bool-cases, true, false, List, [], ◌∷◌, ◌++◌, map, append_assoc, ltb, leb, length, String, ◌<>◌,
  Result, ok, err, Error, repr, arith,
}
use zhtps.Json.{Json}
use zhtps.Bench.RemoteLoad.Events.{Event, sample, result, error, eof}
use zhtps.Bench.RemoteLoad.Collector.Trace.{
  Ending, done, failed, closed, trace, ending_events, IsMessage,
}
use zhtps.Bench.RemoteLoad.Agent.{
  RunCommand, Round, Sampling, taken, ended, raised, Finish, supervise, conclude, or_error,
  end_of_run, run_client, heartbeat, after_sample,
}

-- The test that a round fails, if it fails one.
abbrev Samples : List Event × Result (Unit {0}) → Type 0
Samples r = (xs : List Json) × (r.0 ≡ map sample xs)

after_sample-Samples :
    (s : Sampling) (rest : List Event × Result (Unit {0}))
    → Samples rest
    → Samples (after_sample s rest)
after_sample-Samples (taken v) rest (xs, e) = (v ∷ xs, ap (λ l. sample v ∷ l) e)
after_sample-Samples ended rest h = ([], refl)
after_sample-Samples (raised e) rest h = ([], refl)

supervise-Samples : (limit deadline : ℕ) (rs : List Round) → Samples (supervise limit deadline rs)
unfolding supervise
supervise-Samples limit deadline [] = ([], refl)
supervise-Samples limit deadline (r ∷ rs) = elim (Bool-cases r.is_stopping) [
  | inl stopping ↦ rw stopping ([], refl)
  | inr going ↦ elim (Bool-cases (ltb limit (r.now - r.last_contact))) [
    | inl silent ↦ rw (going, silent) ([], refl)
    | inr heard ↦ elim (Bool-cases (leb deadline r.later)) [
      | inl late ↦ rw (going, heard, late) ([], refl)
      | inr early ↦
          rw (going, heard, early)
            (after_sample-Samples r.sampling (supervise limit deadline rs)
              (supervise-Samples limit deadline rs))
    ]
  ]
]

is_written : String → Bool
is_written String.[] = false
is_written (String.◌∷◌ _ _) = true

written : (start text : String) → is_written start ≡ true → (start <> text) ≢ ""
unfolding is_written
written start text h e = cc (sym h ∙ ap is_written (append-eq-nil_iff.0 e).0)

pub repr-written : (e : Error) → repr e ≢ ""
unfolding is_written
repr-written (value_error text) = written "ValueError('" (text <> "')") refl
repr-written (os_error text) = written "OSError('" (text <> "')") refl
repr-written (timeout_error text) = written "TimeoutError('" (text <> "')") refl
repr-written (runtime_error text) = written "RuntimeError('" (text <> "')") refl
repr-written (key_error text) = written "KeyError('" (text <> "')") refl
repr-written (index_error text) = written "IndexError('" (text <> "')") refl
repr-written (zero_division_error text) = written "ZeroDivisionError('" (text <> "')") refl
repr-written (assertion_error String.[]) = written "AssertionError()" "" refl
repr-written (assertion_error (String.◌∷◌ c text)) =
    written "AssertionError('" (String.◌∷◌ c text <> "')") refl
repr-written (http_exception text) = written "HTTPException('" (text <> "')") refl
repr-written (usage_error text) = written "SystemExit('" (text <> "')") refl
repr-written out_of_fuel = written "OutOfFuel()" "" refl

exit_text-written :
    (code diagnostics : String) → ("load client exited " <> code <> ": " <> diagnostics) ≢ ""
unfolding is_written
exit_text-written code diagnostics =
    written "load client exited " (code <> ": " <> diagnostics) refl

-- What the end of a run amounts to.
abbrev pub ending_of : Result Event → Ending
ending_of (ok (result v)) = done v
ending_of (ok (error text)) = failed text
ending_of (ok event) = closed
ending_of (err e) = failed (repr e)

abbrev Last : Result Event → Type 0
Last m = (or_error m ∷ eof ∷ [] ≡ ending_events (ending_of m)) × IsMessage (ending_of m)

err-Last : (e : Error) → Last (err e)
err-Last e = (refl, repr-written e)

conclude-Last : (f : Finish) → Last (conclude f)
unfolding conclude
conclude-Last f = elim (Bool-cases (leb f.report_bytes 16_777_216)) [
  | inl small ↦ elim (Bool-cases (eqb_ℤ f.exit_code (pos 0))) [
    | inl well ↦ rw (small, well) (report-Last f.report)
    | inr badly ↦ rw (small, badly) (refl, exit_text-written (str f.exit_code) f.diagnostics)
  ]
  | inr large ↦ rw large (err-Last (value_error "load report exceeds 16 MiB"))
]
  where
    report-Last : (r : Result Json) → Last (do report ← r; ok (result report))
    report-Last (ok v) = (refl, tt)
    report-Last (err e) = err-Last e

end_of_run-Last : (r : Result (Unit {0})) (f : Finish) → Last (end_of_run r f)
end_of_run-Last (ok _) f = conclude-Last f
end_of_run-Last (err e) f = err-Last e

-- Half a second passes from round to round, unless the agent is told to stop.
abbrev pub Spaced : ℕ → List Round → Type 0
Spaced t [] = Unit
Spaced t (r ∷ rs) = ((r.is_stopping ≡ true) ⊎ (t ≤ r.later)) × Spaced (r.later + 500_000_000) rs

after_sample-le :
    (s : Sampling) (rest : List Event × Result (Unit {0}))
    → length (after_sample s rest).0 ≤ length rest.0 + 1
after_sample-le (taken v) rest = omega arith
after_sample-le ended rest = omega arith
after_sample-le (raised e) rest = omega arith

supervise-lt :
    (limit deadline t : ℕ) (rs : List Round)
    → Spaced t rs
    → length (supervise limit deadline rs).0 * 500_000_000 < (deadline - t) + 500_000_000
unfolding supervise
supervise-lt limit deadline t [] _ = omega arith
supervise-lt limit deadline t (r ∷ rs) (spaced, rest) = elim (Bool-cases r.is_stopping) [
  | inl stopping ↦ rw stopping (omega arith)
  | inr going ↦ elim (Bool-cases (ltb limit (r.now - r.last_contact))) [
    | inl silent ↦ rw (going, silent) (omega arith)
    | inr heard ↦ elim (Bool-cases (leb deadline r.later)) [
      | inl late ↦ rw (going, heard, late) (omega arith)
      | inr early ↦
          let few = supervise-lt limit deadline (r.later + 500_000_000) rs rest in
          let one = after_sample-le r.sampling (supervise limit deadline rs) in
          let before : r.later < deadline = ground arith in
          let behind : t ≤ r.later = ground arith in rw (going, heard, early) (omega arith)
    ]
  ]
]

module _ (c : RunCommand) (begin : ℕ) (rounds : List Round) (f : Finish) where
  abbrev pub supervised : List Event × Result (Unit {0})
  unfolding supervise
  supervised = supervise (heartbeat c.heartbeat_ns) (begin + c.max_ns) rounds

  pub supervised_lem : supervised ≡ supervise (heartbeat c.heartbeat_ns) (begin + c.max_ns) rounds
  unfolding supervised
  supervised_lem = refl

  -- The events of a run, with the `eof` that the reader puts behind them.
  pub run_client-Ending :
      (xs : List Json) × (run_client c begin rounds f ++ eof ∷ []
        ≡ trace xs (ending_of (end_of_run supervised.1 f)))
      × IsMessage (ending_of (end_of_run supervised.1 f))
  unfolding run_client
  run_client-Ending =
      let (xs, e) = supervise-Samples (heartbeat c.heartbeat_ns) (begin + c.max_ns) rounds in
      let (last, message) = end_of_run-Last supervised.1 f in
      (
        xs,
        append_assoc supervised.0 (or_error (end_of_run supervised.1 f) ∷ []) (eof ∷ [])
            ∙ ap (λ l. supervised.0 ++ l) last
            ∙ ap (λ l. l ++ ending_events (ending_of (end_of_run supervised.1 f))) e,
        message,
      )

  -- If half a second passes between the rounds of the agent's loop, unless it is told to stop, then a
  -- run emits an event for each half of a second up to its deadline, and two more at most.
  pub run_client-length :
      Spaced begin rounds
      → length (run_client c begin rounds f) * 500_000_000 < c.max_ns + 1_000_000_000
  unfolding run_client
  run_client-length spaced = omega (
    arith,
    supervise-lt (heartbeat c.heartbeat_ns) (begin + c.max_ns) begin rounds spaced,
    length-append supervised.0 (or_error (end_of_run supervised.1 f) ∷ []),
  )
