-- ===== src/Bench/SummarizeOverload/Demonstrated.antt =====
-- What a passed audit of bench/check_overload.py demonstrates of the run itself, over the summary that
-- bench/summarize_overload.py makes of it.
use zhtps.Common.{
  ◌≡◌, true, List, [], some, ok, map_result, require-eq-ok, >>=-eq-ok, >>-eq-ok_iff, subst,
  ok-injective, ◌>>=◌, ◌&&◌, All, pos,
}
use text.Mathlib.Text.{◌==◌ as str_eq}
use zhtps.Bench.Floats.{Floats}
use zhtps.Bench.CheckOverload.{Targets, Phase, validate}
use zhtps.Bench.CheckOverload.Issues.{audit}
use zhtps.Bench.CheckOverload.Passed.{IsDemonstrated, audit_iff}
use zhtps.Bench.SummarizeOverload.{Run, Summary}
use zhtps.Bench.SummarizeOverload.Rows.{row, summarize, is_zero_exit, kernel_delta}
use zhtps.Bench.SummarizeOverload.Accounts.{Matches, map_result-Matches, summarize-Describes}
use zhtps.Bench.SummarizeOverload.Audit.{
  Hosts, phases_from, report_from, audit_run, Balances, all_balance,
}
use zhtps.Bench.SummarizeOverload.Read.{IsRead, phases-IsRead}

module _ (N : Floats) where
  -- The phases as the audit reads them have the figures of the client and the samples.
  summarize-IsRead :
      (run : Run N) (s : Summary N)
      → summarize N run ≡ ok s
      → Matches (IsRead N run.samples) run.phases (phases_from N run.phases s.phases)
  unfolding summarize
  summarize-IsRead run s h =
      let (_, h1) =
        require-eq-ok (str_eq run.status "complete" && is_zero_exit N run.server_exit) _ _ h in
      let (rows, made, h2) = >>=-eq-ok (map_result (row N run.samples) run.phases) _ h1 in
      let (change, _, last) = >>=-eq-ok (kernel_delta N run) _ h2 in
      subst
        (λ (x : Summary N).
          Matches (IsRead N run.samples) run.phases (phases_from N run.phases x.phases))
        (ok-injective last)
        (phases-IsRead N run.samples run.phases rows (
          map_result-Matches (λ p r. row N run.samples p ≡ ok r) (row N run.samples) (λ p r e. e)
            run.phases rows made))

  -- If the audit of a run passes, the run was completed and its server left with 0; each phase has an
  -- offer and its offers are accounted for; and every criterion of the audit is met by the figures of the
  -- run itself: for each phase the label, the duration, the rates, the goodput and the offers that the
  -- client reports, the share of its offers that succeeded, its latencies in milliseconds and its dial
  -- attempts, and from the samples between its start and its end the number of admin errors, the greatest
  -- memory, and the greatest share of a core between the first and the last.
  pub audit_run_demonstrates :
      (t : Targets N) (h : Hosts N) (run : Run N)
      → audit_run N t h run ≡ ok (true, [])
      → (run.status ≡ "complete")
        × (run.server_exit ≡ some (pos 0))
        × All (Balances N) run.phases
        × ((phases : List (Phase N)) × Matches (IsRead N run.samples) run.phases phases
            × IsDemonstrated N t (record {
              origin_boot = h.origin_boot;
              client_boot = h.client_boot;
              separate_kernel = h.separate_kernel;
              clock_uncertainty_ns = h.clock_uncertainty_ns;
              churn = h.churn;
              phases = phases;
            }))
  unfolding audit_run
  audit_run_demonstrates t h run passed =
      let (valid, after) =
        (>>-eq-ok_iff (validate N t) (summarize N run >>= λ s. audit N t (report_from N h run s))
            (true, [])).0
          passed in
      let (s, summarized, audited) =
        >>=-eq-ok (summarize N run) (λ s. audit N t (report_from N h run s)) after in
      let (completed, left, _, described) = summarize-Describes N run s summarized in
      (
        completed,
        left,
        all_balance N run run.phases s.phases described,
        (
          phases_from N run.phases s.phases,
          summarize-IsRead run s summarized,
          ((audit_iff N t (report_from N h run s)).0 audited).1,
        ),
      )
