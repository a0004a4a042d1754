-- ===== src/Bench/KeepaliveClient/Tests.antt =====
-- The theorem about bench/keepalive_returning_client.py at concrete residents.
use zhtps.Common.{
  ℕ, ◌+◌, ◌*◌, ◌≤◌, ◌≡◌, refl, Bool, true, false, List, [], ◌∷◌, map, some, ok, err, value_error,
  assertion_error,
}
use zhtps.Bench.Floats.Thousandths.{thousandths}
use zhtps.Bench.KeepaliveClient.{
  Reply, good, invalid, failed, Request, request_row, newcomer, returning, set_up, Summary,
  summarize,
}
use zhtps.Bench.KeepaliveClient.Accounts.{total, returning-summarized}

abbrev residents : List (Bool × List Reply × ℕ)
residents =
    (true, good true ∷ [], 80)
    ∷ (true, failed "RemoteDisconnected" ∷ good true ∷ [], 210)
    ∷ (false, failed "TimeoutError" ∷ failed "TimeoutError" ∷ [], 1_000_000)
    ∷ []

abbrev rows : List (Request × Bool)
rows =
    (request_row true 80 [] 0, true)
    ∷ (request_row true 210 ("RemoteDisconnected" ∷ []) 1, true)
    ∷ (request_row false 1_000_000 ("TimeoutError" ∷ "TimeoutError" ∷ []) 2, false)
    ∷ []

returned : returning residents ≡ ok rows
unfolding returning
returned = refl

abbrev summary : Summary
summary = record {
  offered = 3;
  successes = 2;
  failures = 1;
  connections_opened = 3;
  attempt_errors = ("RemoteDisconnected", 1) ∷ ("TimeoutError", 2) ∷ [];
  p50 = some 210;
  p99 = some 210;
}

summarized : summarize thousandths (map (λ (y : Request × Bool). y.0) rows) ≡ ok summary
unfolding summarize
summarized = refl

not_set_up :
    (set_up (failed "TimeoutError" ∷ [], 9) ≡ err (assertion_error ""))
    × (newcomer (invalid ∷ [], 9) ≡ err (value_error "invalid response"))
unfolding set_up newcomer
not_set_up = (refl, refl)

returning-summarized_example :
    (summary.offered ≡ 3)
    × (summary.offered ≡ summary.successes + summary.failures)
    × (2 * summary.failures ≤ total summary.attempt_errors)
    × (total summary.attempt_errors ≤ 2 * summary.failures + summary.successes)
    × (summary.connections_opened ≤ 2 * summary.offered)
returning-summarized_example =
    returning-summarized thousandths residents rows summary returned summarized
