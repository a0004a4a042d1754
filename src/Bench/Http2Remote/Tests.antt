-- ===== src/Bench/Http2Remote/Tests.antt =====
-- The theorems about bench/http2_remote.py at a concrete run of two clients.
use zhtps.Common.{
  String, ◌↔◌, length, all, ◌≡◌, refl, true, false, List, [], ◌∷◌, pos, ok, arith, ◌≤◌,
}
use zhtps.Json.{null, number}
use zhtps.Bench.Http2Remote.{
  Round, Input, client, control, exited, prepared_message, ready_message, measured_message,
  result_message, warmup, measure, Shard, State, supervise, new_state, complete, conclude, finished,
  run, all_prepared, all_ready, warmup_scheduled, scheduled, sampled, ℕ,
}
use zhtps.Bench.Http2Remote.Order.{InOrder}
use zhtps.Bench.Http2Remote.Order.Loop.{run-InOrder}
use zhtps.Bench.Http2Remote.Setup.{placements, every, prepare, has, prepare_iff}
use zhtps.Bench.Http2Remote.Shards.{IsResult, conclude-IsResult}

abbrev at_once : Input → Round
at_once input = record {
  is_cancelled = false;
  contact_now = 2_000_000_000;
  last_contact = 2_000_000_000;
  deadline_now = 2_000_000_000;
  input = input;
  unix_ns = 7_000_000_000;
  is_open = true;
  sample_now = 2_000_000_000;
  sample_done = 2_000_000_000;
  sample = null;
}

abbrev shard : Shard
shard = record { failure_log_entries = 3; report = number (pos 5) }

abbrev two_clients : List Round
two_clients =
    at_once (client 1 (prepared_message null))
    ∷ at_once (client 0 (prepared_message null))
    ∷ at_once (control warmup)
    ∷ at_once (client 0 (ready_message null))
    ∷ at_once (client 1 (ready_message null))
    ∷ at_once (control measure)
    ∷ at_once (client 1 (measured_message null))
    ∷ at_once (client 1 (result_message shard))
    ∷ at_once (exited 1 (pos 0))
    ∷ at_once (client 0 (result_message shard))
    ∷ at_once (exited 0 (pos 0))
    ∷ []

run_test :
    run 2 60_000_000_000 two_clients (3 ∷ 3 ∷ [])
    ≡ sampled null
      ∷ all_prepared (null ∷ null ∷ [])
      ∷ warmup_scheduled 7_500_000_000
      ∷ all_ready (null ∷ null ∷ [])
      ∷ scheduled 7_500_000_000
      ∷ finished (shard ∷ shard ∷ []) ((1, pos 0) ∷ (0, pos 0) ∷ [])
      ∷ []
unfolding run
run_test = refl

run-InOrder_example : InOrder false false (run 2 60_000_000_000 two_clients (3 ∷ 3 ∷ []))
run-InOrder_example = run-InOrder 2 60_000_000_000 two_clients (3 ∷ 3 ∷ []) (omega arith)

abbrev last_state : State
last_state = record {
  prepared = (1, null) ∷ (0, null) ∷ [];
  ready = (0, null) ∷ (1, null) ∷ [];
  measured = (1, null) ∷ [];
  results = (1, shard) ∷ (0, shard) ∷ [];
  exits = (1, pos 0) ∷ (0, pos 0) ∷ [];
  last_sample = 2_000_000_000;
}

two_clients_end : (supervise 2 60_000_000_000 two_clients (new_state 2)).1 ≡ complete last_state
unfolding supervise
two_clients_end = refl

last_state_passes :
    conclude 2 (3 ∷ 3 ∷ []) last_state
    ≡ ok (finished (shard ∷ shard ∷ []) ((1, pos 0) ∷ (0, pos 0) ∷ []))
unfolding conclude
last_state_passes = refl

conclude-IsResult_example :
    IsResult 2 (3 ∷ 3 ∷ []) (shard ∷ shard ∷ []) ((1, pos 0) ∷ (0, pos 0) ∷ [])
conclude-IsResult_example =
    conclude-IsResult 2 60_000_000_000 two_clients (3 ∷ 3 ∷ []) last_state (shard ∷ shard ∷ [])
      ((1, pos 0) ∷ (0, pos 0) ∷ []) two_clients_end last_state_passes

placements_test : placements 3 (4 ∷ 5 ∷ 6 ∷ 7 ∷ []) ≡ (4 ∷ 7 ∷ []) ∷ (5 ∷ []) ∷ (6 ∷ []) ∷ []
unfolding placements every
placements_test = refl

abbrev digest : String
digest = "e3b0"

abbrev two_cpus : List ℕ
two_cpus = 4 ∷ 5 ∷ []

abbrev one_for_each : List (List ℕ)
one_for_each = (4 ∷ []) ∷ (5 ∷ []) ∷ []

prepare_iff_example : (prepare digest digest two_cpus 2 two_cpus ≡ ok one_for_each) ↔ (
    (digest ≡ digest)
    × (all (λ c. has c two_cpus) two_cpus ≡ true)
    × (2 ≤ length two_cpus)
    × (one_for_each ≡ placements 2 two_cpus))
prepare_iff_example = prepare_iff digest digest two_cpus 2 two_cpus one_for_each
