-- ===== src/Bench/IdlePressure/Tests.antt =====
-- Runs of bench/idle_pressure_client.py.
use zhtps.Common.{ℕ, ◌≡◌, refl, true, List, [], ◌∷◌, none, some, ok, err, os_error, assertion_error}
use zhtps.Bench.Floats.Thousandths.{thousandths}
use zhtps.Bench.KeepaliveClient.{Reply, good, invalid, failed}
use zhtps.Bench.IdlePressure.{blocking, end, run}

abbrev replies : List (Reply × ℕ)
replies =
    (good true, 3_000_000)
    ∷ (failed "TimeoutError", 500_000_000)
    ∷ (invalid, 4)
    ∷ (good true, 2_000_000)
    ∷ []

run_tests :
    (run thousandths ((good true, end) ∷ (good true, blocking) ∷ []) replies
      ≡ ok (record {
        offered = 4;
        successes = 2;
        failures = ("TimeoutError", 1) ∷ ("invalid_response", 1) ∷ [];
        success_p99_ms = some 3000;
        idle_connections_closed = 1;
        outcomes =
            record { error = none; elapsed = 3_000_000 }
            ∷ record { error = some "TimeoutError"; elapsed = 500_000_000 }
            ∷ record { error = some "invalid_response"; elapsed = 4 }
            ∷ record { error = none; elapsed = 2_000_000 }
            ∷ [];
      }))
    × (run thousandths ((good true, end) ∷ (failed "refused", end) ∷ []) replies
        ≡ err (os_error "refused"))
    × (run thousandths ((good true, end) ∷ (invalid, end) ∷ []) replies ≡ err (assertion_error ""))
    × (run thousandths [] replies ≡ err (assertion_error ""))
unfolding run
run_tests = (refl, refl, refl, refl)
