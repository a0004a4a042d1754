-- ===== src/Bench/Compare/Ready.antt =====
-- The waits of a trial in bench/compare.py: for the server, and for a load client on another host. The
-- rounds that are given are those that take place before the deadline.
use zhtps.Common.{
  ℕ, Bool, ◌&&◌, List, [], ◌∷◌, Option, none, some, ◌<>◌, ◌==◌, Result, ok, err, runtime_error,
  timeout_error, assertion_error, out_of_fuel, require, ℤ, str, if◌then◌else◌,
}

-- The answer to a request: its status and whether the body is the expected one; or an error of the
-- connection.
pub data Attempt : Type 0 where
  answered : ℕ → Bool → Attempt
  refused : Attempt

-- A round of `wait_ready`: the server's exit code if it has left, and the attempt.
pub record ReadyRound : Type 0 where
  pub left : Option ℤ
  pub attempt : Attempt

abbrev after_attempt : Attempt → Result (Unit {0}) → Result (Unit {0})
after_attempt (answered status matches) rest =
    require (status == 200 && matches) (assertion_error "server response does not match workload")
after_attempt refused rest = rest

abbrev ready_round : Option ℤ → Result (Unit {0}) → Result (Unit {0})
ready_round (some code) rest =
    err (runtime_error ("server exited with " <> str code <> "; io_uring must be permitted"))
ready_round none rest = rest

unfoldable pub wait_ready : List ReadyRound → Result (Unit {0})
wait_ready [] = err (timeout_error "server did not become ready")
wait_ready (r ∷ rs) = ready_round r.left (after_attempt r.attempt (wait_ready rs))

-- A round in which the client on another host has not completed: is the deadline past, has the server left.
pub record RemoteRound : Type 0 where
  pub is_late : Bool
  pub has_left : Bool

unfoldable pub wait_remote : List RemoteRound → Result (Unit {0})
wait_remote [] = ok tt
wait_remote (r ∷ rs) =
    let rest = wait_remote rs in
    if r.is_late
    then err (timeout_error "remote load did not finish")
    else if r.has_left
    then err (runtime_error "server exited during remote load")
    else rest

-- The first free port that is not the public one, of those that the system gives in turn.
unfoldable pub admin_port : ℕ → List ℕ → Result ℕ
admin_port port [] = err out_of_fuel
admin_port port (p ∷ ps) = let rest = admin_port port ps in if p == port then rest else ok p
