-- ===== src/Bench/Compare/Trial.antt =====
-- `run_one` of bench/compare.py: a trial of one variant, from its ports to the end of its server.
use text.Mathlib.Text.{◌==◌ as str_eq}
use zhtps.Common.{
  ℕ, Bool, not, ◌&&◌, ◌||◌, List, Option, String, ◌<>◌, Result, ok, value_error, runtime_error,
  assertion_error, ◌>>=◌, ◌>>◌, require, ℤ, pos, negsuc, ◌+ℤ◌, eqb_ℤ, ltb_ℤ, str, if◌then◌else◌,
}
use zhtps.Bench.Floats.{Floats, number, divide}
use zhtps.Bench.SummarizeOverload.{Table}
use zhtps.Bench.CheckOverload.{same_text}
use zhtps.Bench.Compare.{Variant, is_go, Options}
use zhtps.Bench.Compare.Arguments.{zig_capacity}
use zhtps.Bench.Compare.Ready.{ReadyRound, wait_ready, RemoteRound, wait_remote, admin_port}

module _ (N : Floats) where
  open N use {F, times}

  pub record LatencyUs : Type 0 where
    pub p50 : F
    pub p95 : F
    pub p99 : F

  -- What the load client reports.
  pub record Load : Type 0 where
    pub connections : ℤ
    pub attempts : ℤ
    pub successes : ℤ
    pub errors : ℤ
    pub warmup_errors : ℤ
    pub connections_ready : ℤ
    pub connections_measured : ℤ
    pub connections_opened : ℤ
    pub requests_per_second : F
    pub window_successes_per_second : F
    pub window_failures : Option (Table ℕ)
    pub latency_us : LatencyUs
    pub generator_cpu_percent : F

  -- The client: on this host its exit code and its output; on another host its boot id, if
  -- it can be connected, this host's, the hashes of
  -- its binary and of the built one, the rounds of the wait and its result.
  pub data Client : Type 0 where
    here : ℤ → String → Result Load → Client
    there :
        Result (Option String)
        → Option String
        → String
        → String
        → List RemoteRound
        → Result Load
        → Client

  -- What a trial meets, with the probe of the capacity as the exit code and whether the reason for it is
  -- an invalid limit, and the end of the server: whether it stops in time, and its exit code.
  pub record Outside : Type 0 where
    pub port : ℕ
    pub admin_ports : List ℕ
    pub probe_code : ℤ
    pub probe_reason : Bool
    pub probe_text : String
    pub spawned : Result (Unit {0})
    pub runtime : Result (Unit {0})
    pub ready : List ReadyRound
    pub before : Result (Unit {0})
    pub client : Client
    pub cpu_seconds : F
    pub elapsed : F
    pub after : Result (Unit {0})
    pub stops : Bool
    pub exit_code : ℤ

  -- A trial's result.
  pub data Trial : Type 0 where
    unsupported : Variant → ℕ → ℤ → Trial
    measured : Variant → ℕ → Load → F → Trial

  abbrev pub load_of : Client → Result Load
  load_of (here code output load) = do
    require (eqb_ℤ code (pos 0)) (runtime_error ("load failed: " <> output))
    load
  load_of (there _ _ binary built rounds load) = do
    require (str_eq binary built) (value_error "remote load binary does not match this build")
    wait_remote rounds
    load

  -- Before the load, one on another host is connected.
  abbrev pub connected : Client → Result (Unit {0})
  connected (here code output load) = ok tt
  connected (there connection ours binary built rounds load) = do
    theirs ← connection
    require (not (same_text theirs ours)) (value_error "load generator shares the server kernel")

  abbrev pub check_load : Bool → ℤ → Load → Result (Unit {0})
  check_load allow_errors connections l = do
    require (eqb_ℤ l.attempts (l.successes +ℤ l.errors))
        (assertion_error "load outcomes do not account for every attempt")
    require
        (allow_errors
          || (eqb_ℤ l.connections_ready connections && eqb_ℤ l.connections_measured connections))
        (assertion_error "not every requested connection participated")
    require (allow_errors || eqb_ℤ l.connections_opened connections)
        (assertion_error "connection turnover invalidates a persistent-connection trial")

  -- From the start of the server to the result.
  unfoldable pub measure : Options N → Variant → ℤ → ℕ → Outside → Result Trial
  unfolding wait_ready wait_remote
  measure o v connections repeat x = do
    (if is_go v then x.runtime else ok tt)
    wait_ready x.ready
    connected x.client
    x.before
    l ← load_of x.client
    check_load o.allow_errors connections l
    x.after
    percent ← divide N (times (number N 100) x.cpu_seconds) x.elapsed
    ok (measured v repeat l percent)

  -- The `finally` of the trial: its errors take the place of the result.
  abbrev pub after_stop : Bool → ℤ → Result Trial → Result Trial
  after_stop stops code r = do
    require stops (runtime_error "server did not stop within eight seconds")
    require (eqb_ℤ code (pos 0) || eqb_ℤ code (negsuc 14))
        (runtime_error ("server exited with " <> str code))
    r

  -- A capacity beyond the server's limit, which it is to reject.
  abbrev pub is_beyond : Options N → Variant → ℤ → Bool
  is_beyond o v connections =
      not (is_go v) && ltb_ℤ (pos 8176) (zig_capacity N o connections +ℤ pos 8)

  abbrev pub probed : Variant → ℤ → ℕ → Outside → Result Trial
  probed v connections repeat x = do
    require (eqb_ℤ x.probe_code (pos 2) && x.probe_reason)
        (runtime_error ("unexpected capacity probe: " <> str x.probe_code <> " " <> x.probe_text))
    ok (unsupported v repeat connections)

  unfoldable pub run_one : Options N → Variant → ℤ → ℕ → Outside → Result Trial
  unfolding admin_port measure
  run_one o v connections repeat x = admin_port x.port x.admin_ports >>= λ _.
      (if is_beyond o v connections
        then probed v connections repeat x
        else (x.spawned >> after_stop x.stops x.exit_code (measure o v connections repeat x)))
