-- ===== src/Bench/RemoteLoad/Tests.antt =====
-- The theorems about bench/remote_load.py at a concrete run.
use zhtps.Common.{
  ◌+◌, ◌*◌, ◌/◌, ◌≤◌, ◌<◌, ◌≡◌, ◌↔◌, refl, inr, true, false, List, [], ◌∷◌, ◌++◌, map, All, none,
  some, String, ok, pos, arith, length,
}
use zhtps.Json.{null, number, text}
use zhtps.Bench.RemoteLoad.Events.{Event, hello, clock, sample, result, error, eof}
use zhtps.Bench.RemoteLoad.Clock.{
  Exchange, Near, elapsed, estimate_clock, estimate_clock-Near, Reads,
}
use zhtps.Bench.RemoteLoad.Collector.{Collector, Poll, watch}
use zhtps.Bench.RemoteLoad.Collector.Trace.{all_events, failed, verdict}
use zhtps.Bench.RemoteLoad.Collector.Watch.{watch-verdict}
use zhtps.Bench.RemoteLoad.Agent.{
  Host, RunCommand, Prepared, Round, taken, Finish, run_client, prepare, agent,
}
use zhtps.Bench.RemoteLoad.Agent.Prepare.{IsPrepared, prepare-IsPrepared}
use zhtps.Bench.RemoteLoad.Agent.Supervise.{run_client-length}
use zhtps.Bench.RemoteLoad.Protocol.{Succeeds, watched_run_iff}
use zhtps.Bench.RemoteLoad.Connect.{is_host, questions, connect, Session, ask, connect-Near}

-- The remote clock is 40 behind.
abbrev slow : Exchange
slow = record { begin_wall = 1000; begin = 0; unix_ns = 985; finish = 60 }

abbrev quick : Exchange
quick = record { begin_wall = 2000; begin = 1000; unix_ns = 1965; finish = 1011 }

estimate_clock-Near_example :
    Near ((estimate_clock slow (quick ∷ [])).0 + 1) (estimate_clock slow (quick ∷ [])).1 (pos 40)
    × All (λ y. (estimate_clock slow (quick ∷ [])).0 ≤ elapsed y / 2) (slow ∷ quick ∷ [])
estimate_clock-Near_example =
    estimate_clock-Near (pos 40) slow (quick ∷ [])
      (record { delay = 25; within = omega arith; shows = refl })
      (record { delay = 5; within = omega arith; shows = refl }, tt)

abbrev show : Event → String
show event = "an event"

abbrev new_collector : Collector
new_collector = record {
  samples = [];
  start_event = some null;
  result_event = none;
  failure = none;
  error_text = none;
  last_heartbeat = 0;
  heartbeats = 0;
}

abbrev polled : List Event → Poll
polled events = record {
  now = 5_000_000_000;
  later = 5_000_000_001;
  is_open = true;
  events = events;
}

abbrev failing_polls : List Poll
failing_polls =
    polled (sample (number (pos 1)) ∷ [])
    ∷ polled []
    ∷ polled (error "client failed" ∷ [])
    ∷ polled (eof ∷ [])
    ∷ []

watch-verdict_example :
    ((watch show failing_polls new_collector).0 ≡ verdict (failed "client failed"))
    × ((watch show failing_polls new_collector).1.samples ≡ number (pos 1) ∷ [])
watch-verdict_example =
    watch-verdict show failing_polls new_collector (number (pos 1) ∷ []) (failed "client failed")
      (refl, refl) (λ h. cc) refl

abbrev laptop : Host
laptop = record {
  identity = text "laptop";
  affinity = 0 ∷ 1 ∷ 2 ∷ 3 ∷ [];
  soft = pos 1024;
  hard = pos 1_048_576;
  resolve = λ path. path;
  sha256 = λ path. ok "e3b0";
  folder = "/tmp/zhtps-remote-load-1";
  decode = λ encoded. ok [];
  spawn = λ command. ok (text "started");
}

abbrev load_run : RunCommand
load_run = record {
  cpus = 1 ∷ 2 ∷ [];
  binary = "/opt/load";
  arguments = "-depth" ∷ "1" ∷ [];
  connections = pos 4096;
  files = ("-request-body", "") ∷ [];
  max_ns = 60_000_000_000;
  heartbeat_ns = none;
}

abbrev load_prepared : Prepared
load_prepared = record {
  soft = pos 4352;
  command =
      "/opt/load" ∷ "-depth" ∷ "1" ∷ "-request-body" ∷ "/tmp/zhtps-remote-load-1/request-body" ∷ [];
}

load_run_prepared : prepare laptop load_run ≡ ok load_prepared
unfolding prepare
load_run_prepared = refl

prepare-IsPrepared_example : IsPrepared laptop load_run load_prepared
prepare-IsPrepared_example = prepare-IsPrepared laptop load_run load_prepared load_run_prepared

abbrev load_rounds : List Round
load_rounds =
    record {
      is_stopping = false;
      now = 1_000_000_000;
      later = 1_000_000_001;
      last_contact = 900_000_000;
      sampling = taken (number (pos 1));
    }
    ∷ record {
      is_stopping = false;
      now = 1_600_000_000;
      later = 1_600_000_001;
      last_contact = 900_000_000;
      sampling = taken (number (pos 2));
    }
    ∷ []

abbrev load_finish : Finish
load_finish = record {
  exit_code = pos 0;
  diagnostics = "";
  report_bytes = 4096;
  report = ok (text "report");
}

run_client-length_example :
    length (run_client load_run 1_000_000_000 load_rounds load_finish) * 500_000_000
    < load_run.max_ns + 1_000_000_000
run_client-length_example =
    run_client-length load_run 1_000_000_000 load_rounds load_finish
      (inr (omega arith), (inr (omega arith), tt))

abbrev load_polls : List Poll
load_polls =
    polled (sample (number (pos 1)) ∷ [])
    ∷ polled (sample (number (pos 2)) ∷ result (text "report") ∷ [])
    ∷ polled (eof ∷ [])
    ∷ []

load_events :
    all_events load_polls ≡ run_client load_run 1_000_000_000 load_rounds load_finish ++ eof ∷ []
unfolding run_client
load_events = refl

watched_run_iff_example :
    ((watch show load_polls new_collector).0 ≡ ok true)
    ↔ Succeeds load_run 1_000_000_000 load_rounds load_finish
watched_run_iff_example =
    watched_run_iff show load_run 1_000_000_000 load_rounds load_finish load_polls new_collector
      (refl, refl) load_events

abbrev same_five : List Exchange
same_five = quick ∷ quick ∷ quick ∷ quick ∷ []

laptop_named : is_host "laptop.example" ≡ true
unfolding is_host
laptop_named = refl

-- The greeting and five clocks, before the run starts.
abbrev clocks : List Event
clocks = clock slow.unix_ns ∷ map (λ y. clock y.unix_ns) same_five

laptop_emits :
    agent laptop
      (questions (map (λ y. y.unix_ns) (slow ∷ same_five)) ++ [])
      1_000_000_000
      load_rounds
      load_finish
    ≡ hello (text "laptop") ∷ clocks
unfolding agent
laptop_emits = refl

connect-Near_example :
    (s : Session) × (connect show "laptop.example"
        (hello (text "laptop"))
        (ask (slow ∷ same_five) clocks)
      ≡ ok s)
    × (s.identity ≡ text "laptop")
    × Near (s.uncertainty_ns + 1) s.offset_ns (pos 40)
    × All (λ y. s.uncertainty_ns ≤ elapsed y / 2) (slow ∷ same_five)
connect-Near_example =
    connect-Near show "laptop.example" laptop (pos 40) slow same_five [] 1_000_000_000 load_rounds
      load_finish (hello (text "laptop")) clocks laptop_named refl
      (record { delay = 25; within = omega arith; shows = refl })
      (quick_reads, (quick_reads, (quick_reads, (quick_reads, tt)))) laptop_emits
  where
    quick_reads : Reads (pos 40) quick
    quick_reads = record { delay = 5; within = omega arith; shows = refl }
