-- ===== src/Bench/RemoteLoad/Protocol.antt =====
-- The agent and the collector of bench/remote_load.py together.
use zhtps.Common.{
  Option, none, some, ◌≤◌, ◌<◌, ◌+◌, ◌-◌, pos, Bool-cases, inl, inr, ltb, leb, false, ap, arith,
  ◌⊎◌, eqb_ℤ, eqb_ℤ_iff, refl, ℕ, ◌≡◌, ◌↔◌, ◌∙◌, sym, List, [], ◌∷◌, ◌++◌, true, Result, ok, err,
  String, ◌+◌, Option, false, ltb, pos, ◌≤◌, ◌-◌, some, ◌<◌, arith, ◌⊎◌, >>=-eq-ok,
}
use zhtps.Json.{Json}
use zhtps.Bench.RemoteLoad.Events.{hello, clock, started, sample, other, Event, result, error, eof}
use zhtps.Bench.RemoteLoad.Collector.{Collector, Poll, watch}
use zhtps.Bench.RemoteLoad.Collector.Trace.{Waiting, all_events, verdict}
use zhtps.Bench.RemoteLoad.Collector.Watch.{watch-verdict}
use zhtps.Bench.RemoteLoad.Agent.{
  RunCommand, Round, Finish, run_client, conclude, end_of_run, Sampling, after_sample, ended,
  heartbeat, taken, raised, supervise,
}
use zhtps.Bench.RemoteLoad.Agent.Supervise.{
  supervised, ending_of, run_client-Ending, supervised_lem,
}

-- How long the parent may be silent, in nanoseconds: 15 seconds, unless the command says otherwise.
abbrev pub IsHeard : Option ℕ → ℕ → Type 0
IsHeard none silence = silence ≤ 15_000_000_000
IsHeard (some limit) silence = silence ≤ limit

-- In each round the agent is not to stop, has heard of its parent, is before its deadline, and takes a
-- sample, unless the client has ended, after which there is no round.
abbrev pub Passes : Option ℕ → ℕ → List Round → Type 0
Passes limit deadline [] = Unit
Passes limit deadline (r ∷ rs) =
    (r.is_stopping ≡ false)
    × IsHeard limit (r.now - r.last_contact)
    × (r.later < deadline)
    × ((r.sampling ≡ ended) ⊎ ((v : Json) × (r.sampling ≡ taken v) × Passes limit deadline rs))

-- A run that succeeds: every round passes, and the client ends with exit code 0 and a report of at most
-- 16 MiB, which can be read.
abbrev pub Succeeds : RunCommand → ℕ → List Round → Finish → Type 0
Succeeds c begin rounds f =
    Passes c.heartbeat_ns (begin + c.max_ns) rounds
    × (f.exit_code ≡ pos 0)
    × (f.report_bytes ≤ 16_777_216)
    × ((v : Json) × (f.report ≡ ok v))

heartbeat_iff : (limit : Option ℕ) (n : ℕ) → (ltb (heartbeat limit) n ≡ false) ↔ IsHeard limit n
heartbeat_iff none n = ground arith
heartbeat_iff (some limit) n = ground arith

after_sample_iff :
    (s : Sampling) (rest : List Event × Result (Unit {0}))
    → ((after_sample s rest).1 ≡ ok tt)
      ↔ ((s ≡ ended) ⊎ ((v : Json) × (s ≡ taken v) × (rest.1 ≡ ok tt)))
after_sample_iff (taken v) rest =
    (λ h. inr (v, refl, h), λ s. elim s [ inl e ↦ cc | inr (w, e, h) ↦ h ])
after_sample_iff ended rest = (λ _. inl refl, λ _. refl)
after_sample_iff (raised e) rest = (λ h. cc, λ s. elim s [ inl e ↦ cc | inr (w, e, h) ↦ cc ])

supervise-Passes :
    (limit : Option ℕ) (deadline : ℕ) (rounds : List Round)
    → (supervise (heartbeat limit) deadline rounds).1 ≡ ok tt
    → Passes limit deadline rounds
unfolding supervise
supervise-Passes limit deadline [] h = tt
supervise-Passes limit deadline (r ∷ rs) h = elim (Bool-cases r.is_stopping) [
  | inl stopping ↦ let fails = rw stopping at h in cc fails
  | inr going ↦ elim (Bool-cases (ltb (heartbeat limit) (r.now - r.last_contact))) [
    | inl silent ↦ let fails = rw (going, silent) at h in cc fails
    | inr heard ↦ elim (Bool-cases (leb deadline r.later)) [
      | inl late ↦ let fails = rw (going, heard, late) at h in cc fails
      | inr early ↦
          let passes = rw (going, heard, early) at h in
          let next =
            (after_sample_iff r.sampling (supervise (heartbeat limit) deadline rs)).0 passes in
          (
            going,
            (heartbeat_iff limit (r.now - r.last_contact)).0 heard,
            ground arith,
            elim next [
              | inl e ↦ inl e
              | inr (v, e, more) ↦ inr (v, e, supervise-Passes limit deadline rs more)
            ],
          )
    ]
  ]
]

Passes-supervise :
    (limit : Option ℕ) (deadline : ℕ) (rounds : List Round)
    → Passes limit deadline rounds
    → (supervise (heartbeat limit) deadline rounds).1 ≡ ok tt
unfolding supervise
Passes-supervise limit deadline [] h = refl
Passes-supervise limit deadline (r ∷ rs) (going, heard, early, next) =
    let spoke = (heartbeat_iff limit (r.now - r.last_contact)).1 heard in
    let in_time : leb deadline r.later ≡ false = ground arith in
    rw (going, spoke, in_time)
      ((after_sample_iff r.sampling (supervise (heartbeat limit) deadline rs)).1 (elim next [
        | inl e ↦ inl e
        | inr (v, e, more) ↦ inr (v, e, Passes-supervise limit deadline rs more)
      ]))

conclude_iff :
    (f : Finish) (v : Json)
    → (conclude f ≡ ok (result v))
      ↔ ((f.exit_code ≡ pos 0) × (f.report_bytes ≤ 16_777_216) × (f.report ≡ ok v))
unfolding conclude
conclude_iff f v = (
  λ h. elim (Bool-cases (leb f.report_bytes 16_777_216)) [
    | inl small ↦ elim (Bool-cases (eqb_ℤ f.exit_code (pos 0))) [
      | inl well ↦
          let (read, found, last) =
            >>=-eq-ok f.report (λ x. ok (result x)) (rw (small, well) at h) in
          let same : read ≡ v = cc in
          ((eqb_ℤ_iff f.exit_code (pos 0)).0 well, ground arith, found ∙ ap ok same)
      | inr badly ↦ let fails = rw (small, badly) at h in cc fails
    ]
    | inr large ↦ let fails = rw large at h in cc fails
  ],
  λ (left, small, read).
      let fits : leb f.report_bytes 16_777_216 ≡ true = ground arith in
      rw (fits, (eqb_ℤ_iff f.exit_code (pos 0)).1 left, read) refl,
)

verdict-result :
    (m : Result Event) → verdict (ending_of m) ≡ ok true → (v : Json) × (m ≡ ok (result v))
verdict-result (ok (result v)) h = (v, refl)
verdict-result (ok (error text)) h = cc
verdict-result (ok eof) h = cc
verdict-result (ok (hello v)) h = cc
verdict-result (ok (clock n)) h = cc
verdict-result (ok (started v)) h = cc
verdict-result (ok (sample v)) h = cc
verdict-result (ok (other text)) h = cc
verdict-result (err e) h = cc

verdict-Succeeds :
    (r : Result (Unit {0})) (f : Finish)
    → (verdict (ending_of (end_of_run r f)) ≡ ok true)
      ↔ ((v : Json) × (r ≡ ok tt) × (conclude f ≡ ok (result v)))
verdict-Succeeds (err e) f = (λ h. cc, λ (v, h, _). cc)
verdict-Succeeds (ok _) f =
    (λ h. let (v, e) = verdict-result (conclude f) h in (v, refl, e), λ (v, _, e). rw e refl)

-- If a collector that has seen neither a result nor an error gets the events of a run of the load
-- client, spread over any number of polls at any times, and then the end of the agent's output, then
-- polling until the run is completed says so exactly if in each round the agent was not told to stop,
-- had heard of its parent within its heartbeat, 15 seconds unless the command gives another, was before
-- its deadline and took its sample or found the client ended, and the client ended with exit code 0 and
-- a report, of at most 16 MiB, that could be read.
pub watched_run_iff :
    (show : Event → String) (c : RunCommand) (begin : ℕ) (rounds : List Round) (f : Finish)
    (ps : List Poll) (s : Collector)
    → Waiting s
    → all_events ps ≡ run_client c begin rounds f ++ eof ∷ []
    → ((watch show ps s).0 ≡ ok true) ↔ Succeeds c begin rounds f
watched_run_iff show c begin rounds f ps s waiting events =
    let (xs, e, message) = run_client-Ending c begin rounds f in
    let ending = ending_of (end_of_run (supervised c begin rounds f).1 f) in
    let (said, _) = watch-verdict show ps s xs ending waiting message (events ∙ e) in
    let both = verdict-Succeeds (supervised c begin rounds f).1 f in
    let limit = c.heartbeat_ns in
    let deadline = begin + c.max_ns in
    let same = supervised_lem c begin rounds f in
    (
      λ h.
          let (v, passed, finished) = both.0 (sym said ∙ h) in
          let (left, small, read) = (conclude_iff f v).0 finished in
          (
            supervise-Passes limit deadline rounds (ap (λ r. r.1) (sym same) ∙ passed),
            left,
            small,
            (v, read),
          ),
      λ (passes, left, small, (v, read)).
          said
          ∙ both.1 (
            v,
            ap (λ r. r.1) same ∙ Passes-supervise limit deadline rounds passes,
            (conclude_iff f v).1 (left, small, read),
          ),
    )
