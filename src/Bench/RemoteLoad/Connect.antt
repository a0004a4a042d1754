-- ===== src/Bench/RemoteLoad/Connect.antt =====
-- `RemoteLoad.__init__`, `next_event` and `start` of bench/remote_load.py: the handshake with the agent.
use zhtps.Common.{
  ℕ, zero, suc, ◌≡◌, refl, ap, ◌∙◌, Bool, true, false, not, ◌&&◌, ◌||◌, List, [], ◌∷◌, ◌++◌, map,
  String, ◌<>◌, codes, ◌==◌, leb, any, Result, ok, err, value_error, runtime_error, require, ◌>>=◌,
  ◌>>◌, length, Error, ℤ, all, sym, All, ◌+◌, ◌≤◌, ◌/◌,
}
use zhtps.Json.{Json}
use zhtps.Bench.RemoteLoad.Events.{Event, hello, clock, started, eof}
use zhtps.Bench.RemoteLoad.Clock.{
  Exchange, estimate_clock, Reads, Near, elapsed, estimate_clock-Near,
}
use zhtps.Bench.RemoteLoad.Agent.{
  Host, RunCommand, Command, ask_clock, obey, agent, Round, Finish, run_client,
}

-- The ASCII characters for which `str.isspace` holds
abbrev is_space : ℕ → Bool
is_space c = c == 32 || (leb 9 c && leb c 13) || (leb 28 c && leb c 31)

abbrev starts_with_dash : List ℕ → Bool
starts_with_dash [] = false
starts_with_dash (c ∷ s) = c == b'-'

unfoldable pub is_host : String → Bool
is_host host = not (starts_with_dash (codes host) || any is_space (codes host))

-- One question for the clock, and the event that comes back.
pub record Asked : Type 0 where
  pub begin_wall : ℕ
  pub begin : ℕ
  pub finish : ℕ
  pub reply : Event

-- What a collector starts with.
pub record Session : Type 0 where
  pub identity : Json
  pub uncertainty_ns : ℕ
  pub offset_ns : ℤ

module _ (show : Event → String) where
  abbrev wrong : String → Event → Error
  wrong kind event = runtime_error ("expected " <> kind <> ", received " <> show event)

  -- `next_event` for the three kinds that are waited for
  abbrev pub next_hello : Event → Result Json
  next_hello (hello identity) = ok identity
  next_hello event = err (wrong "hello" event)

  abbrev pub next_clock : Event → Result ℕ
  next_clock (clock n) = ok n
  next_clock event = err (wrong "clock" event)

  abbrev pub next_started : Event → Result Json
  next_started (started v) = ok v
  next_started event = err (wrong "started" event)

  abbrev exchange : Asked → Result Exchange
  exchange a = do
    n ← next_clock a.reply
    ok (record { begin_wall = a.begin_wall; begin = a.begin; unix_ns = n; finish = a.finish })

  -- The loop over the questions; the wait for an answer that does not come ends in `queue.Empty`.
  unfoldable pub exchanges : ℕ → List Asked → Result (List Exchange)
  exchanges zero asked = ok []
  exchanges (suc n) [] = err (runtime_error "Empty()")
  exchanges (suc n) (a ∷ asked) = do x ← exchange a; xs ← exchanges n asked; ok (x ∷ xs)

  abbrev estimated : Json → List Exchange → Result Session
  estimated identity [] = err (value_error "min() iterable argument is empty")
  estimated identity (x ∷ xs) =
      let (u, o) = estimate_clock x xs in
      ok (record { identity = identity; uncertainty_ns = u; offset_ns = o })

  -- The first event, and the five questions
  unfoldable pub connect : String → Event → List Asked → Result Session
  unfolding is_host exchanges estimate_clock
  connect host greeting asked = do
    require (is_host host) (value_error "invalid SSH host")
    identity ← next_hello greeting
    xs ← exchanges 5 asked
    estimated identity xs

  -- `start`: the sizes of the workload files, and the answer to the command
  unfoldable pub start : List ℕ → Event → Result Json
  start sizes answer = do
    require (all (λ n. leb n 67_108_864) sizes) (value_error "workload file exceeds 64 MiB")
    next_started answer

-- The clock is asked at these times of the agent's host.
abbrev pub questions : List ℕ → List (ℕ × Result Command)
questions ts = map (λ t. (t, ok ask_clock)) ts

obey-questions :
    (h : Host) (client : RunCommand → List Event) (ts : List ℕ) (more : List (ℕ × Result Command))
    → obey h client (questions ts ++ more) ≡ map clock ts ++ obey h client more
unfolding obey
obey-questions h client [] more = refl
obey-questions h client (t ∷ ts) more = ap (λ l. clock t ∷ l) (obey-questions h client ts more)

-- The question of an exchange, with the agent's answer.
abbrev answered : Exchange → Asked
answered x = record {
  begin_wall = x.begin_wall;
  begin = x.begin;
  finish = x.finish;
  reply = clock x.unix_ns;
}

exchanges-answered :
    (show : Event → String) (xs : List Exchange)
    → exchanges show (length xs) (map answered xs) ≡ ok xs
unfolding exchanges
exchanges-answered show [] = refl
exchanges-answered show (x ∷ xs) = rw (exchanges-answered show xs) refl

-- The session of a collector, from the clocks of the exchanges.
abbrev session : Json → Exchange → List Exchange → Session
session identity x xs = record {
  identity = identity;
  uncertainty_ns = (estimate_clock x xs).0;
  offset_ns = (estimate_clock x xs).1;
}

-- The collector asks, with its clocks as in these exchanges, and takes the next events as the answers.
abbrev pub ask : List Exchange → List Event → List Asked
ask [] events = []
ask (x ∷ xs) [] = []
ask (x ∷ xs) (e ∷ events) =
    record { begin_wall = x.begin_wall; begin = x.begin; finish = x.finish; reply = e }
    ∷ ask xs events

ask-answered :
    (xs : List Exchange) (more : List Event)
    → ask xs (map clock (map (λ y. y.unix_ns) xs) ++ more) ≡ map answered xs
ask-answered [] more = refl
ask-answered (x ∷ xs) more = rw (ask-answered xs more) refl

abbrev first_of : List Event → Event
first_of [] = eof
first_of (e ∷ es) = e

abbrev rest_of : List Event → List Event
rest_of [] = []
rest_of (e ∷ es) = es

-- If the host's name is valid, and the agent is asked for its clock five times before any other commands,
-- each time during an exchange in which the collector's wall clock is `ahead` of it, then the collector
-- that takes the agent's first event as the greeting and the next ones as the answers connects: it has the
-- identity of the agent's host; the offset that it keeps differs from `ahead` by at most the uncertainty
-- that it keeps and one nanosecond; and no exchange gave a smaller uncertainty.
pub connect-Near :
    (show : Event → String) (host : String) (h : Host) (ahead : ℤ) (x : Exchange)
    (xs : List Exchange) (more : List (ℕ × Result Command)) (begin : ℕ) (rounds : List Round)
    (f : Finish) (e : Event) (es : List Event)
    → is_host host ≡ true
    → length (x ∷ xs) ≡ 5
    → Reads ahead x
    → All (Reads ahead) xs
    → agent h (questions (map (λ y. y.unix_ns) (x ∷ xs)) ++ more) begin rounds f ≡ e ∷ es
    → (s : Session) × (connect show host e (ask (x ∷ xs) es) ≡ ok s)
      × (s.identity ≡ h.identity)
      × Near (s.uncertainty_ns + 1) s.offset_ns ahead
      × All (λ y. s.uncertainty_ns ≤ elapsed y / 2) (x ∷ xs)
unfolding agent connect
connect-Near show host h ahead x xs more begin rounds f e es valid five reads all_read emitted =
    let read : exchanges show 5 (map answered (x ∷ xs)) ≡ ok (x ∷ xs) =
      ap (λ n. exchanges show n (map answered (x ∷ xs))) (sym five)
      ∙ exchanges-answered show (x ∷ xs) in
    let client : RunCommand → List Event = λ d. run_client d begin rounds f in
    let greeted : e ≡ hello h.identity = sym (ap first_of emitted) in
    let answers : es ≡ map clock (map (λ y. y.unix_ns) (x ∷ xs)) ++ obey h client more =
      sym (ap rest_of emitted) ∙ obey-questions h client (map (λ y. y.unix_ns) (x ∷ xs)) more in
    let asked : ask (x ∷ xs) es ≡ map answered (x ∷ xs) =
      ap (ask (x ∷ xs)) answers ∙ ask-answered (x ∷ xs) (obey h client more) in
    let (near, least) = estimate_clock-Near ahead x xs reads all_read in
    (session h.identity x xs, rw (greeted, asked, valid, read) refl, refl, near, least)
