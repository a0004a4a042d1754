-- ===== src/Bench/Http2Remote.antt =====
-- `run` of bench/http2_remote.py: the supervisor of the HTTP/2 clients on another host. Times are in
-- nanoseconds.
pub mod Order
pub mod Complete
pub mod Shards
pub mod Setup
pub mod Tests
use zhtps.Common.{
  ℕ, zero, suc, ◌+◌, ◌-◌, ◌≡◌, refl, Bool, true, false, not, ◌&&◌, ◌||◌, leb, ltb, ◌==◌, List, [],
  ◌∷◌, ◌++◌, map, Option, none, some, String, ◌<>◌, if◌then◌else◌, Result, ok, err, Error, repr,
  value_error, runtime_error, timeout_error, os_error, key_error, require, ◌>>=◌, ◌>>◌, ℤ, pos,
  eqb_ℤ, str, str_ℕ, length, map_result,
}
use zhtps.Json.{Json}

-- A dictionary from the numbers of the clients.
abbrev pub Table : Type 0 → Type 0
Table A = List (ℕ × A)

module _ {A : Type 0} where
  -- `table[i] = a`
  abbrev pub put : ℕ → A → Table A → Table A
  put i a [] = (i, a) ∷ []
  put i a ((j, b) ∷ t) = let rest = put i a t in if i == j then (i, a) ∷ t else (j, b) ∷ rest

  abbrev pub find : ℕ → Table A → Option A
  find i [] = none
  find i ((j, b) ∷ t) = let rest = find i t in if i == j then some b else rest

  abbrev pub is_known : Option A → Bool
  is_known none = false
  is_known (some _) = true

  abbrev subscript : ℕ → Option A → Result A
  subscript i none = err (key_error (str_ℕ i))
  subscript i (some a) = ok a

  -- `[table[i] for i in range(lo, lo + n)]`
  abbrev pub entries : ℕ → ℕ → Table A → Result (List A)
  entries lo zero t = ok []
  entries lo (suc n) t = do a ← subscript lo (find lo t); rest ← entries (suc lo) n t; ok (a ∷ rest)

-- A client's result: the number of failures it logged, and the rest.
pub record Shard : Type 0 where
  pub failure_log_entries : ℕ
  pub report : Json

-- What a client prints, by its `phase`.
pub data Message : Type 0 where
  prepared_message : Json → Message
  ready_message : Json → Message
  measured_message : Json → Message
  result_message : Shard → Message
  unknown_message : String → Message

-- What the controller asks for, by its `kind`.
pub data Control : Type 0 where
  warmup : Control
  measure : Control
  other_control : Control

-- What `events.get` gives, or nothing in time.
pub data Input : Type 0 where
  nothing : Input
  client : ℕ → Message → Input
  control : Control → Input
  exited : ℕ → ℤ → Input
  invalid : ℕ → String → Input

-- What the supervisor emits from the start of the clients on.
pub data Output : Type 0 where
  all_prepared : List Json → Output
  all_ready : List Json → Output
  all_measured : List Json → Output
  warmup_scheduled : ℕ → Output
  scheduled : ℕ → Output
  sampled : Json → Output
  finished : List Shard → Table ℤ → Output
  failed : String → Output

pub record State : Type 0 where
  pub prepared : Table Json
  pub ready : Table Json
  pub measured : Table Json
  pub results : Table Shard
  pub exits : Table ℤ
  pub last_sample : ℕ

-- One round of the loop: is it cancelled, the clocks at its tests, when the controller was last heard
-- of, the event, the wall clock at a start, whether the clients take it, and the sample.
pub record Round : Type 0 where
  pub is_cancelled : Bool
  pub contact_now : ℕ
  pub last_contact : ℕ
  pub deadline_now : ℕ
  pub input : Input
  pub unix_ns : ℕ
  pub is_open : Bool
  pub sample_now : ℕ
  pub sample_done : ℕ
  pub sample : Json

-- A list is emitted once all clients are in the table.
abbrev pub when_all : ℕ → Table Json → (List Json → Output) → Result (List Output)
when_all n t kind =
    let all = entries 0 n t >>= λ vs. ok (kind vs ∷ []) in if length t == n then all else ok []

module _ (n : ℕ) where
  abbrev pub on_message : ℕ → Message → State → Result (List Output × State)
  on_message i (prepared_message v) s = do
    out ← when_all n (put i v s.prepared) all_prepared
    ok (out, record s { prepared = put i v s.prepared })
  on_message i (ready_message v) s = do
    out ← when_all n (put i v s.ready) all_ready
    ok (out, record s { ready = put i v s.ready })
  on_message i (measured_message v) s = do
    out ← when_all n (put i v s.measured) all_measured
    ok (out, record s { measured = put i v s.measured })
  on_message i (result_message v) s = ok ([], record s { results = put i v s.results })
  on_message i (unknown_message phase) s = err (value_error ("unknown client phase " <> phase))

  abbrev pub is_allowed : Control → State → Bool
  is_allowed warmup s = length s.prepared == n
  is_allowed measure s = length s.ready == n
  is_allowed other_control s = false

  abbrev pub schedule : Control → ℕ → Output
  schedule measure t = scheduled t
  schedule _ t = warmup_scheduled t

  abbrev pub on_control : Control → Round → State → Result (List Output × State)
  on_control c r s = do
    require (is_allowed c s) (value_error "load requested before clients ready")
    require r.is_open (os_error "Broken pipe")
    ok (schedule c (r.unix_ns + 500_000_000) ∷ [], s)

  abbrev pub on_exit : ℕ → ℤ → State → Result (List Output × State)
  on_exit i code s = do
    require (eqb_ℤ code (pos 0) && is_known (find i s.results)) (
        runtime_error
          ("client " <> str_ℕ i <> " exited " <> str code <> " without a complete result"))
    ok ([], record s { exits = put i code s.exits })

  abbrev pub react : Input → Round → State → Result (List Output × State)
  react nothing r s = ok ([], s)
  react (client i m) r s = on_message i m s
  react (control c) r s = on_control c r s
  react (exited i code) r s = on_exit i code s
  react (invalid i text) r s = err (runtime_error ("client " <> str_ℕ i <> ": " <> text))

  -- A sample each second
  abbrev pub and_sample : Round → List Output × State → List Output × State
  and_sample r (out, s) =
      if leb 1_000_000_000 (r.sample_now - s.last_sample)
      then (out ++ sampled r.sample ∷ [], record s { last_sample = r.sample_done })
      else (out, s)

  -- One round.
  unfoldable pub round : ℕ → Round → State → Result (List Output × State)
  round deadline r s = do
    require (not (r.is_cancelled || ltb 20_000_000_000 (r.contact_now - r.last_contact)))
        (runtime_error "controller disconnected")
    require (not (ltb deadline r.deadline_now)) (timeout_error "remote trial deadline")
    next ← react r.input r s
    ok (and_sample r next)

  -- How far the loop is.
  pub data Progress : Type 0 where
    running : State → Progress
    complete : State → Progress
    broken : Error → Progress

  abbrev pub continue :
      Result (List Output × State) → (State → List Output × Progress) → List Output × Progress
  continue (err e) again = ([], broken e)
  continue (ok (out, s)) again = let (more, p) = again s in (out ++ more, p)

  -- The loop, for the rounds that are known.
  unfoldable pub supervise : ℕ → List Round → State → List Output × Progress
  unfolding round
  supervise deadline [] s = ([], if ltb (length s.exits) n then running s else complete s)
  supervise deadline (r ∷ rs) s =
      let more = continue (round deadline r s) (supervise deadline rs) in
      if ltb (length s.exits) n then more else ([], complete s)

  -- The failure logs, by the number of lines that each has: it is the number that the client gave.
  unfoldable pub check_logs : ℕ → List ℕ → Table Shard → Result (Unit {0})
  check_logs i [] t = ok tt
  check_logs i (count ∷ counts) t = do
    shard ← subscript i (find i t)
    require (count == shard.failure_log_entries) (value_error "failure log count mismatch")
    check_logs (suc i) counts t

  unfoldable pub conclude : List ℕ → State → Result Output
  unfolding check_logs
  conclude counts s = do
    check_logs 0 counts s.results
    shards ← entries 0 n s.results
    ok (finished shards s.exits)

  abbrev pub or_failed : Result Output → Output
  or_failed (ok out) = out
  or_failed (err e) = failed (repr e)

  abbrev pub last_output : List ℕ → Progress → List Output
  last_output counts (running s) = []
  last_output counts (complete s) = or_failed (conclude counts s) ∷ []
  last_output counts (broken e) = failed (repr e) ∷ []

  abbrev pub new_state : State
  new_state = record {
    prepared = [];
    ready = [];
    measured = [];
    results = [];
    exits = [];
    last_sample = 0;
  }

  -- All that is emitted from the start of the clients on; `counts` has a number for each client.
  unfoldable pub run : ℕ → List Round → List ℕ → List Output
  unfolding supervise conclude
  run deadline rounds counts =
      let (out, progress) = supervise deadline rounds new_state in
      out ++ last_output counts progress
