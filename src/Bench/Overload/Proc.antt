-- ===== src/Bench/Overload/Proc.antt =====
-- What bench/overload.py reads of /proc in each round: of a process, of the kernel's network counters, and
-- of the cores.
use zhtps.Common.{
  str_ℕ, ◌<>◌, any, ℕ, ◌*◌, Bool, ◌||◌, List, [], ◌∷◌, ◌++◌, map, Option, none, some, String, codes,
  ◌==◌, if◌then◌else◌, Result, ok, err, value_error, index_error, map_result, ◌>>=◌, any,
}
use zhtps.Deploy.WorkerCpus.CpuList.{to_int, strip}
use zhtps.Bench.Rotation.{take, drop}
use zhtps.Bench.Overload.ProcText.{Text, words, lines, starts, same, nth, without_colon, after_last}

abbrev pub Fields : Type 0
Fields = List (Text × ℕ)

abbrev is_memory : Text → Bool
is_memory l = starts (codes "VmRSS:") l || starts (codes "VmHWM:") l || starts (codes "VmSwap:") l

abbrev is_switches : Text → Bool
is_switches l =
    starts (codes "voluntary_ctxt_switches:") l || starts (codes "nonvoluntary_ctxt_switches:") l

abbrev memory_field : List Text → Result (Text × ℕ)
memory_field (key ∷ amount ∷ unit ∷ []) = do n ← to_int amount; ok (without_colon key, n * 1024)
memory_field ws = err (value_error "not three values to unpack")

abbrev switches_field : List Text → Result (Text × ℕ)
switches_field (key ∷ amount ∷ []) = do n ← to_int amount; ok (without_colon key, n)
switches_field ws = err (value_error "not two values to unpack")

unfoldable pub status_fields : List Text → Result Fields
unfolding words
status_fields [] = ok []
status_fields (l ∷ ls) =
    let rest = status_fields ls in
    let memory = (do f ← memory_field (words l); fs ← rest; ok (f ∷ fs)) in
    let switches = (do f ← switches_field (words l); fs ← rest; ok (f ∷ fs)) in
    if is_memory l then memory else if is_switches l then switches else rest

abbrev or_index : Option Text → Result Text
or_index none = err (index_error "list index out of range")
or_index (some s) = ok s

-- Of a process: its status, its times in ticks, faults and its last CPU, from its files `stat` and
-- `status` and the number of its descriptors.
pub record ProcSample : Type 0 where
  pub status : Fields
  pub user_ticks : ℕ
  pub system_ticks : ℕ
  pub minor_faults : ℕ
  pub major_faults : ℕ
  pub last_cpu : ℕ
  pub fds : ℕ

-- The fields behind the command's name, by their places.
abbrev pub sample_of_fields : List Text → Text → ℕ → Result ProcSample
sample_of_fields fields status fds = do
  found ← status_fields (lines status)
  user ← nth 11 fields >>= to_int
  system ← nth 12 fields >>= to_int
  minor ← nth 7 fields >>= to_int
  major ← nth 9 fields >>= to_int
  cpu ← nth 36 fields >>= to_int
  ok (record {
    status = found;
    user_ticks = user;
    system_ticks = system;
    minor_faults = minor;
    major_faults = major;
    last_cpu = cpu;
    fds = fds;
  })

unfoldable pub proc_sample : Text → Text → ℕ → Result ProcSample
unfolding words lines status_fields to_int
proc_sample stat status fds = do
  rest ← or_index (after_last none stat)
  sample_of_fields (words rest) status fds

abbrev zip {ℓ κ} : {A : Type ℓ} {B : Type κ} → List A → List B → List (A × B)
zip (x ∷ xs) (y ∷ ys) = (x, y) ∷ zip xs ys
zip [] ys = []
zip (x ∷ xs) [] = []

-- `zip(names, map(int, values))`: a value is read when there is a name for it.
abbrev zip_ints : List Text → List Text → Result Fields
zip_ints [] values = ok []
zip_ints (name ∷ names) [] = ok []
zip_ints (name ∷ names) (w ∷ values) = do
  n ← to_int w
  fs ← zip_ints names values
  ok ((name, n) ∷ fs)

abbrev or_nothing : Option ℕ → ℕ
or_nothing none = 0
or_nothing (some n) = n

-- The last entry of a name, as in a dictionary.
abbrev find : Text → Fields → Option ℕ
find name [] = none
find name ((key, n) ∷ fs) = elim (find name fs) [
  | some m ↦ some m
  | none ↦ if same key name then some n else none
]

abbrev selected : List String
selected =
    "ListenOverflows" ∷ "ListenDrops" ∷ "TCPReqQFullDoCookies" ∷ "TCPReqQFullDrop"
    ∷ "TCPBacklogDrop" ∷ []

-- The counters of the first two lines for TcpExt, with 0 for a name that is not there.
unfoldable pub counters_from : List Text → Result (Option Fields)
unfolding words
counters_from [] = ok none
counters_from (l ∷ ls) =
    let here : Result (Option Fields) = (do
      values ← nth 0 ls
      fields ← zip_ints (drop 1 (words l)) (drop 1 (words values))
      ok (some (map (λ name. (codes name, or_nothing (find (codes name) fields))) selected))) in
    let rest = counters_from ls in if starts (codes "TcpExt:") l then here else rest

-- Names and numbers in turn.
abbrev pairs : List Text → Result Fields
pairs [] = ok []
pairs (name ∷ []) = err (index_error "list index out of range")
pairs (name ∷ amount ∷ ws) = do
  n ← to_int amount
  fs ← pairs ws
  ok ((codes "tcp_" ++ name, n) ∷ fs)

unfoldable pub socket_fields : List Text → Result Fields
unfolding words
socket_fields [] = ok []
socket_fields (l ∷ ls) =
    let rest = socket_fields ls in
    let here = (do fs ← pairs (drop 1 (words l)); more ← rest; ok (fs ++ more)) in
    if starts (codes "TCP:") l then here else rest

-- A row of names and numbers: the first word, without a colon for the soft interrupts.
abbrev number_row : (Text → Text) → (Text → Bool) → List Text → Result (List (Text × List ℕ))
number_row label wanted [] = ok []
number_row label wanted (name ∷ values) =
    let here = (do ns ← map_result to_int values; ok ((label name, ns) ∷ [])) in
    if wanted name then here else ok []

unfoldable pub number_rows :
    (Text → Text) → (Text → Bool) → List Text → Result (List (Text × List ℕ))
unfolding words
number_rows label wanted [] = ok []
number_rows label wanted (l ∷ ls) = do
  row ← number_row label wanted (words l)
  rows ← number_rows label wanted ls
  ok (row ++ rows)

abbrev is_softirq : Text → Bool
is_softirq w = same w (codes "NET_RX:") || same w (codes "NET_TX:")

abbrev interface_names : List String
interface_names =
    "rx_bytes" ∷ "rx_packets" ∷ "rx_errors" ∷ "rx_drops" ∷ "tx_bytes" ∷ "tx_packets" ∷ "tx_errors"
    ∷ "tx_drops" ∷ []

abbrev after_colon : Text → Text → Option (Text × Text)
after_colon name [] = none
after_colon name (c ∷ s) = if c == b':' then some (name, s) else after_colon (name ++ c ∷ []) s

abbrev interface_row : Option (Text × Text) → Result (Text × Fields)
interface_row none = err (value_error "not enough values to unpack")
interface_row (some (name, values)) = do
  ns ← map_result to_int (words values)
  ok (strip name, zip (map codes interface_names) (take 4 ns ++ take 4 (drop 8 ns)))

pub record KernelSample : Type 0 where
  pub counters : Fields
  pub sockets : Fields
  pub softirqs : List (Text × List ℕ)
  pub interfaces : List (Text × Fields)

abbrev kernel_rest : Option Fields → Text → Text → Text → Result (Option KernelSample)
kernel_rest none sockstat softirqs dev = ok none
kernel_rest (some counters) sockstat softirqs dev = do
  sockets ← socket_fields (lines sockstat)
  soft ← number_rows without_colon is_softirq (lines softirqs)
  nics ← map_result (λ l. interface_row (after_colon [] l)) (drop 2 (lines dev))
  ok (some (record { counters = counters; sockets = sockets; softirqs = soft; interfaces = nics }))

-- From the files netstat, sockstat, softirqs and dev; nothing if netstat has no line for TcpExt.
unfoldable pub kernel_sample : Text → Text → Text → Text → Result (Option KernelSample)
unfolding words lines counters_from socket_fields number_rows to_int
kernel_sample netstat sockstat softirqs dev = do
  counters ← counters_from (lines netstat)
  kernel_rest counters sockstat softirqs dev

-- The rows of the chosen CPUs in the file stat.
unfoldable pub core_sample : List ℕ → Text → Result (List (Text × List ℕ))
unfolding words lines number_rows to_int str_ℕ
core_sample cpus stat =
    number_rows (λ w. w) (λ w. any (λ cpu. same w (codes ("cpu" <> str_ℕ cpu))) cpus) (lines stat)
