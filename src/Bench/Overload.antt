-- ===== src/Bench/Overload.antt =====
-- bench/overload.py: a run of fixed-rate phases against a server. Here are its options, which `main` checks
-- before anything starts, and the limits and the CPU that it sets for itself.
pub mod Checks
pub mod Commands
pub mod ProcText
pub mod Proc
pub mod ProcFields
pub mod ProcTests
pub mod Loops
pub mod Report
pub mod Recorded
pub mod Completed
pub mod Audited
pub mod Tests
use zhtps.Common.{
  ℕ, suc, zero, ◌+◌, ◌-◌, ◌≡◌, refl, Bool, true, false, not, ◌&&◌, ◌||◌, List, [], ◌∷◌, ◌++◌,
  Option, none, some, String, ltb, ◌==◌, codes, length, if◌then◌else◌, Result, ok, err, Error,
  value_error, usage_error, ◌>>=◌, ◌>>◌, require, ℤ, pos, ◌+ℤ◌, ◌*ℤ◌, eqb_ℤ, ltb_ℤ, min_ℤ, max_ℤ,
  any,
}
use zhtps.Bench.Floats.{Floats, number}
use zhtps.Deploy.WorkerCpus.CpuList.{split, to_int}

-- An argument that is there and not empty.
abbrev pub is_given : Option String → Bool
is_given none = false
is_given (some String.[]) = false
is_given (some (String.◌∷◌ c s)) = true

abbrev pub is_some {ℓ} : {A : Type ℓ} → Option A → Bool
is_some none = false
is_some (some x) = true

-- `range(lo, lo + n)`
abbrev pub count_from : ℕ → ℕ → List ℕ
count_from lo zero = []
count_from lo (suc n) = lo ∷ count_from (suc lo) n

abbrev last_text : List ℕ → List (List ℕ) → List ℕ
last_text a [] = a
last_text a (b ∷ bs) = last_text b bs

-- A part of a CPU list: the ends are the first and the last of the texts between dashes.
abbrev pub ends_of : List (List ℕ) → Result (List ℕ)
ends_of [] = ok []
ends_of (a ∷ bs) = do lo ← to_int a; hi ← to_int (last_text a bs); ok (count_from lo (hi + 1 - lo))

unfoldable pub parts_of : List (List ℕ) → Result (List ℕ)
parts_of [] = ok []
parts_of (part ∷ parts) = do
  cpus ← ends_of (split b'-' part)
  more ← parts_of parts
  ok (cpus ++ more)

-- `cpu_list`: the CPUs in the order of the text, which may repeat.
unfoldable pub cpu_list : String → Result (List ℕ)
unfolding split to_int parts_of
cpu_list text = parts_of (split b',' (codes text))

abbrev pub is_in : ℕ → List ℕ → Bool
is_in c [] = false
is_in c (x ∷ xs) = c == x || is_in c xs

-- The elements of the first that are not in the second.
abbrev pub without : List ℕ → List ℕ → List ℕ
without [] ys = []
without (x ∷ xs) ys = let rest = without xs ys in if is_in x ys then rest else x ∷ rest

abbrev pub overlap : List ℕ → List ℕ → Bool
overlap xs ys = any (λ x. is_in x ys) xs

module _ (N : Floats) where
  open N use {F, is_below}

  pub record Options : Type 0 where
    pub server_address : String
    pub server_port : ℤ
    pub target_address : Option String
    pub client_host : Option String
    pub remote_client_binary : Option String
    pub remote_timeout : F
    pub allow_same_host_client : Bool
    pub schedule : String
    pub labels : Option String
    pub server_cpus : String
    pub client_cpus : String
    pub client_netns_pid : Option ℤ
    pub workers : ℤ
    pub max_connections : ℤ
    pub connections : ℤ
    pub shards : ℤ
    pub queue : ℤ
    pub max_lag : String
    pub rate_limit : ℤ
    pub burst : Option ℤ
    pub max_active : Option ℤ
    pub rejection_rate : ℤ
    pub churn : Bool
    pub access_log : Bool
    pub source_ips : ℤ
    pub method : String
    pub path : String
    pub request_body : Option String
    pub expect_body : Option String
    pub content_type : String
    pub allow_chunked : Bool
    pub client_max_requests : ℤ
    pub server_max_requests : ℤ
    pub timeout : String

  -- The host: its CPUs and descriptor limits, resolving a path, and reading an address, which tells
  -- whether it is a loopback one.
  pub record Host : Type 0 where
    pub affinity : List ℕ
    pub soft : ℤ
    pub hard : ℤ
    pub resolve : String → String
    pub is_loopback : String → Result Bool

  abbrev pub is_remote : Options → Bool
  is_remote o = is_given o.client_host

  abbrev pub check_local : Options → Result (Unit {0})
  check_local o = do
    server ← cpu_list o.server_cpus
    client ← cpu_list o.client_cpus
    require (not (overlap server client))
        (usage_error "server and client CPU lists must not overlap")

  abbrev pub check_address : Host → Options → Result (Unit {0})
  check_address h o =
      let looked : Result (Unit {0}) = (do
        loopback ← h.is_loopback o.server_address
        require (not loopback) (
            usage_error
              "remote runs require a reachable --server-address or an explicit --target-address")) in
      if is_given o.target_address then ok tt else looked

  abbrev pub timeout_allowed : F → Bool
  timeout_allowed t = is_below (number N 0) t && not (is_below (number N 86_400) t)

  abbrev pub check_remote : Host → Options → Result (Unit {0})
  check_remote h o = do
    require (is_given o.remote_client_binary && timeout_allowed o.remote_timeout)
        (usage_error "remote runs require a binary path and timeout in (0, 86400] seconds")
    require (eqb_ℤ o.source_ips (pos 0))
        (usage_error "loopback source IP sharding is not valid for a remote generator")
    check_address h o

  unfoldable pub check_options : Host → Options → Result (Unit {0})
  unfolding cpu_list
  check_options h o = do
    require (not (is_some o.client_netns_pid && is_remote o))
        (usage_error "local network namespaces cannot be combined with a remote client")
    (if is_remote o then check_remote h o else check_local o)
    cpus ← cpu_list o.server_cpus
    require (not (ltb_ℤ (pos (length cpus)) o.workers))
        (usage_error "provide at least one server CPU per worker")

  -- The CPU that the program itself moves to, if there is one besides the server's and the client's.
  abbrev pub least : List ℕ → Option ℕ
  least [] = none
  least (x ∷ xs) = some (least_from x xs)
    where
      least_from : ℕ → List ℕ → ℕ
      least_from x [] = x
      least_from x (y ∷ ys) = least_from (if ltb y x then y else x) ys

  unfoldable pub monitor_cpu : Host → Options → Result (Option ℕ)
  unfolding cpu_list
  monitor_cpu h o = do
    server ← cpu_list o.server_cpus
    let here : Result (Option ℕ) = (do
      client ← cpu_list o.client_cpus
      ok (least (without (without h.affinity server) client)))
    (if is_remote o then ok (least (without h.affinity server)) else here)

  -- The soft limit of descriptors that is set.
  abbrev pub soft_limit : Host → Options → ℤ
  soft_limit h o =
      min_ℤ (max_ℤ h.soft (o.connections +ℤ o.workers *ℤ o.max_connections +ℤ pos 256)) h.hard
