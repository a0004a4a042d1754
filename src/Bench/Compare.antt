-- ===== src/Bench/Compare.antt =====
-- bench/compare.py: trials of the servers' variants against one another. Here are the options that `main`
-- checks, and the CPUs and limits that it takes.
pub mod Arguments
pub mod Ready
pub mod Trial
pub mod Outcomes
pub mod Summary
pub mod Figures
pub mod Groups
pub mod Summarized
pub mod Tests
use text.Mathlib.Text.{◌==◌ as str_eq}
use zhtps.Common.{
  ℕ, suc, zero, ◌+◌, ◌≡◌, refl, Bool, true, false, not, ◌&&◌, ◌||◌, List, [], ◌∷◌, Option, none,
  some, String, ◌==◌, ltb, length, all, if◌then◌else◌, Result, ok, err, usage_error, index_error,
  ◌>>=◌, ◌>>◌, require, ℤ, pos, negsuc, ◌+ℤ◌, eqb_ℤ, ltb_ℤ, leb_ℤ, max_ℤ, min_ℤ, between, str, ◌<>◌,
}
use zhtps.Bench.Floats.{Floats, number}
use zhtps.Bench.Rotation.{take}

pub data Variant : Type 0 where
  zig_debug zig_release_safe go : Variant

abbrev pub same_variant : Variant → Variant → Bool
same_variant zig_debug zig_debug = true
same_variant zig_release_safe zig_release_safe = true
same_variant go go = true
same_variant zig_debug zig_release_safe = false
same_variant zig_debug go = false
same_variant zig_release_safe zig_debug = false
same_variant zig_release_safe go = false
same_variant go zig_debug = false
same_variant go zig_release_safe = false

abbrev pub is_go : Variant → Bool
is_go v = same_variant v go

abbrev pub is_some {ℓ} : {A : Type ℓ} → Option A → Bool
is_some none = false
is_some (some x) = true

-- An argument that is there and not empty.
abbrev pub is_given : Option String → Bool
is_given none = false
is_given (some text) = not (str_eq text "")

abbrev pub is_none_or : (ℤ → Bool) → Option ℤ → Bool
is_none_or p none = true
is_none_or p (some n) = p n

-- A CPU, with its package and its core.
abbrev pub Topology : Type 0
Topology = List (ℕ × String × String)

abbrev is_known : String × String → List (String × String) → Bool
is_known (p, c) [] = false
is_known (p, c) ((q, d) ∷ keys) = (str_eq p q && str_eq c d) || is_known (p, c) keys

-- The first CPU of each core, for the CPUs in ascending order.
abbrev pub first_of_cores : List (String × String) → Topology → List ℕ
first_of_cores known [] = []
first_of_cores known ((cpu, p, c) ∷ cpus) =
    let rest = first_of_cores (if is_known (p, c) known then known else (p, c) ∷ known) cpus in
    if is_known (p, c) known then rest else cpu ∷ rest

unfoldable pub available_cores : Topology → List ℕ
available_cores cpus = first_of_cores [] cpus

abbrev pub count_from : ℕ → ℕ → List ℕ
count_from lo zero = []
count_from lo (suc n) = lo ∷ count_from (suc lo) n

-- So many times, as `range` counts.
abbrev pub as_count : ℤ → ℕ
as_count (pos n) = n
as_count (negsuc n) = 0

abbrev most : ℤ → List ℤ → ℤ
most x [] = x
most x (y ∷ ys) = most (max_ℤ x y) ys

module _ (N : Floats) where
  open N use {F, is_below}

  pub record Options : Type 0 where
    pub duration : F
    pub warmup : F
    pub repeats : ℤ
    pub connections : List ℤ
    pub is_unrestricted : Bool
    pub client_cores : ℤ
    pub server_address : String
    pub client_host : Option String
    pub remote_client_binary : Option String
    pub variants : List Variant
    pub allow_errors : Bool
    pub zig_workers : ℤ
    pub zig_access_log : Bool
    pub zig_max_connections : Option ℤ
    pub zig_max_active : Option ℤ
    pub tls_certificate : Option String
    pub tls_key : Option String

  -- Where the server and the client run, and the soft limit of descriptors that is set.
  pub record Placement : Type 0 where
    pub server_cpu : ℕ
    pub client_cpus : List ℕ
    pub soft : ℤ

  -- `0 < x <= bound`
  abbrev pub within : ℕ → F → Bool
  within bound x = is_below (number N 0) x && not (is_below (number N bound) x)

  abbrev pub is_local_name : String → Bool
  is_local_name a = str_eq a "127.0.0.1" || str_eq a "0.0.0.0" || str_eq a "localhost"

  abbrev pub check_sizes : Options → Result (Unit {0})
  check_sizes o = do
    require
        (not (is_some o.tls_certificate && not (is_some o.tls_key))
          && not (is_some o.tls_key && not (is_some o.tls_certificate)))
        (usage_error "TLS requires both --tls-certificate and --tls-key")
    require
        (within 60 o.duration
          && within 30 o.warmup
          && between 1 20 o.repeats
          && all (between 1 16_384) o.connections
          && between 1 16 o.client_cores)
        (usage_error
          "require duration (0,60], warmup (0,30], repeats 1..20, connections 1..16384, client cores 1..16")
    require (between 1 32 o.zig_workers) (usage_error "require 1..32 Zig workers")
    require (is_none_or (between 1 8168) o.zig_max_connections)
        (usage_error "Zig public connection capacity must be 1..8168")
    require (is_none_or (between 1 8192) o.zig_max_active)
        (usage_error "Zig active-request capacity must be 1..8192")

  abbrev place_remote : Options → List ℕ → Result (ℕ × List ℕ)
  place_remote o cores = do
    require (is_given o.remote_client_binary && not (is_local_name o.server_address))
        (usage_error "remote load requires a binary path and a reachable --server-address")
    first cores
    where
      first : List ℕ → Result (ℕ × List ℕ)
      first [] = err (index_error "list index out of range")
      first (c ∷ cs) = ok (c, count_from 0 (as_count o.client_cores))

  abbrev place_local : Options → List ℕ → Result (ℕ × List ℕ)
  place_local o [] =
      err (usage_error "require one physical core for Zig plus the requested client cores")
  place_local o (c ∷ cs) = do
    require (not (ltb_ℤ (pos (length (c ∷ cs))) (o.client_cores +ℤ pos 1)))
        (usage_error "require one physical core for Zig plus the requested client cores")
    ok (c, take (as_count o.client_cores) cs)

  -- The hard limit is -1 if there is none. At least one number of connections is given.
  abbrev limit : Options → ℤ → ℤ → Result ℤ
  limit o soft hard = go_on o.connections
    where
      go_on : List ℤ → Result ℤ
      go_on [] = err (usage_error "expected at least one argument")
      go_on (c ∷ cs) = do
        require (not (not (eqb_ℤ hard (negsuc 0)) && ltb_ℤ hard (most c cs +ℤ pos 256))) (
            usage_error (
              "RLIMIT_NOFILE hard limit "
              <> str hard
              <> " is below required "
              <> str (most c cs +ℤ pos 256)))
        ok (max_ℤ soft (most c cs +ℤ pos 256))

  unfoldable pub prepare : Options → Topology → ℤ → ℤ → Result Placement
  unfolding available_cores
  prepare o cpus soft hard = do
    check_sizes o
    (server, client) ←
        (if is_given o.client_host
          then place_remote o (available_cores cpus)
          else place_local o (available_cores cpus))
    raised ← limit o soft hard
    ok (record { server_cpu = server; client_cpus = client; soft = raised })
