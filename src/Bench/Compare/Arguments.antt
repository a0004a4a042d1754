-- ===== src/Bench/Compare/Arguments.antt =====
-- The capacity and the command of a server in a trial of bench/compare.py.
use zhtps.Common.{
  ℕ, Bool, true, false, not, List, [], ◌∷◌, ◌++◌, Option, none, some, String, ◌<>◌, if◌then◌else◌,
  ℤ, pos, eqb_ℤ, ltb_ℤ, max_ℤ, min_ℤ, str, str_ℕ,
}
use zhtps.Bench.Floats.{Floats}
use zhtps.Bench.Compare.{Variant, is_go, Options, is_some}

abbrev pub default_capacity : Bool → ℤ → ℤ
default_capacity allow_errors connections =
    if allow_errors
    then min_ℤ (max_ℤ connections (pos 256)) (pos 8168)
    else max_ℤ connections (pos 256)

abbrev pub or_capacity : ℤ → Option ℤ → ℤ
or_capacity capacity none = capacity
or_capacity capacity (some n) = n

-- A number that is given and not zero.
abbrev or_if_zero : ℤ → Option ℤ → ℤ
or_if_zero capacity none = capacity
or_if_zero capacity (some n) = if eqb_ℤ n (pos 0) then capacity else n

abbrev flag_if : Bool → List String → List String
flag_if true flags = flags
flag_if false flags = []

module _ (N : Floats) (o : Options N) where
  abbrev pub zig_capacity : ℤ → ℤ
  zig_capacity connections =
      or_capacity (default_capacity o.allow_errors connections) o.zig_max_connections

  abbrev pub zig_active : ℤ → ℤ
  zig_active connections = or_if_zero (zig_capacity connections) o.zig_max_active

  -- The server may run on any CPU.
  abbrev pub is_unrestricted : Variant → Bool
  is_unrestricted v = if is_go v then o.is_unrestricted else ltb_ℤ (pos 1) o.zig_workers

  abbrev prefix : Variant → String → ℕ → List String
  prefix v binary cpu =
      if is_unrestricted v then binary ∷ [] else "taskset" ∷ "-c" ∷ str_ℕ cpu ∷ binary ∷ []

  abbrev pub go_arguments : ℕ → List String
  go_arguments port = "-listen" ∷ (o.server_address <> ":" <> str_ℕ port) ∷ []

  abbrev pub zig_arguments : ℕ → ℕ → ℤ → List String
  zig_arguments port admin_port connections =
      ("--port"
        ∷ str_ℕ port
        ∷ "--admin-port"
        ∷ str_ℕ admin_port
        ∷ "--max-requests"
        ∷ "4294967295"
        ∷ "--address"
        ∷ o.server_address
        ∷ [])
      ++ (flag_if (ltb_ℤ (pos 1) o.zig_workers) ("--workers" ∷ str o.zig_workers ∷ [])
          ++ (flag_if (not o.zig_access_log) ("--no-access-log" ∷ [])
              ++ ("--max-connections"
                  ∷ str (zig_capacity connections)
                  ∷ "--max-active"
                  ∷ str (zig_active connections)
                  ∷ [])))

  -- The command up to the options for TLS, which is what the capacity is probed with.
  abbrev pub server_command : Variant → String → ℕ → ℕ → ℕ → ℤ → List String
  server_command v binary cpu port admin_port connections =
      prefix v binary cpu
      ++ (if is_go v then go_arguments port else zig_arguments port admin_port connections)

  -- The certificate and the key, with their resolved paths.
  abbrev pub tls_arguments :
      (String → String) → Variant → Option String → Option String → List String
  tls_arguments resolve v (some certificate) (some key) =
      let dash : String = if is_go v then "-" else "--" in
      (dash <> "tls-certificate") ∷ resolve certificate ∷ (dash <> "tls-key") ∷ resolve key ∷ []
  tls_arguments resolve v certificate key = []

  -- The arguments of the load client; `seconds` prints a float.
  abbrev pub load_arguments : (N.F → String) → ℕ → ℤ → List String
  load_arguments seconds port connections =
      ("-address"
        ∷ (o.server_address <> ":" <> str_ℕ port)
        ∷ "-connections"
        ∷ str connections
        ∷ "-duration"
        ∷ (seconds o.duration <> "s")
        ∷ "-warmup"
        ∷ (seconds o.warmup <> "s")
        ∷ [])
      ++ (flag_if (is_some o.tls_certificate) ("-tls" ∷ [])
          ++ flag_if o.allow_errors ("-allow-errors" ∷ []))
