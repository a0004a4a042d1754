-- ===== src/Bench/AccessLog/Commands.antt =====
-- The commands of a trial of bench/access_log.py.
use zhtps.Common.{Bool, true, false, List, [], ◌∷◌, ◌++◌, String, ◌<>◌, ℕ, zero, suc, str_ℕ, ℤ, str}

pub record Options : Type 0 where
  pub server_cpus : String
  pub client_cpus : String
  pub workers : ℤ
  pub capacity : ℤ
  pub log_slots : ℤ
  pub connections : ℤ
  pub depth : ℤ
  pub rate : ℕ
  pub client : String
  pub offered_client : String

abbrev no_log : Bool → List String
no_log true = []
no_log false = "--no-access-log" ∷ []

-- The server, with the log or without it.
abbrev pub server_command : Options → String → Bool → List String
server_command o binary logging =
    ("taskset"
      ∷ "-c"
      ∷ o.server_cpus
      ∷ binary
      ∷ "--port"
      ∷ "0"
      ∷ "--admin-port"
      ∷ "0"
      ∷ "--workers"
      ∷ str o.workers
      ∷ "--worker-cpus"
      ∷ o.server_cpus
      ∷ "--max-connections"
      ∷ str o.capacity
      ∷ "--max-active"
      ∷ str o.capacity
      ∷ "--max-requests"
      ∷ "4294967295"
      ∷ "--log-slots"
      ∷ str o.log_slots
      ∷ "--large-buffer-bytes"
      ∷ "67108864"
      ∷ "--http2-worker-streams"
      ∷ "256"
      ∷ "--http2-memory-bytes"
      ∷ "67108864"
      ∷ [])
    ++ no_log logging

abbrev client_of : Options → ℕ → String × List String
client_of o zero = (o.client, "-depth" ∷ str o.depth ∷ [])
client_of o (suc rate) =
    (o.offered_client, "-shards" ∷ "4" ∷ "-queue" ∷ "4096" ∷ "-max-lag" ∷ "100ms" ∷ [])

abbrev pub user_agent : String
user_agent =
    "Mozilla/5.0 (X11; Linux x86_64) AppleWebKit/537.36 (KHTML, like Gecko) Chrome/140.0.0.0 Safari/537.36"

-- The client on the port that the server listens on, before the arguments for its duration.
abbrev pub client_command : Options → ℕ → List String
client_command o port =
    ("taskset"
      ∷ "-c"
      ∷ o.client_cpus
      ∷ (client_of o o.rate).0
      ∷ "-address"
      ∷ ("127.0.0.1:" <> str_ℕ port)
      ∷ "-connections"
      ∷ str o.connections
      ∷ "-user-agent"
      ∷ user_agent
      ∷ [])
    ++ (client_of o o.rate).1
