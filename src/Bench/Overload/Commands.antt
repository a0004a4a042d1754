-- ===== src/Bench/Overload/Commands.antt =====
-- The commands of a run in bench/overload.py: the server's, and the load client's here or on its host.
use zhtps.Common.{
  ℕ, Bool, true, false, List, [], ◌∷◌, ◌++◌, Option, none, some, String, ◌<>◌, if◌then◌else◌, ℤ,
  str, str_ℕ,
}
use zhtps.Bench.Floats.{Floats}
use zhtps.Bench.Overload.{Options, Host, is_given}

abbrev flag_if : Bool → String → List String
flag_if true flag = flag ∷ []
flag_if false flag = []

abbrev number_flag : String → Option ℤ → List String
number_flag flag none = []
number_flag flag (some n) = flag ∷ str n ∷ []

abbrev or_text : Option String → String
or_text none = ""
or_text (some text) = text

-- The program on the CPUs of a list.
abbrev pub taskset : String → String → List String → List String
taskset cpus binary arguments = "taskset" ∷ "-c" ∷ cpus ∷ binary ∷ arguments

module _ (N : Floats) (h : Host N) (o : Options N) where
  abbrev pub server_arguments : List String
  server_arguments =
      ("--address"
        ∷ o.server_address
        ∷ "--port"
        ∷ str o.server_port
        ∷ "--admin-port"
        ∷ "0"
        ∷ "--workers"
        ∷ str o.workers
        ∷ "--max-connections"
        ∷ str o.max_connections
        ∷ "--rate"
        ∷ str o.rate_limit
        ∷ "--rejection-rate"
        ∷ str o.rejection_rate
        ∷ "--max-requests"
        ∷ str o.server_max_requests
        ∷ [])
      ++ (flag_if (no_log o.access_log) "--no-access-log"
          ++ (number_flag "--burst" o.burst ++ number_flag "--max-active" o.max_active))
    where
      no_log : Bool → Bool
      no_log true = false
      no_log false = true

  -- `binary` is the resolved path of the server.
  abbrev pub server_command : String → List String
  server_command binary = taskset o.server_cpus binary server_arguments

  -- Where the client sends to, from the port that the server listens on.
  abbrev pub destination : ℕ → String
  destination port =
      if is_given o.target_address
      then or_text o.target_address
      else o.server_address <> ":" <> str_ℕ port

  abbrev pub client_arguments : ℕ → List String
  client_arguments port =
      ("-address"
        ∷ destination port
        ∷ "-schedule"
        ∷ o.schedule
        ∷ "-connections"
        ∷ str o.connections
        ∷ "-shards"
        ∷ str o.shards
        ∷ "-queue"
        ∷ str o.queue
        ∷ "-max-lag"
        ∷ o.max_lag
        ∷ "-timeout"
        ∷ o.timeout
        ∷ "-source-ips"
        ∷ str o.source_ips
        ∷ "-method"
        ∷ o.method
        ∷ "-path"
        ∷ o.path
        ∷ "-content-type"
        ∷ o.content_type
        ∷ "-max-requests"
        ∷ str o.client_max_requests
        ∷ [])
      ++ (flag_if o.churn "-churn" ++ flag_if o.allow_chunked "-allow-chunked")

  -- The files of the workload with their flags; a path that is given is resolved.
  abbrev workload_file : String → Option String → List String
  workload_file flag none = []
  workload_file flag (some path) = flag ∷ h.resolve path ∷ []

  abbrev pub workload_arguments : List String
  workload_arguments =
      workload_file "-request-body" o.request_body ++ workload_file "-expect-body" o.expect_body

  abbrev in_namespace : Option ℤ → List String → List String
  in_namespace none command = command
  in_namespace (some pid) command = "nsenter" ∷ "--target" ∷ str pid ∷ "--net" ∷ command

  -- The command of a client on this host.
  abbrev pub client_command : String → ℕ → List String
  client_command binary port =
      in_namespace o.client_netns_pid (taskset o.client_cpus binary (client_arguments port))
      ++ workload_arguments
