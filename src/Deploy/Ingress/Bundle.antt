-- ===== src/Deploy/Ingress/Bundle.antt =====
-- `write_bundle` of deploy/ingress.py. The snapshot of the origin's configuration is JSON.
pub mod Writes
pub mod Written
use zhtps.Common.{String, ◌<>◌, Bool, List, [], ◌∷◌, ◌++◌, Option, none, some, ℤ, pos, Result, ok}
use zhtps.Deploy.Address.{Address}
use zhtps.Json.{Json, null, boolean, number, text, object, Fields, end, field, dumps}
use zhtps.Deploy.Folder.{
  Folder, Action, ◌>>=◌, ◌>>◌, lift, make_folder, refuse_existing, make_directories, write_files,
}
use zhtps.Deploy.Ingress.{Options, validate, connection_budget, active_budget, idle_per_worker}
use zhtps.Deploy.Ingress.Config.{nginx_config, nft_config}

abbrev optional_number : Option ℤ → Json
optional_number none = null
optional_number (some n) = number n

-- `dict(asdict(options), origin_connection_budget=…, …)`
abbrev limits : Options → Fields
limits o = field "listen_address" (text o.listen_address) (
    field "listen_port" (number o.listen_port) (
      field "origin_address" (text o.origin_address) (
        field "origin_port" (number o.origin_port) (
          field "interface" (text o.interface) (
            field "request_rate" (number o.request_rate) (
              field "request_burst" (number o.request_burst) (
                field "connection_rate" (number o.connection_rate) (
                  field "connection_burst" (number o.connection_burst) (
                    field "reset_rate" (number o.reset_rate) (
                      field "reset_burst" (number o.reset_burst) (
                        field "origin_workers" (number o.origin_workers) (
                          field "origin_slots" (number o.origin_slots) (
                            field "origin_active_per_worker"
                              (optional_number o.origin_active_per_worker)
                              (field "proxy_workers" (number o.proxy_workers) (
                                field "proxy_connections" (number o.proxy_connections) (
                                  field "max_body_bytes" (number o.max_body_bytes) (
                                    field "keepalive_requests" (number o.keepalive_requests) (
                                      field "access_log" (boolean o.access_log) (
                                        field "table" (text o.table) (
                                          field "origin_connection_budget"
                                            (number (connection_budget o))
                                            (field "origin_active_budget" (number (active_budget o))
                                              (field "idle_connections_per_proxy_worker"
                                                (number (idle_per_worker o))
                                                end))))))))))))))))))))))

abbrev snapshot_file : Option Json → List (String × String)
snapshot_file none = []
snapshot_file (some config) = ("origin-config.json", dumps 0 config <> "\n") ∷ []

-- The files, by name, from the generated texts.
abbrev pub bundle_files : Options → Option Json → String → String → List (String × String)
bundle_files o origin_config nginx nft =
    (("nginx.conf", nginx)
      ∷ ("connections.nft", nft)
      ∷ ("remove-connections.nft", "delete table inet " <> o.table <> "\n")
      ∷ ("limits.json", dumps 0 (object (limits o)) <> "\n")
      ∷ [])
    ++ snapshot_file origin_config

abbrev pub directories : List String
directories = "logs" ∷ "body_temp" ∷ "proxy_temp" ∷ []

module _ (others : String → Folder → Folder) where
  -- From the test for old files on.
  abbrev pub write_new : List (String × String) → Action (Unit {0})
  write_new files = do refuse_existing files; make_directories directories; write_files others files

module _ (ip_address : String → Option Address) (others : String → Folder → Folder) where
  -- The generated texts, and the files.
  abbrev pub write_generated : Options → Option Json → Action (Unit {0})
  write_generated o origin_config = do
    nginx ← lift (nginx_config ip_address o)
    nft ← lift (nft_config ip_address o)
    write_new others (bundle_files o origin_config nginx nft)

  unfoldable pub write_bundle : Options → Option Json → Action (Unit {0})
  write_bundle o origin_config = do
    lift (validate ip_address o)
    make_folder
    write_generated o origin_config
