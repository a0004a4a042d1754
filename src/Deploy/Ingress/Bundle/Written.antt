-- ===== src/Deploy/Ingress/Bundle/Written.antt =====
-- What the output folder of deploy/ingress.py holds when the bundle is written, file by file.
use zhtps.Common.{String, ◌≡◌, refl, ◌∙◌, List, [], ◌∷◌, Option, none, some, if◌then◌else◌, ◌<>◌, ℤ}
use zhtps.Json.{Json, object, fields_of, text, number, boolean, null, dumps}
use zhtps.Deploy.Folder.{Folder, Entry, directory, lookup, file}
use zhtps.Deploy.Folder.Laws.{wanted, or_old, IsOther, wanted_other}
use zhtps.Deploy.Folder.Directories.{listed}
use zhtps.Deploy.Ingress.{Options, connection_budget, active_budget, idle_per_worker}
use zhtps.Deploy.Ingress.Bundle.{bundle_files, directories}

-- A number, or null without one.
abbrev or_null : Option ℤ → Json
or_null none = null
or_null (some n) = number n

-- The options as JSON, each under its field's name, and the three computed budgets.
abbrev pub limits_json : Options → Json
limits_json o = object (
    fields_of (
      ("listen_address", text o.listen_address)
      ∷ ("listen_port", number o.listen_port)
      ∷ ("origin_address", text o.origin_address)
      ∷ ("origin_port", number o.origin_port)
      ∷ ("interface", text o.interface)
      ∷ ("request_rate", number o.request_rate)
      ∷ ("request_burst", number o.request_burst)
      ∷ ("connection_rate", number o.connection_rate)
      ∷ ("connection_burst", number o.connection_burst)
      ∷ ("reset_rate", number o.reset_rate)
      ∷ ("reset_burst", number o.reset_burst)
      ∷ ("origin_workers", number o.origin_workers)
      ∷ ("origin_slots", number o.origin_slots)
      ∷ ("origin_active_per_worker", or_null o.origin_active_per_worker)
      ∷ ("proxy_workers", number o.proxy_workers)
      ∷ ("proxy_connections", number o.proxy_connections)
      ∷ ("max_body_bytes", number o.max_body_bytes)
      ∷ ("keepalive_requests", number o.keepalive_requests)
      ∷ ("access_log", boolean o.access_log)
      ∷ ("table", text o.table)
      ∷ ("origin_connection_budget", number (connection_budget o))
      ∷ ("origin_active_budget", number (active_budget o))
      ∷ ("idle_connections_per_proxy_worker", number (idle_per_worker o))
      ∷ []))

-- The origin's snapshot, if there is one, is written too.
abbrev pub SnapshotWritten : Option Json → List (String × Entry) → Type 0
SnapshotWritten none entries = Unit
SnapshotWritten (some config) entries =
    lookup "origin-config.json" entries ≡ some (file (dumps 0 config <> "\n"))

-- The names of the files.
abbrev pub file_names : Option Json → List String
file_names none = "nginx.conf" ∷ "connections.nft" ∷ "remove-connections.nft" ∷ "limits.json" ∷ []
file_names (some config) =
    "nginx.conf" ∷ "connections.nft" ∷ "remove-connections.nft" ∷ "limits.json"
    ∷ "origin-config.json" ∷ []

-- A folder `g` that has the files, with these generated texts, and the directories, beside what `f` has.
abbrev pub HasFiles : Options → Option Json → String → String → Folder → Folder → Type 0
HasFiles o c nginx nft f g =
    (lookup "nginx.conf" g.entries ≡ some (file nginx))
    × (lookup "connections.nft" g.entries ≡ some (file nft))
    × (lookup "remove-connections.nft" g.entries
        ≡ some (file ("delete table inet " <> o.table <> "\n")))
    × (lookup "limits.json" g.entries ≡ some (file (dumps 0 (limits_json o) <> "\n")))
    × SnapshotWritten c g.entries
    × (lookup "logs" g.entries ≡ some directory)
    × (lookup "body_temp" g.entries ≡ some directory)
    × (lookup "proxy_temp" g.entries ≡ some directory)
    × ((name : String)
        → IsOther name (file_names c)
        → IsOther name ("logs" ∷ "body_temp" ∷ "proxy_temp" ∷ [])
        → lookup name g.entries ≡ lookup name f.entries)

-- What the loops leave is that.
pub entries-HasFiles :
    (o : Options) (c : Option Json) (nginx nft : String) (f g : Folder)
    → ((name : String)
        → lookup name g.entries
          ≡ or_old
              (wanted name (bundle_files o c nginx nft))
              (if listed name directories then some directory else lookup name f.entries))
    → HasFiles o c nginx nft f g
entries-HasFiles o none nginx nft f g same = (
  same "nginx.conf",
  same "connections.nft",
  same "remove-connections.nft",
  same "limits.json",
  tt,
  same "logs",
  same "body_temp",
  same "proxy_temp",
  λ name other (a, (b, (d, _))).
      same name ∙ rw (wanted_other name (bundle_files o none nginx nft) other, a, b, d) refl,
)
entries-HasFiles o (some config) nginx nft f g same = (
  same "nginx.conf",
  same "connections.nft",
  same "remove-connections.nft",
  same "limits.json",
  same "origin-config.json",
  same "logs",
  same "body_temp",
  same "proxy_temp",
  λ name other (a, (b, (d, _))).
      same name
      ∙ rw (wanted_other name (bundle_files o (some config) nginx nft) other, a, b, d) refl,
)
