-- ===== src/Deploy/Samples.antt =====
-- Options of deploy/connections.py and deploy/ingress.py, and output folders, for the tests.
use text.Mathlib.Text.{◌==◌ as str_eq}
use text.Mathlib.TextEquality.{eq_iff}
use zhtps.Common.{
  Bool-cases, inl, inr, ap, newlines, String, false, [], ◌∷◌, Option, none, some, pos,
  if◌then◌else◌, true,
}
use zhtps.Deploy.Address.{Address, v4}
use zhtps.Deploy.Folder.{Folder, file}
use zhtps.Deploy.Connections
use zhtps.Deploy.Connections.Lines.{KeepsLine}
use zhtps.Deploy.Ingress

-- Two addresses, of which the first is the listener's.
abbrev pub known_address : String → Option Address
known_address text =
    if str_eq text "192.0.2.10"
    then some (v4 3221225994)
    else if str_eq text "127.0.0.1"
    then some (v4 2130706433)
    else none

abbrev pub listener : Connections.Options
listener = record {
  listen_address = "192.0.2.10";
  listen_port = pos 8080;
  interface = "eth0";
  connection_rate = pos 1000;
  connection_burst = pos 200;
  reset_rate = pos 50;
  reset_burst = pos 10;
  table = "zhtps_connections";
}

abbrev pub gate : Ingress.Options
gate = record {
  listen_address = "192.0.2.10";
  listen_port = pos 80;
  origin_address = "127.0.0.1";
  origin_port = pos 8080;
  interface = "eth0";
  request_rate = pos 5000;
  request_burst = pos 0;
  connection_rate = pos 1000;
  connection_burst = pos 200;
  reset_rate = pos 50;
  reset_burst = pos 10;
  origin_workers = pos 2;
  origin_slots = pos 512;
  origin_active_per_worker = some (pos 100);
  proxy_workers = pos 4;
  proxy_connections = pos 4096;
  max_body_bytes = pos 67108864;
  keepalive_requests = pos 1000;
  access_log = false;
  table = "zhtps_ingress";
}

abbrev pub empty_folder : Folder
empty_folder = record { is_dir = false; refusal = none; entries = [] }

abbrev pub old_folder : Folder
old_folder = record { is_dir = true; refusal = none; entries = ("limits.json", file "{}\n") ∷ [] }

-- The parser takes no text with a line end.
pub known_address-KeepsLine : KeepsLine known_address
known_address-KeepsLine text a h _ = elim (Bool-cases (str_eq text "192.0.2.10")) [
  | inl first ↦ ap newlines ((eq_iff text "192.0.2.10").0 first)
  | inr no_first ↦ elim (Bool-cases (str_eq text "127.0.0.1")) [
    | inl second ↦ ap newlines ((eq_iff text "127.0.0.1").0 second)
    | inr neither ↦ cc (rw (no_first, neither) at h)
  ]
]
