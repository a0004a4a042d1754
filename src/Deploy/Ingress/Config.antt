-- ===== src/Deploy/Ingress/Config.antt =====
-- The texts that deploy/ingress.py generates: `nginx_config` and `nft_config`.
use zhtps.Common.{
  String, ◌<>◌, Bool, Option, ℤ, pos, eqb_ℤ, str, Result, ok, ◌>>=◌, ◌>>◌, if◌then◌else◌,
}
use zhtps.Deploy.Address.{Address}
use zhtps.Deploy.Connections
use zhtps.Deploy.Ingress.{Options, validate, endpoint, idle_per_worker, active_budget}

-- A burst of zero is left out.
abbrev pub burst_text : ℤ → String
burst_text burst = if eqb_ℤ burst (pos 0) then "" else " burst=" <> str burst

abbrev pub access_line : Bool → String
access_line log =
    if log then "access_log logs/access.json admission buffer=256k flush=1s;" else "access_log off;"

-- The text, for the two endpoints.
unfoldable pub nginx_text : Options → String → String → String
nginx_text o origin listen =
    "# Generated by deploy/ingress.py. NGINX 1.30 or newer; budgets are aggregate.\n"
    <> "worker_processes "
    <> str o.proxy_workers
    <> ";\n"
    <> "pid logs/nginx.pid;\n"
    <> "error_log logs/error.log crit;\n"
    <> "events { worker_connections "
    <> str o.proxy_connections
    <> "; }\n"
    <> "http {\n"
    <> "    # A constant key shares one budget across clients and proxy workers.\n"
    <> "    limit_req_zone \"zhtps_origin\" zone=requests:64k rate="
    <> str o.request_rate
    <> "r/s;\n"
    <> "    limit_conn_zone \"zhtps_origin\" zone=active:64k;\n"
    <> "    log_format admission escape=json '{\"status\":$status,\"limit\":\"$limit_req_status\",'\n"
    <> "        '\"upstream\":\"$upstream_status\",\"request_time\":$request_time}';\n"
    <> "    "
    <> access_line o.access_log
    <> "\n"
    <> "    client_body_temp_path body_temp;\n"
    <> "    proxy_temp_path proxy_temp;\n"
    <> "    client_header_timeout 5s;\n"
    <> "    client_body_timeout 30s;\n"
    <> "    send_timeout 5s;\n"
    <> "    reset_timedout_connection on;\n"
    <> "    keepalive_timeout 15s;\n"
    <> "    keepalive_requests "
    <> str o.keepalive_requests
    <> ";\n"
    <> "    client_max_body_size "
    <> str o.max_body_bytes
    <> ";\n"
    <> "    upstream origin {\n"
    <> "        zone origin 64k;\n"
    <> "        server "
    <> origin
    <> " max_conns="
    <> str (active_budget o)
    <> " max_fails=0;\n"
    <> "        # Active + idle connections remain inside the configured origin budget.\n"
    <> "        keepalive "
    <> str (idle_per_worker o)
    <> ";\n"
    <> "        keepalive_timeout 10s;\n"
    <> "        keepalive_requests "
    <> str o.keepalive_requests
    <> ";\n"
    <> "    }\n"
    <> "    server {\n"
    <> "        listen "
    <> listen
    <> ";\n"
    <> "        server_name zhtps_ingress;\n"
    <> "        limit_req_status 503;\n"
    <> "        limit_req_log_level notice;\n"
    <> "        limit_conn_status 503;\n"
    <> "        limit_conn_log_level notice;\n"
    <> "        location / {\n"
    <> "            # No waiting room for excess requests or busy origin connections.\n"
    <> "            limit_req zone=requests"
    <> burst_text o.request_burst
    <> " nodelay;\n"
    <> "            limit_conn active "
    <> str (active_budget o)
    <> ";\n"
    <> "            proxy_pass http://origin;\n"
    <> "            proxy_http_version 1.1;\n"
    <> "            proxy_set_header Connection \"\";\n"
    <> "            proxy_set_header Host $http_host;\n"
    <> "            proxy_request_buffering off;\n"
    <> "            proxy_buffering off;\n"
    <> "            proxy_next_upstream off;\n"
    <> "            proxy_connect_timeout 1s;\n"
    <> "            proxy_read_timeout 5s;\n"
    <> "            proxy_send_timeout 5s;\n"
    <> "        }\n"
    <> "    }\n"
    <> "}\n"

-- The options that `nft_config` hands to deploy/connections.py.
abbrev pub connections_options : Options → Connections.Options
connections_options o = record {
  listen_address = o.listen_address;
  listen_port = o.listen_port;
  interface = o.interface;
  connection_rate = o.connection_rate;
  connection_burst = o.connection_burst;
  reset_rate = o.reset_rate;
  reset_burst = o.reset_burst;
  table = o.table;
}

module _ (ip_address : String → Option Address) where
  unfoldable pub nginx_config : Options → Result String
  unfolding nginx_text
  nginx_config o = do
    validate ip_address o
    origin ← endpoint ip_address o.origin_address o.origin_port
    listen ← endpoint ip_address o.listen_address o.listen_port
    ok (nginx_text o origin listen)

  unfoldable pub nft_config : Options → Result String
  nft_config o = do validate ip_address o; Connections.nft_config ip_address (connections_options o)
