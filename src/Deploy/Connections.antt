-- ===== src/Deploy/Connections.antt =====
-- deploy/connections.py: the SYN budget of a direct listener.
pub mod Valid
pub mod Bundle
pub mod Lines
pub mod Tests
use zhtps.Common.{
  ℕ, String, ◌<>◌, Bool, true, false, not, ◌&&◌, ◌||◌, List, [], ◌∷◌, Option, none, some, ℤ, pos,
  between, str, Result, ok, err, value_error, Error, require, ◌>>=◌, ◌>>◌, if◌then◌else◌,
}
use zhtps.Deploy.Address.{Address, parse_address, is_unspecified, is_multicast, is_v6}
use zhtps.Deploy.Names.{is_interface_name, is_table_name, has_zone, require_each}

pub record Options : Type 0 where
  pub listen_address : String
  pub listen_port : ℤ
  pub interface : String
  pub connection_rate : ℤ
  pub connection_burst : ℤ
  pub reset_rate : ℤ
  pub reset_burst : ℤ
  pub table : String

abbrev pub amounts : Options → List ℤ
amounts o = o.connection_rate ∷ o.connection_burst ∷ o.reset_rate ∷ o.reset_burst ∷ []

-- The text of the table, for an address of the given family.
table_text : Options → String → String
table_text o family =
    "# Generated by deploy/connections.py. SYN packets, including retries, are counted.\n"
    <> "# Only this explicit listener/interface is policed; existing connections pass.\n"
    <> "table inet "
    <> o.table
    <> " {\n"
    <> "    counter syn_attempts { }\n"
    <> "    counter syn_over_limit { }\n"
    <> "    counter syn_resets { }\n"
    <> "    counter syn_drops { }\n"
    <> "    chain reject_connection {\n"
    <> "        limit rate "
    <> str o.reset_rate
    <> "/second burst "
    <> str o.reset_burst
    <> " packets counter name syn_resets reject with tcp reset\n"
    <> "        counter name syn_drops drop\n"
    <> "    }\n"
    <> "    chain incoming {\n"
    <> "        type filter hook prerouting priority -300; policy accept;\n"
    <> "        iifname \""
    <> o.interface
    <> "\" "
    <> family
    <> " daddr "
    <> o.listen_address
    <> " tcp dport "
    <> str o.listen_port
    <> " tcp flags & (syn | ack) == syn counter name syn_attempts limit rate over "
    <> str o.connection_rate
    <> "/second burst "
    <> str o.connection_burst
    <> " packets counter name syn_over_limit jump reject_connection\n"
    <> "    }\n"
    <> "}\n"

module _ (ip_address : String → Option Address) where
  -- `Options.validate`
  unfoldable pub validate : Options → Result (Unit {0})
  validate o = do
    address ← parse_address ip_address o.listen_address
    require (not (is_unspecified address || is_multicast address || has_zone o.listen_address))
        (value_error "use an explicit unicast listener IP without a scope suffix")
    require (between 1 65535 o.listen_port) (value_error "listen port must be in 1..65535")
    require (is_interface_name o.interface) (value_error "invalid interface name")
    require (is_table_name o.table) (value_error "invalid nftables table name")
    require_each 1 1_000_000_000
        (value_error "calibrated rates and bursts must be explicit positive values <= 1000000000")
        (amounts o)

  -- `nft_config`
  unfoldable pub nft_config : Options → Result String
  unfolding validate table_text
  nft_config o = do
    validate o
    address ← parse_address ip_address o.listen_address
    ok (table_text o (if is_v6 address then "ip6" else "ip"))
