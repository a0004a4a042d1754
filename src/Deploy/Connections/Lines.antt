-- ===== src/Deploy/Connections/Lines.antt =====
-- The options of deploy/connections.py cannot add a line to the generated table.
use zhtps.Common.{
  ok-injective, >>=-eq-ok, if◌then◌else◌, ◌+◌, ◌≡◌, refl, String, Option, some, ok, newlines,
  newlines-append, newlines-str, arith, false,
}
use zhtps.Deploy.Address.{Address, v4, v6, is_v6}
use zhtps.Deploy.Names.{has_zone, newlines-table_name, newlines-interface_name}
use zhtps.Deploy.Connections.{Options, table_text, nft_config, validate}
use zhtps.Deploy.Connections.Valid.{validate_iff}

newlines-family : (a : Address) → newlines (if is_v6 a then "ip6" else "ip") ≡ 0
newlines-family (v4 n) = refl
newlines-family (v6 n zone) = refl

table_text_lines :
    (o : Options) (family : String)
    → newlines (table_text o family)
      ≡ 16 + newlines o.table + newlines o.interface + newlines family + newlines o.listen_address
unfolding table_text
table_text_lines o family = simp (newlines-append, newlines-str) (omega arith)

-- The parser of addresses takes no text that holds a line end, unless behind the mark of a zone.
abbrev pub KeepsLine : (String → Option Address) → Type 0
KeepsLine ip_address =
    (text : String) (a : Address)
    → ip_address text ≡ some a
    → has_zone text ≡ false
    → newlines text ≡ 0

-- For a parser of addresses that takes no text with a line end outside a zone, every table that
-- `nft_config` of the listener returns has sixteen lines, whatever the options.
pub nft_config_lines :
    (ip_address : String → Option Address) (o : Options) (table : String)
    → KeepsLine ip_address
    → nft_config ip_address o ≡ ok table
    → newlines table ≡ 16
unfolding nft_config
nft_config_lines ip_address o table keeps h =
    let (_, valid, _) = >>=-eq-ok (validate ip_address o) _ h in
    let v = (validate_iff ip_address o).0 valid in
    let family = if is_v6 v.address then "ip6" else "ip" in
    let text : table_text o family ≡ table = ok-injective (rw (valid, v.parsed, nft_config) at h) in
    rw (← text) (
      omega (
        arith,
        table_text_lines o family,
        newlines-table_name o.table v.table,
        newlines-interface_name o.interface v.interface,
        keeps o.listen_address v.address v.parsed v.unscoped,
        newlines-family v.address,
      ))
