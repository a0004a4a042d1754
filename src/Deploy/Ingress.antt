-- ===== src/Deploy/Ingress.antt =====
-- deploy/ingress.py: the options of the NGINX gate, their budgets and their validation.
pub mod Budgets
pub mod Network
pub mod Capacity
pub mod Valid
pub mod Config
pub mod Lines
pub mod Bundle
pub mod Merge
pub mod Tests
use zhtps.Common.{
  ℕ, String, ◌<>◌, Bool, true, false, not, ◌&&◌, ◌||◌, List, [], ◌∷◌, Option, none, some, ℤ, pos,
  between, ltb_ℤ, leb_ℤ, eqb_ℤ, ◌*ℤ◌, ◌+ℤ◌, ◌-ℤ◌, ◌//ℤ◌, max_ℤ, min_ℤ, str, Result, ok, err,
  value_error, Error, require, check_all, ◌>>=◌, ◌>>◌, if◌then◌else◌,
}
use zhtps.Deploy.Address.{Address, parse_address, is_unspecified, is_multicast, is_v6, same_address}
use zhtps.Deploy.Names.{is_interface_name, is_table_name, has_zone, require_each}

pub record Options : Type 0 where
  pub listen_address : String
  pub listen_port : ℤ
  pub origin_address : String
  pub origin_port : ℤ
  pub interface : String
  pub request_rate : ℤ
  pub request_burst : ℤ
  pub connection_rate : ℤ
  pub connection_burst : ℤ
  pub reset_rate : ℤ
  pub reset_burst : ℤ
  pub origin_workers : ℤ
  pub origin_slots : ℤ
  pub origin_active_per_worker : Option ℤ
  pub proxy_workers : ℤ
  pub proxy_connections : ℤ
  pub max_body_bytes : ℤ
  pub keepalive_requests : ℤ
  pub access_log : Bool
  pub table : String

unfoldable pub connection_budget : Options → ℤ
connection_budget o = o.origin_workers *ℤ max_ℤ (pos 1) (o.origin_slots *ℤ pos 3 //ℤ pos 4)

unfoldable pub idle_per_worker : Options → ℤ
idle_per_worker o = min_ℤ (pos 32) (connection_budget o //ℤ (pos 2 *ℤ o.proxy_workers))

-- `min(available, origin_workers * origin_active_per_worker)`, if the latter is given
abbrev pub cap_active : Option ℤ → ℤ → ℤ → ℤ
cap_active none workers available = available
cap_active (some active) workers available = min_ℤ available (workers *ℤ active)

unfoldable pub active_budget : Options → ℤ
active_budget o =
    cap_active o.origin_active_per_worker o.origin_workers
      (connection_budget o -ℤ o.proxy_workers *ℤ idle_per_worker o)

abbrev pub active_in_range : Option ℤ → ℤ → Bool
active_in_range none slots = true
active_in_range (some active) slots = leb_ℤ (pos 1) active && leb_ℤ active slots

-- The tests of `Options.validate` on the worker and connection numbers.
unfoldable pub capacity_checks : Options → List (Bool × Error)
capacity_checks o =
    (
      between 1 256 o.origin_workers && between 1 8176 o.origin_slots,
      value_error "invalid origin worker/connection budget",
    )
    ∷ (
      active_in_range o.origin_active_per_worker o.origin_slots,
      value_error "invalid origin active-request budget",
    )
    ∷ (
      between 1 256 o.proxy_workers && between 16 1_000_000 o.proxy_connections,
      value_error "invalid proxy worker/connection budget",
    )
    ∷ (
      between 1 4294967295 o.max_body_bytes && between 1 4294967295 o.keepalive_requests,
      value_error "invalid body/connection lifetime bound",
    )
    ∷ (
      leb_ℤ (pos 2 *ℤ o.proxy_workers) (connection_budget o),
      value_error "origin budget must leave an active and an idle slot per proxy worker",
    )
    ∷ (
      ltb_ℤ (pos 2 *ℤ active_budget o +ℤ idle_per_worker o) o.proxy_connections,
      value_error "proxy connection budget must leave room for both client and origin sockets",
    )
    ∷ []

unfoldable pub validate_capacity : Options → Result (Unit {0})
validate_capacity o = check_all (capacity_checks o)

-- Its tests on the rates and bursts.
unfoldable pub validate_rates : Options → Result (Unit {0})
validate_rates o = do
  require_each 1 1_000_000_000
      (value_error "calibrated rates must be explicit positive values <= 1000000000")
      (o.request_rate ∷ o.connection_rate ∷ o.reset_rate ∷ [])
  require_each 1 1_000_000_000 (value_error "connection and reset bursts must be positive")
      (o.connection_burst ∷ o.reset_burst ∷ [])
  require (between 0 1_000_000_000 o.request_burst)
      (value_error "request burst must be in 0..1000000000")

-- Its tests on the ports, the two endpoints and the names, once the addresses are parsed.
unfoldable pub network_checks : Options → Address → Address → List (Bool × Error)
network_checks o listen origin =
    (between 1 65535 o.listen_port, value_error "ports must be in 1..65535")
    ∷ (between 1 65535 o.origin_port, value_error "ports must be in 1..65535")
    ∷ (
      not (same_address listen origin && eqb_ℤ o.listen_port o.origin_port),
      value_error "ingress cannot proxy to its own listener",
    )
    ∷ (is_interface_name o.interface, value_error "invalid interface name")
    ∷ (is_table_name o.table, value_error "invalid nftables table name")
    ∷ []

module _ (ip_address : String → Option Address) where
  unfoldable pub explicit_unicast : String → Result Address
  explicit_unicast address = do
    parsed ← parse_address ip_address address
    require (not (is_unspecified parsed || is_multicast parsed || has_zone address))
        (value_error "use explicit unicast listen and origin IP addresses without scope suffixes")
    ok parsed

  -- Its tests on the addresses, the ports and the names.
  unfoldable pub validate_network : Options → Result (Unit {0})
  validate_network o = do
    listen ← explicit_unicast o.listen_address
    origin ← explicit_unicast o.origin_address
    check_all (network_checks o listen origin)

  -- `Options.validate`: the three groups of tests in the source's order
  unfoldable pub validate : Options → Result (Unit {0})
  unfolding validate_network validate_rates validate_capacity
  validate o = do validate_network o; validate_rates o; validate_capacity o

  -- `endpoint`
  unfoldable pub endpoint : String → ℤ → Result String
  endpoint address port = do
    parsed ← parse_address ip_address address
    ok (if is_v6 parsed then "[" <> address <> "]:" <> str port else address <> ":" <> str port)
