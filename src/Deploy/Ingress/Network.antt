-- ===== src/Deploy/Ingress/Network.antt =====
-- The addresses, ports, names and rates that `Options.validate` of deploy/ingress.py accepts.
use zhtps.Common.{
  ◌≡◌, ◌↔◌, String, true, false, not, ◌&&◌, ◌||◌, [], ◌∷◌, Option, some, ok, All, check_all_iff,
  arith, >>-eq-ok_iff, require-eq-ok, require_iff, value_error, >>=-eq-ok, eqb_ℤ, eqb_ℤ_iff,
  between,
}
use zhtps.Deploy.Address.{
  Address, parse_address, parse_address_iff, is_unspecified, is_multicast, same_address,
  same_address_iff,
}
use zhtps.Deploy.Names.{
  InRange, between_iff, require_each_iff, has_zone, is_interface_name, is_table_name, not-or_or,
}
use zhtps.Deploy.Ingress.{
  Options, explicit_unicast, network_checks, validate_network, validate_rates, require_each,
}

module _ (ip_address : String → Option Address) where
  -- The text stands for an address of one host, with no zone.
  pub record IsUnicast (text : String) (a : Address) : Type 0 where
    pub parsed : ip_address text ≡ some a
    pub specified : is_unspecified a ≡ false
    pub unicast : is_multicast a ≡ false
    pub unscoped : has_zone text ≡ false

  explicit_unicast_sound :
      (text : String) (a : Address) → explicit_unicast ip_address text ≡ ok a → IsUnicast text a
  unfolding explicit_unicast
  explicit_unicast_sound text a h =
      let (b, parsed, rest) = >>=-eq-ok (parse_address ip_address text) _ h in
      let (explicit, same) =
        require-eq-ok (not (is_unspecified b || is_multicast b || has_zone text))
          (value_error "use explicit unicast listen and origin IP addresses without scope suffixes")
          (ok b) rest in
      let (specified, unicast, unscoped) =
        not-or_or (is_unspecified b) (is_multicast b) (has_zone text) explicit in
      let e : b ≡ a = cc in
      record {
        parsed = rw e at ((parse_address_iff ip_address text b).0 parsed);
        specified = rw e at specified;
        unicast = rw e at unicast;
        unscoped = unscoped;
      }

  explicit_unicast_complete :
      (text : String) (a : Address) → IsUnicast text a → explicit_unicast ip_address text ≡ ok a
  unfolding explicit_unicast
  explicit_unicast_complete text a u = rw (u.parsed, u.specified, u.unicast, u.unscoped)

  pub record IsNetworked (o : Options) : Type 0 where
    pub listen : Address
    pub origin : Address
    pub listening : IsUnicast o.listen_address listen
    pub reachable : IsUnicast o.origin_address origin
    pub listen_port : InRange 1 65535 o.listen_port
    pub origin_port : InRange 1 65535 o.origin_port
    pub apart : ¬ ((listen ≡ origin) × (o.listen_port ≡ o.origin_port))
    pub interface : is_interface_name o.interface ≡ true
    pub table : is_table_name o.table ≡ true

  apart_iff :
      (o : Options) (a b : Address)
      → (not (same_address a b && eqb_ℤ o.listen_port o.origin_port) ≡ true)
        ↔ (¬ ((a ≡ b) × (o.listen_port ≡ o.origin_port)))
  apart_iff o a b = ground (arith, same_address_iff a b, eqb_ℤ_iff o.listen_port o.origin_port)

  validate_network_sound : (o : Options) → validate_network ip_address o ≡ ok tt → IsNetworked o
  unfolding validate_network network_checks
  validate_network_sound o h =
      let (a, listening, r) = >>=-eq-ok (explicit_unicast ip_address o.listen_address) _ h in
      let (b, reachable, checks) = >>=-eq-ok (explicit_unicast ip_address o.origin_address) _ r in
      let (h1, (h2, (h3, (h4, (h5, _))))) = (check_all_iff (network_checks o a b)).0 checks in
      record {
        listen = a;
        origin = b;
        listening = explicit_unicast_sound o.listen_address a listening;
        reachable = explicit_unicast_sound o.origin_address b reachable;
        listen_port = (between_iff _ _ _).0 h1;
        origin_port = (between_iff _ _ _).0 h2;
        apart = (apart_iff o a b).0 h3;
        interface = h4;
        table = h5;
      }

  validate_network_complete : (o : Options) → IsNetworked o → validate_network ip_address o ≡ ok tt
  unfolding validate_network network_checks
  validate_network_complete o v =
      rw
        (
          explicit_unicast_complete o.listen_address v.listen v.listening,
          explicit_unicast_complete o.origin_address v.origin v.reachable,
        )
        ((check_all_iff (network_checks o v.listen v.origin)).1 (
          (between_iff _ _ _).1 v.listen_port,
          (
            (between_iff _ _ _).1 v.origin_port,
            ((apart_iff o v.listen v.origin).1 v.apart, (v.interface, (v.table, tt))),
          ),
        ))

  pub validate_network_iff : (o : Options) → (validate_network ip_address o ≡ ok tt) ↔ IsNetworked o
  validate_network_iff o = (validate_network_sound o, validate_network_complete o)

-- The rates and bursts: a request burst of zero is allowed.
pub record IsBudgeted (o : Options) : Type 0 where
  pub rates : All (InRange 1 1_000_000_000) (o.request_rate ∷ o.connection_rate ∷ o.reset_rate ∷ [])
  pub bursts : All (InRange 1 1_000_000_000) (o.connection_burst ∷ o.reset_burst ∷ [])
  pub waiting : InRange 0 1_000_000_000 o.request_burst

pub validate_rates_iff : (o : Options) → (validate_rates o ≡ ok tt) ↔ IsBudgeted o
unfolding validate_rates
validate_rates_iff o = (to, from)
  where
    to : validate_rates o ≡ ok tt → IsBudgeted o
    to h =
        let (rates, r) = (>>-eq-ok_iff (require_each 1 1_000_000_000 _ _) _ tt).0 h in
        let (bursts, r2) = (>>-eq-ok_iff (require_each 1 1_000_000_000 _ _) _ tt).0 r in
        let waiting = (require_iff (between 0 1_000_000_000 o.request_burst) _).0 r2 in
        record {
          rates = (require_each_iff 1 1_000_000_000 _ _).0 rates;
          bursts = (require_each_iff 1 1_000_000_000 _ _).0 bursts;
          waiting = (between_iff 0 1_000_000_000 o.request_burst).0 waiting;
        }

    from : IsBudgeted o → validate_rates o ≡ ok tt
    from v = rw (
      (require_each_iff 1 1_000_000_000 _ _).1 v.rates,
      (require_each_iff 1 1_000_000_000 _ _).1 v.bursts,
      (between_iff 0 1_000_000_000 o.request_burst).1 v.waiting,
    )
