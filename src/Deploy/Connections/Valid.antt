-- ===== src/Deploy/Connections/Valid.antt =====
-- `Options.validate` of deploy/connections.py against a description of the options it accepts.
use zhtps.Common.{
  ◌≡◌, ◌↔◌, true, false, All, Option, some, String, ok, require-eq-ok, Option-cases, inl, inr,
}
use zhtps.Deploy.Address.{Address, is_unspecified, is_multicast}
use zhtps.Deploy.Names.{
  is_interface_name, is_table_name, has_zone, not-or_or, InRange, between_iff, require_each_iff,
}
use zhtps.Deploy.Connections.{Options, amounts, validate}

module _ (ip_address : String → Option Address) where
  pub record IsValid (o : Options) : Type 0 where
    pub address : Address
    pub parsed : ip_address o.listen_address ≡ some address
    pub specified : is_unspecified address ≡ false
    pub unicast : is_multicast address ≡ false
    pub unscoped : has_zone o.listen_address ≡ false
    pub port : InRange 1 65535 o.listen_port
    pub interface : is_interface_name o.interface ≡ true
    pub table : is_table_name o.table ≡ true
    pub budgets : All (InRange 1 1_000_000_000) (amounts o)

  validate_sound :
      (o : Options) {a : Address}
      → ip_address o.listen_address ≡ some a
      → validate ip_address o ≡ ok tt
      → IsValid o
  unfolding validate
  validate_sound o {a} known h =
      let (explicit, h1) = require-eq-ok _ _ _ (rw (known, validate) at h) in
      let (specified, unicast, unscoped) = not-or_or _ _ _ explicit in
      let (port, h2) = require-eq-ok _ _ _ h1 in
      let (interface, h3) = require-eq-ok _ _ _ h2 in
      let (table, h4) = require-eq-ok _ _ _ h3 in
      record {
        address = a;
        parsed = known;
        specified = specified;
        unicast = unicast;
        unscoped = unscoped;
        port = (between_iff 1 65535 o.listen_port).0 port;
        interface = interface;
        table = table;
        budgets = (require_each_iff 1 1_000_000_000 _ (amounts o)).0 h4;
      }

  validate_complete : {o : Options} → IsValid o → validate ip_address o ≡ ok tt
  unfolding validate
  validate_complete {o} v =
      rw
        (
          v.parsed,
          validate,
          v.specified,
          v.unicast,
          v.unscoped,
          (between_iff 1 65535 o.listen_port).1 v.port,
          v.interface,
          v.table,
        )
        ((require_each_iff 1 1_000_000_000 _ (amounts o)).1 v.budgets)

  -- For any parser of addresses, `Options.validate` of the listener succeeds exactly on options with an
  -- explicit unicast address, a port, an interface and a table name of the right form, and all four
  -- rates and bursts in 1..1000000000.
  pub validate_iff : (o : Options) → (validate ip_address o ≡ ok tt) ↔ IsValid o
  unfolding validate
  validate_iff o = elim (Option-cases (ip_address o.listen_address)) [
    | inl unknown ↦ (λ h. cc (rw (unknown, validate) at h), validate_complete)
    | inr (a, known) ↦ (validate_sound o known, validate_complete)
  ]
