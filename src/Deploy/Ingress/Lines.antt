-- ===== src/Deploy/Ingress/Lines.antt =====
-- The options of deploy/ingress.py cannot add a line to the generated configuration, and options that
-- pass validation yield both configurations.
use zhtps.Common.{
  ◌+◌, ◌≡◌, refl, sym, Bool, true, false, String, ◌<>◌, Option, some, ok, ℤ, str, newlines,
  newlines-append, newlines-str, arith, Result, err, ◌∙◌, ok-injective, >>=-eq-ok, if◌then◌else◌,
  eqb_ℤ, pos, Bool-cases, inl, inr,
}
use zhtps.Deploy.Address.{Address, v4, v6, is_v6}
use zhtps.Deploy.Connections
use zhtps.Deploy.Connections.Bundle.Writes
use zhtps.Deploy.Connections.Lines.{KeepsLine}
use zhtps.Deploy.Ingress.{Options, validate, endpoint}
use zhtps.Deploy.Ingress.Config.{
  burst_text, access_line, nginx_text, nginx_config, nft_config, connections_options,
}
use zhtps.Deploy.Ingress.Valid.{IsValid, validate_gate_iff}

newlines-burst_text : (burst : ℤ) → newlines (burst_text burst) ≡ 0
newlines-burst_text burst = elim (Bool-cases (eqb_ℤ burst (pos 0))) [
  | inl none_given ↦ rw none_given
  | inr given ↦ rw (given, newlines-append) (omega (arith, newlines-str burst))
]

newlines-access_line : (log : Bool) → newlines (access_line log) ≡ 0
newlines-access_line true = refl
newlines-access_line false = refl

nginx_text_lines :
    (o : Options) (origin listen : String)
    → newlines (nginx_text o origin listen) ≡ 53 + newlines origin + newlines listen
unfolding nginx_text
nginx_text_lines o origin listen =
    simp
      (
        newlines-append,
        newlines-str,
        newlines-burst_text o.request_burst,
        newlines-access_line o.access_log,
      )
      (omega arith)

-- `endpoint` of an address that is known.
endpoint_text : Address → String → ℤ → String
endpoint_text a address port =
    if is_v6 a then "[" <> address <> "]:" <> str port else address <> ":" <> str port

endpoint_known :
    (ip_address : String → Option Address) (address : String) (port : ℤ) {a : Address}
    → ip_address address ≡ some a
    → endpoint ip_address address port ≡ ok (endpoint_text a address port)
unfolding endpoint endpoint_text
endpoint_known ip_address address port h = rw h

newlines-endpoint_text :
    (a : Address) (address : String) (port : ℤ)
    → newlines (endpoint_text a address port) ≡ newlines address
unfolding endpoint_text
newlines-endpoint_text (v4 n) address port = simp (newlines-append, newlines-str) (omega arith)
newlines-endpoint_text (v6 n zone) address port = simp (newlines-append, newlines-str) (omega arith)

-- What the two generators return, by the result of the validation.
abbrev pub Agree : Result (Unit {0}) → Result String → Result String → Type 0
Agree (ok _) nginx nft = ((text : String) × (nginx ≡ ok text)) × ((text : String) × (nft ≡ ok text))
Agree (err e) nginx nft = (nginx ≡ err e) × (nft ≡ err e)

module _ (ip_address : String → Option Address) (o : Options) (v : IsValid ip_address o) where
  open v.network use {listen, origin, listening, reachable}

  abbrev pub generated : String
  unfolding nginx_text endpoint_text
  generated =
      nginx_text o (endpoint_text origin o.origin_address o.origin_port)
        (endpoint_text listen o.listen_address o.listen_port)

  pub nginx_config_valid : nginx_config ip_address o ≡ ok generated
  unfolding nginx_config generated
  nginx_config_valid = rw (
    (validate_gate_iff ip_address o).1 v,
    endpoint_known ip_address o.origin_address o.origin_port reachable.parsed,
    endpoint_known ip_address o.listen_address o.listen_port listening.parsed,
  )

  -- The same options pass the validation of deploy/connections.py.
  connections_options-IsValid : Connections.Valid.IsValid ip_address (connections_options o)
  connections_options-IsValid =
      let (connection_rate, (reset_rate, _)) = v.rates.rates.1 in
      let (connection_burst, (reset_burst, _)) = v.rates.bursts in
      record {
        address = listen;
        parsed = listening.parsed;
        specified = listening.specified;
        unicast = listening.unicast;
        unscoped = listening.unscoped;
        port = v.network.listen_port;
        interface = v.network.interface;
        table = v.network.table;
        budgets = (connection_rate, (connection_burst, (reset_rate, (reset_burst, tt))));
      }

  pub nft_config_valid :
      (table : String) × (Connections.nft_config ip_address (connections_options o) ≡ ok table)
      × (nft_config ip_address o ≡ ok table)
  unfolding nft_config
  nft_config_valid =
      let (table, e) =
        Connections.Bundle.Writes.nft_config_valid ip_address (connections_options o)
          connections_options-IsValid in
      (table, e, rw ((validate_gate_iff ip_address o).1 v) e)

  generated_lines : KeepsLine ip_address → newlines generated ≡ 53
  unfolding generated
  generated_lines keeps = omega (
    arith,
    nginx_text_lines o _ _,
    newlines-endpoint_text origin o.origin_address o.origin_port,
    newlines-endpoint_text listen o.listen_address o.listen_port,
    keeps o.origin_address origin reachable.parsed reachable.unscoped,
    keeps o.listen_address listen listening.parsed listening.unscoped,
  )

module _ (ip_address : String → Option Address) (o : Options) where
  -- `nginx_config` and `nft_config` of the gate both return a text on options that pass validation, the
  -- validation by deploy/connections.py included, and both raise the validation's error on the others.
  pub generators-Agree :
      (result : Result (Unit {0}))
      → validate ip_address o ≡ result
      → Agree result (nginx_config ip_address o) (nft_config ip_address o)
  unfolding nginx_config nft_config
  generators-Agree (ok tt) h =
      let v = (validate_gate_iff ip_address o).0 h in
      let (table, _, e) = nft_config_valid ip_address o v in
      ((generated ip_address o v, nginx_config_valid ip_address o v), (table, e))
  generators-Agree (err e) h = rw h (refl, refl)

  -- For a parser of addresses that takes no text with a line end outside a zone, every text that
  -- `nginx_config` returns has 53 lines, whatever the options.
  pub nginx_config_lines :
      (config : String)
      → KeepsLine ip_address
      → nginx_config ip_address o ≡ ok config
      → newlines config ≡ 53
  unfolding nginx_config generated
  nginx_config_lines config keeps h =
      let (_, valid, _) = >>=-eq-ok (validate ip_address o) _ h in
      let v = (validate_gate_iff ip_address o).0 valid in
      let same : generated ip_address o v ≡ config =
        ok-injective (sym (nginx_config_valid ip_address o v) ∙ h) in
      rw (← same) (generated_lines ip_address o v keeps)
