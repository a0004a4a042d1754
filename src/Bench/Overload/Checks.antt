-- ===== src/Bench/Overload/Checks.antt =====
-- The options that bench/overload.py accepts, without its tests.
use zhtps.Common.{
  ℕ, ◌≡◌, ◌↔◌, ◌⊎◌, inl, inr, refl, ap, ◌∙◌, Bool, Bool-cases, true, false, not, ◌&&◌, List, [],
  ◌∷◌, ◌==◌, ==_iff, length, if◌then◌else◌, Result, ok, Error, usage_error, ◌>>=◌, ◌>>◌, require,
  require-eq-ok, >>=-eq-ok, >>-eq-ok_iff, pos, eqb_ℤ, ltb_ℤ, eqb_ℤ_iff, arith, and-eq-true,
  and-intro,
}
use zhtps.Bench.Floats.{Floats}
use zhtps.Bench.Overload.{
  Options, Host, is_given, is_some, is_remote, is_in, overlap, cpu_list, check_local, check_remote,
  check_address, check_options, timeout_allowed,
}

-- No CPU is in both lists.
abbrev pub AreDisjoint : List ℕ → List ℕ → Type 0
AreDisjoint xs ys = (c : ℕ) → is_in c xs ≡ true → is_in c ys ≡ false

overlap-to : (xs ys : List ℕ) → overlap xs ys ≡ false → AreDisjoint xs ys
overlap-to [] ys h c e = cc
overlap-to (x ∷ xs) ys h c e = elim (Bool-cases (c == x)) [
  | inl same ↦ let is_x : c ≡ x = (==_iff c x).0 same in rw is_x (ground arith)
  | inr apart ↦ overlap-to xs ys (ground arith) c (ground arith)
]

overlap-from : (xs ys : List ℕ) → AreDisjoint xs ys → overlap xs ys ≡ false
overlap-from [] ys d = refl
overlap-from (x ∷ xs) ys d =
    let here : is_in x ys ≡ false = d x (ground (arith, ==_iff x x)) in
    rw here (overlap-from xs ys (λ c e. d c (ground arith)))

-- A test under `not` passes exactly if it is false.
refused_iff : (test : Bool) (e : Error) → (require (not test) e ≡ ok tt) ↔ (test ≡ false)
refused_iff true e = (λ h. cc, λ h. cc)
refused_iff false e = (λ _. refl, λ _. refl)

module _ (N : Floats) (h : Host N) (o : Options N) where
  abbrev pub FitsWorkers : List ℕ → Type 0
  FitsWorkers cpus = ltb_ℤ (pos (length cpus)) o.workers ≡ false

  -- What is asked of a client on this host.
  abbrev pub IsLocalRun : Type 0
  IsLocalRun =
      (is_remote N o ≡ false)
      × ((server client : List ℕ) × (cpu_list o.server_cpus ≡ ok server)
          × (cpu_list o.client_cpus ≡ ok client)
          × AreDisjoint server client)

  -- What is asked of one on another host.
  abbrev pub IsRemoteRun : Type 0
  IsRemoteRun =
      (is_remote N o ≡ true)
      × (is_some o.client_netns_pid ≡ false)
      × (is_given o.remote_client_binary ≡ true)
      × (timeout_allowed N o.remote_timeout ≡ true)
      × (o.source_ips ≡ pos 0)
      × ((is_given o.target_address ≡ true) ⊎ (h.is_loopback o.server_address ≡ ok false))

  local_iff : (check_local N o ≡ ok tt) ↔ (
      (server client : List ℕ) × (cpu_list o.server_cpus ≡ ok server)
      × (cpu_list o.client_cpus ≡ ok client)
      × AreDisjoint server client)
  local_iff = (to, from)
    where
      to :
          check_local N o ≡ ok tt
          → (server client : List ℕ) × (cpu_list o.server_cpus ≡ ok server)
            × (cpu_list o.client_cpus ≡ ok client)
            × AreDisjoint server client
      to given =
          let (server, e, h1) = >>=-eq-ok (cpu_list o.server_cpus) _ given in
          let (client, e', h2) = >>=-eq-ok (cpu_list o.client_cpus) _ h1 in
          (
            server,
            client,
            e,
            e',
            overlap-to server client ((refused_iff (overlap server client) _).0 h2),
          )

      from :
          ((server client : List ℕ) × (cpu_list o.server_cpus ≡ ok server)
            × (cpu_list o.client_cpus ≡ ok client)
            × AreDisjoint server client)
          → check_local N o ≡ ok tt
      from (server, client, e, e', d) = rw (e, e', overlap-from server client d) refl

  address_iff :
      (check_address N h o ≡ ok tt)
      ↔ ((is_given o.target_address ≡ true) ⊎ (h.is_loopback o.server_address ≡ ok false))
  address_iff = elim (Bool-cases (is_given o.target_address)) [
    | inl given ↦ rw given (λ _. inl refl, λ _. refl)
    | inr none_given ↦ rw none_given (
      λ e.
          let (loopback, read, h1) = >>=-eq-ok (h.is_loopback o.server_address) _ e in
          inr (read ∙ ap ok ((refused_iff loopback _).0 h1)),
      λ known. elim known [ inl absent ↦ cc | inr read ↦ rw read refl ],
    )
  ]

  remote_iff : (check_remote N h o ≡ ok tt) ↔ (
      (is_given o.remote_client_binary ≡ true)
      × (timeout_allowed N o.remote_timeout ≡ true)
      × (o.source_ips ≡ pos 0)
      × ((is_given o.target_address ≡ true) ⊎ (h.is_loopback o.server_address ≡ ok false)))
  remote_iff = (to, from)
    where
      to :
          check_remote N h o ≡ ok tt
          → (is_given o.remote_client_binary ≡ true)
            × (timeout_allowed N o.remote_timeout ≡ true)
            × (o.source_ips ≡ pos 0)
            × ((is_given o.target_address ≡ true) ⊎ (h.is_loopback o.server_address ≡ ok false))
      to given =
          let (started, h1) =
            require-eq-ok (is_given o.remote_client_binary && timeout_allowed N o.remote_timeout) _
              _ given in
          let (binary, limited) =
            and-eq-true (is_given o.remote_client_binary) (timeout_allowed N o.remote_timeout)
              started in
          let (unsharded, h2) =
            require-eq-ok (eqb_ℤ o.source_ips (pos 0)) _ (check_address N h o) h1 in
          (binary, limited, (eqb_ℤ_iff o.source_ips (pos 0)).0 unsharded, address_iff.0 h2)

      from :
          ((is_given o.remote_client_binary ≡ true)
            × (timeout_allowed N o.remote_timeout ≡ true)
            × (o.source_ips ≡ pos 0)
            × ((is_given o.target_address ≡ true) ⊎ (h.is_loopback o.server_address ≡ ok false)))
          → check_remote N h o ≡ ok tt
      from (binary, limited, unsharded, reached) =
          rw (and-intro binary limited, (eqb_ℤ_iff o.source_ips (pos 0)).1 unsharded)
            (address_iff.1 reached)

  workers_iff :
      ((cpu_list o.server_cpus >>= λ cpus.
      require
        (not (ltb_ℤ (pos (length cpus)) o.workers))
        (usage_error "provide at least one server CPU per worker"))
        ≡ ok tt)
      ↔ ((cpus : List ℕ) × (cpu_list o.server_cpus ≡ ok cpus) × FitsWorkers cpus)
  workers_iff = (
    λ given.
        let (cpus, read, h1) = >>=-eq-ok (cpu_list o.server_cpus) _ given in
        (cpus, read, (refused_iff (ltb_ℤ (pos (length cpus)) o.workers) _).0 h1),
    λ (cpus, read, fits). rw (read, fits) refl,
  )

  and-false : (b : Bool) → (b && false) ≡ false
  and-false b = ground arith

  and-true : (b : Bool) → (b && true) ≡ b
  and-true b = ground arith

  place_iff :
      ((require
            (not (is_some o.client_netns_pid && is_remote N o))
            (usage_error "local network namespaces cannot be combined with a remote client")
          ≡ ok tt)
        × ((if is_remote N o then check_remote N h o else check_local N o) ≡ ok tt))
      ↔ (IsLocalRun ⊎ IsRemoteRun)
  place_iff = elim (Bool-cases (is_remote N o)) [
    | inl remote ↦
        rw (remote, and-true (is_some o.client_netns_pid))
          (
            λ (alone, checked).
                let (binary, limited, unsharded, reached) = remote_iff.0 checked in
                inr (
                  refl,
                  (refused_iff (is_some o.client_netns_pid) _).0 alone,
                  binary,
                  limited,
                  unsharded,
                  reached,
                ),
            λ run. elim run [
              | inl (contrary, _) ↦ cc contrary
              | inr (_, alone, binary, limited, unsharded, reached) ↦ (
                (refused_iff (is_some o.client_netns_pid) _).1 alone,
                remote_iff.1 (binary, limited, unsharded, reached),
              )
            ],
          )
    | inr local ↦
        rw (local, and-false (is_some o.client_netns_pid))
          (
            λ (_, checked). inl (refl, local_iff.0 checked),
            λ run. elim run [
              | inl (_, here) ↦ (refl, local_iff.1 here)
              | inr contrary ↦ cc (contrary.0)
            ],
          )
  ]

  -- The options are accepted exactly if the CPU lists can be read and do not overlap, for a client on
  -- this host; or, for one on another host, no network namespace is given, a binary and an allowed
  -- timeout are, and no source addresses, and the server has a target address or its own is read and is
  -- not a loopback one; and in both cases there are no more workers than CPUs in the server's list.
  pub check_options_iff : (check_options N h o ≡ ok tt) ↔ (
      (IsLocalRun ⊎ IsRemoteRun)
      × ((cpus : List ℕ) × (cpu_list o.server_cpus ≡ ok cpus) × FitsWorkers cpus))
  unfolding check_options
  check_options_iff =
      let rest : Result (Unit {0}) = cpu_list o.server_cpus >>= λ cpus.
      require (not (ltb_ℤ (pos (length cpus)) o.workers))
        (usage_error "provide at least one server CPU per worker") in
      let place : Result (Unit {0}) =
        if is_remote N o then check_remote N h o else check_local N o in
      let first =
        >>-eq-ok_iff
          (require (not (is_some o.client_netns_pid && is_remote N o))
            (usage_error "local network namespaces cannot be combined with a remote client"))
          (place >> rest) tt in
      let second = >>-eq-ok_iff place rest tt in
      (
        λ given.
            let (alone, more) = first.0 given in
            let (placed, enough) = second.0 more in
            (place_iff.0 (alone, placed), workers_iff.0 enough),
        λ (run, fits).
            let (alone, placed) = place_iff.1 run in
            first.1 (alone, second.1 (placed, workers_iff.1 fits)),
      )
