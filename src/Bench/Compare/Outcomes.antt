-- ===== src/Bench/Compare/Outcomes.antt =====
-- What a trial of bench/compare.py amounts to.
use zhtps.Common.{
  ℕ, ◌<◌, ◌≡◌, ◌⊎◌, inl, inr, refl, subst, Bool, Bool-cases, true, false, not, ◌&&◌, ◌||◌, Option,
  none, some, if◌then◌else◌, ok, require-eq-ok, require_iff, >>=-eq-ok, ok-injective, ℤ, pos,
  negsuc, ◌+ℤ◌, eqb_ℤ, ltb_ℤ, eqb_ℤ_iff, between, arith, and-eq-true, all,
}
use zhtps.Bench.Floats.{Floats, number, divide}
use zhtps.Bench.Compare.{Variant, is_go, Options, check_sizes, is_none_or, is_some, within}
use zhtps.Bench.Compare.Arguments.{zig_capacity, default_capacity, or_capacity}
use zhtps.Bench.Compare.Ready.{wait_ready, admin_port}
use zhtps.Bench.Compare.Trial.{
  Load, Outside, Trial, unsupported, measured, load_of, connected, check_load, measure, is_beyond,
  run_one,
}

module _ (N : Floats) where
  -- Every attempt has an outcome, and unless errors are allowed every connection took part and none was
  -- opened again.
  abbrev pub Accounts : Bool → ℤ → Load N → Type 0
  Accounts allow_errors connections l =
      (l.attempts ≡ l.successes +ℤ l.errors)
      × (allow_errors ≡ false
          → (l.connections_ready ≡ connections)
            × (l.connections_measured ≡ connections)
            × (l.connections_opened ≡ connections))

  check_load-Accounts :
      (allow_errors : Bool) (connections : ℤ) (l : Load N)
      → check_load N allow_errors connections l ≡ ok tt
      → Accounts allow_errors connections l
  check_load-Accounts allow_errors connections l h =
      let (accounted, h1) = require-eq-ok (eqb_ℤ l.attempts (l.successes +ℤ l.errors)) _ _ h in
      let (took_part, h2) =
        require-eq-ok
          (allow_errors
            || (eqb_ℤ l.connections_ready connections && eqb_ℤ l.connections_measured connections))
          _ _ h1 in
      let kept = (require_iff (allow_errors || eqb_ℤ l.connections_opened connections) _).0 h2 in
      (
        (eqb_ℤ_iff l.attempts (l.successes +ℤ l.errors)).0 accounted,
        λ strict.
            let (ready, measured_too) =
              and-eq-true (eqb_ℤ l.connections_ready connections)
                (eqb_ℤ l.connections_measured connections) (rw strict at took_part) in
            (
              (eqb_ℤ_iff l.connections_ready connections).0 ready,
              (eqb_ℤ_iff l.connections_measured connections).0 measured_too,
              (eqb_ℤ_iff l.connections_opened connections).0 (rw strict at kept),
            ),
      )

  -- What is used of the options' checks.
  pub accepted_sizes :
      (o : Options N)
      → check_sizes N o ≡ ok tt
      → (between 1 20 o.repeats ≡ true) × (is_none_or (between 1 8168) o.zig_max_connections ≡ true)
  accepted_sizes o h =
      let (_, h1) =
        require-eq-ok
          (not (is_some o.tls_certificate && not (is_some o.tls_key))
            && not (is_some o.tls_key && not (is_some o.tls_certificate)))
          _ _ h in
      let (sized, h2) =
        require-eq-ok
          (within N 60 o.duration
            && within N 30 o.warmup
            && between 1 20 o.repeats
            && all (between 1 16_384) o.connections
            && between 1 16 o.client_cores)
          _ _ h1 in
      let (_, h3) = require-eq-ok (between 1 32 o.zig_workers) _ _ h2 in
      let (limited, _) = require-eq-ok (is_none_or (between 1 8168) o.zig_max_connections) _ _ h3 in
      (
        third_of (within N 60 o.duration) (within N 30 o.warmup) (between 1 20 o.repeats) _ _ sized,
        limited,
      )
    where
      third_of : (a b c d e : Bool) → (a && b && c && d && e) ≡ true → c ≡ true
      third_of a b c d e all_true = ground arith

  -- The client's connections are more than a server takes, and nothing says that it may take fewer.
  abbrev pub IsBeyond : Options N → ℤ → Type 0
  IsBeyond o connections =
      (o.allow_errors ≡ false)
      × (o.zig_max_connections ≡ none)
      × ((n : ℕ) × (connections ≡ pos n) × (8168 < n))

  beyond_default :
      (allow_errors : Bool) (c : ℤ)
      → ltb_ℤ (pos 8176) (default_capacity allow_errors c +ℤ pos 8) ≡ true
      → (allow_errors ≡ false) × ((n : ℕ) × (c ≡ pos n) × (8168 < n))
  beyond_default true (pos n) h = absurd (ground arith)
  beyond_default true (negsuc n) h = absurd (ground arith)
  beyond_default false (pos n) h = (refl, (n, refl, ground arith))
  beyond_default false (negsuc n) h = absurd (ground arith)

  or_capacity-IsBeyond :
      (o : Options N) (v : Variant) (c : ℤ) (limit : Option ℤ)
      → o.zig_max_connections ≡ limit
      → is_none_or (between 1 8168) limit ≡ true
      → ltb_ℤ (pos 8176) (or_capacity (default_capacity o.allow_errors c) limit +ℤ pos 8) ≡ true
      → IsBeyond o c
  or_capacity-IsBeyond o v c none e h beyond =
      let (strict, many) = beyond_default o.allow_errors c beyond in (strict, e, many)
  or_capacity-IsBeyond o v c (some (pos n)) e h beyond = absurd (ground arith)
  or_capacity-IsBeyond o v c (some (negsuc n)) e h beyond = absurd (ground arith)

  -- The result of a trial with what it met.
  abbrev pub IsOutcome : Options N → Variant → ℤ → ℕ → Outside N → Trial N → Type 0
  IsOutcome o v c repeat x (unsupported v' repeat' c') =
      (v' ≡ v)
      × (repeat' ≡ repeat)
      × (c' ≡ c)
      × (is_beyond N o v c ≡ true)
      × (is_go v ≡ false)
      × IsBeyond o c
      × (x.probe_code ≡ pos 2)
      × (x.probe_reason ≡ true)
  IsOutcome o v c repeat x (measured v' repeat' l percent) =
      (v' ≡ v)
      × (repeat' ≡ repeat)
      × (is_beyond N o v c ≡ false)
      × (load_of N x.client ≡ ok l)
      × Accounts o.allow_errors c l
      × ((x.exit_code ≡ pos 0) ⊎ (x.exit_code ≡ negsuc 14))

  module _ (o : Options N) (v : Variant) (c : ℤ) (repeat : ℕ) (x : Outside N) where
    -- What the result of a measurement is.
    abbrev IsMeasured : Trial N → Type 0
    IsMeasured (unsupported v' repeat' c') = ⊥
    IsMeasured (measured v' repeat' l percent) =
        (v' ≡ v) × (repeat' ≡ repeat) × (load_of N x.client ≡ ok l) × Accounts o.allow_errors c l

    measure-IsMeasured : (t : Trial N) → measure N o v c repeat x ≡ ok t → IsMeasured t
    unfolding measure
    measure-IsMeasured t h =
        let (_, _, h1) = >>=-eq-ok (if is_go v then x.runtime else ok tt) _ h in
        let (_, _, h2) = >>=-eq-ok (wait_ready x.ready) _ h1 in
        let (_, _, h3) = >>=-eq-ok (connected N x.client) _ h2 in
        let (_, _, h4) = >>=-eq-ok x.before _ h3 in
        let (l, loaded, h5) = >>=-eq-ok (load_of N x.client) _ h4 in
        let (_, checked, h6) = >>=-eq-ok (check_load N o.allow_errors c l) _ h5 in
        let (_, _, h7) = >>=-eq-ok x.after _ h6 in
        let (percent, _, last) =
          >>=-eq-ok (divide N (N.times (number N 100) x.cpu_seconds) x.elapsed) _ h7 in
        subst IsMeasured (ok-injective last)
          (refl, refl, loaded, check_load-Accounts o.allow_errors c l checked)

    exits :
        (code : ℤ)
        → (eqb_ℤ code (pos 0) || eqb_ℤ code (negsuc 14)) ≡ true
        → (code ≡ pos 0) ⊎ (code ≡ negsuc 14)
    exits code h = elim (Bool-cases (eqb_ℤ code (pos 0))) [
      | inl zero_code ↦ inl ((eqb_ℤ_iff code (pos 0)).0 zero_code)
      | inr other ↦ inr ((eqb_ℤ_iff code (negsuc 14)).0 (rw other at h))
    ]

    with_stop :
        (t : Trial N)
        → is_beyond N o v c ≡ false
        → IsMeasured t
        → (x.exit_code ≡ pos 0) ⊎ (x.exit_code ≡ negsuc 14)
        → IsOutcome o v c repeat x t
    with_stop (unsupported v' repeat' c') fits m code = absurd m
    with_stop (measured v' repeat' l percent) fits (same, at_repeat, loaded, accounts) code =
        (same, at_repeat, fits, loaded, accounts, code)

    zig_beyond : (g b : Bool) → (not g && b) ≡ true → (g ≡ false) × (b ≡ true)
    zig_beyond g b h = ground arith

    -- If the options are accepted and a trial returns, it is unsupported only for a server in Zig, if more
    -- connections are asked for than 8168, errors are not allowed and no capacity is given, and the probe
    -- has said that the limit is invalid; or it is measured: with the load that the client reports, which
    -- accounts for every attempt, and, unless errors are allowed, had all its connections take part and
    -- opened none again; and the server was stopped with 0 or by the signal.
    pub run_one-IsOutcome :
        (t : Trial N)
        → check_sizes N o ≡ ok tt
        → run_one N o v c repeat x ≡ ok t
        → IsOutcome o v c repeat x t
    unfolding run_one
    run_one-IsOutcome t accepted h =
        let (_, _, h1) = >>=-eq-ok (admin_port x.port x.admin_ports) _ h in
        elim (Bool-cases (is_beyond N o v c)) [
          | inl beyond ↦
              let (refused, last) =
                require-eq-ok (eqb_ℤ x.probe_code (pos 2) && x.probe_reason) _ _
                  (rw beyond at h1) in
              let (code, reason) =
                and-eq-true (eqb_ℤ x.probe_code (pos 2)) x.probe_reason refused in
              let (zig, many) =
                zig_beyond (is_go v) (ltb_ℤ (pos 8176) (zig_capacity N o c +ℤ pos 8)) beyond in
              subst (IsOutcome o v c repeat x) (ok-injective last) (
                refl,
                refl,
                refl,
                beyond,
                zig,
                or_capacity-IsBeyond o v c o.zig_max_connections refl (accepted_sizes o accepted).1
                    many,
                (eqb_ℤ_iff x.probe_code (pos 2)).0 code,
                reason,
              )
          | inr fits ↦
              let (_, _, h2) = >>=-eq-ok x.spawned _ (rw fits at h1) in
              let (_, h3) = require-eq-ok x.stops _ _ h2 in
              let (code, h4) =
                require-eq-ok (eqb_ℤ x.exit_code (pos 0) || eqb_ℤ x.exit_code (negsuc 14)) _ _ h3 in
              with_stop t fits (measure-IsMeasured t h4) (exits x.exit_code code)
        ]
