-- ===== src/Bench/Http2Remote/Order/Loop.antt =====
-- The loop of `run` of bench/http2_remote.py keeps that order.
use zhtps.Common.{
  ◌||◌, ℤ, ◌≤◌, subst, sym, ok-injective, ◌-◌, ◌&&◌, eqb_ℤ, pos, ℕ, ◌≡◌, ◌+◌, ◌⊎◌, inl, inr, refl,
  Bool, Bool-cases, true, false, List, [], ◌∷◌, ◌++◌, length, ◌==◌, ltb, leb, ==_iff, Result, ok,
  err, ◌>>=◌, >>=-eq-ok, require-eq-ok, arith, ◌≤◌,
}
use zhtps.Json.{Json}
use zhtps.Bench.Http2Remote.{
  check_logs, Shard, nothing, warmup, measure, other_control, Progress, running, broken, complete,
  conclude, or_failed, Table, put, Control, Input, Output, State, Round, when_all, react,
  and_sample, round, supervise, continue, run, last_output, new_state, is_allowed, schedule,
  entries, all_ready, all_prepared, client, sampled, prepared_message, ready_message, all_measured,
  measured_message, result_message, finished, unknown_message, control, exited, is_known, find,
  invalid, not,
}
use zhtps.Bench.Http2Remote.Order.{
  InOrder, InOrder-append, prepared_after, ready_after, prepared_after-sampled, ready_after-sampled,
}

module _ (n : ℕ) where
  -- The flags know of each full table.
  abbrev Told : Bool → Bool → State → Type 0
  Told p r s =
      ((length s.prepared == n) ≡ true → p ≡ true) × ((length s.ready == n) ≡ true → r ≡ true)

  -- The events of a step are in order, and the flags behind them know of each full table.
  abbrev Steps : Bool → Bool → List Output × State → Type 0
  Steps p r (out, s) = InOrder p r out × Told (prepared_after p out) (ready_after r out) s

  when_all-cases :
      (t : Table Json) (kind : List Json → Output) (out : List Output)
      → when_all n t kind ≡ ok out
      → ((vs : List Json) × (out ≡ kind vs ∷ [])) ⊎ ((out ≡ []) × ((length t == n) ≡ false))
  when_all-cases t kind out h = elim (Bool-cases (length t == n)) [
    | inl all ↦
        let (vs, _, e) = >>=-eq-ok (entries 0 n t) (λ vs. ok (kind vs ∷ [])) (rw all at h) in
        inl (vs, cc)
    | inr some_missing ↦ let e : ok [] ≡ ok out = rw some_missing at h in inr (cc, some_missing)
  ]

  scheduled-Steps :
      (p r : Bool) (c : Control) (t : ℕ) (s : State)
      → Told p r s
      → is_allowed n c s ≡ true
      → Steps p r (schedule n c t ∷ [], s)
  scheduled-Steps p r warmup t s told allowed = ((told.0 allowed, tt), told)
  scheduled-Steps p r measure t s told allowed = ((told.1 allowed, tt), told)
  scheduled-Steps p r other_control t s told allowed = cc

  react-Steps :
      (p r : Bool) (i : Input) (w : Round) (s : State) (next : List Output × State)
      → Told p r s
      → react n i w s ≡ ok next
      → Steps p r next
  react-Steps p r nothing w s next told h = subst (Steps p r) (ok-injective h) (tt, told)
  react-Steps p r (client i (prepared_message v)) w s next told h =
      let t = put i v s.prepared in
      let (out, read, last) =
        >>=-eq-ok (when_all n t all_prepared) (λ out. ok (out, record s { prepared = t })) h in
      subst (Steps p r) (ok-injective last) (elim (when_all-cases t all_prepared out read) [
        | inl (vs, e) ↦
            subst (λ o. Steps p r (o, record s { prepared = t })) (sym e) (tt, (λ _. refl, told.1))
        | inr (e, missing) ↦
            subst (λ o. Steps p r (o, record s { prepared = t })) (sym e) (tt, (λ full. cc, told.1))
      ])
  react-Steps p r (client i (ready_message v)) w s next told h =
      let t = put i v s.ready in
      let (out, read, last) =
        >>=-eq-ok (when_all n t all_ready) (λ out. ok (out, record s { ready = t })) h in
      subst (Steps p r) (ok-injective last) (elim (when_all-cases t all_ready out read) [
        | inl (vs, e) ↦
            subst (λ o. Steps p r (o, record s { ready = t })) (sym e) (tt, (told.0, λ _. refl))
        | inr (e, missing) ↦
            subst (λ o. Steps p r (o, record s { ready = t })) (sym e) (tt, (told.0, λ full. cc))
      ])
  react-Steps p r (client i (measured_message v)) w s next told h =
      let t = put i v s.measured in
      let (out, read, last) =
        >>=-eq-ok (when_all n t all_measured) (λ out. ok (out, record s { measured = t })) h in
      subst (Steps p r) (ok-injective last) (elim (when_all-cases t all_measured out read) [
        | inl (vs, e) ↦ subst (λ o. Steps p r (o, record s { measured = t })) (sym e) (tt, told)
        | inr (e, missing) ↦
            subst (λ o. Steps p r (o, record s { measured = t })) (sym e) (tt, told)
      ])
  react-Steps p r (client i (result_message v)) w s next told h =
      subst (Steps p r) (ok-injective h) (tt, told)
  react-Steps p r (client i (unknown_message v)) w s next told h = cc
  react-Steps p r (control c) w s next told h =
      let (allowed, h1) = require-eq-ok (is_allowed n c s) _ _ h in
      let (_, last) = require-eq-ok w.is_open _ _ h1 in
      subst (Steps p r) (ok-injective last)
        (scheduled-Steps p r c (w.unix_ns + 500_000_000) s told allowed)
  react-Steps p r (exited i code) w s next told h =
      let (_, last) = require-eq-ok (eqb_ℤ code (pos 0) && is_known (find i s.results)) _ _ h in
      subst (Steps p r) (ok-injective last) (tt, told)
  react-Steps p r (invalid i text) w s next told h = cc

  and_sample-Steps :
      (p r : Bool) (w : Round) (next : List Output × State)
      → Steps p r next
      → Steps p r (and_sample n w next)
  and_sample-Steps p r w (out, s) (order, told) =
      elim (Bool-cases (leb 1_000_000_000 (w.sample_now - s.last_sample))) [
        | inl due ↦ rw due (
          InOrder-append p r out (sampled w.sample ∷ []) order tt,
          subst (λ q. Told q (ready_after r (out ++ sampled w.sample ∷ [])) s)
              (prepared_after-sampled p out w.sample)
              (subst (λ q. Told (prepared_after p out) q s) (ready_after-sampled r out w.sample)
                told),
        )
        | inr early ↦ rw early (order, told)
      ]

  round-Steps :
      (p r : Bool) (deadline : ℕ) (w : Round) (s : State) (next : List Output × State)
      → Told p r s
      → round n deadline w s ≡ ok next
      → Steps p r next
  unfolding round
  round-Steps p r deadline w s next told h =
      let (_, h1) =
        require-eq-ok (not (w.is_cancelled || ltb 20_000_000_000 (w.contact_now - w.last_contact)))
          _ _ h in
      let (_, h2) = require-eq-ok (not (ltb deadline w.deadline_now)) _ _ h1 in
      let (between, reacted, last) =
        >>=-eq-ok (react n w.input w s) (λ x. ok (and_sample n w x)) h2 in
      subst (Steps p r) (ok-injective last)
        (and_sample-Steps p r w between (react-Steps p r w.input w s between told reacted))

  continue-InOrder :
      (p r : Bool) (m : Result (List Output × State)) (again : State → List Output × Progress n)
      → ((next : List Output × State) → m ≡ ok next → Steps p r next)
      → ((q t : Bool) (s : State) → Told q t s → InOrder q t (again s).0)
      → InOrder p r (continue n m again).0
  continue-InOrder p r (err e) again step later = tt
  continue-InOrder p r (ok (out, s)) again step later =
      let (order, told) = step (out, s) refl in
      InOrder-append p r out (again s).0 order
        (later (prepared_after p out) (ready_after r out) s told)

  supervise-InOrder :
      (p r : Bool) (deadline : ℕ) (ws : List Round) (s : State)
      → Told p r s
      → InOrder p r (supervise n deadline ws s).0
  unfolding supervise
  supervise-InOrder p r deadline [] s told = tt
  supervise-InOrder p r deadline (w ∷ ws) s told = elim (Bool-cases (ltb (length s.exits) n)) [
    | inl going ↦ rw going (
        continue-InOrder p r (round n deadline w s) (supervise n deadline ws)
          (λ next e. round-Steps p r deadline w s next told e)
          (λ q t s' told'. supervise-InOrder q t deadline ws s' told'))
    | inr over ↦ rw over tt
  ]

  finish-InOrder :
      (p r : Bool) (m : Result (Unit {0})) (shards : Result (List Shard)) (exits : Table ℤ)
      → InOrder p r (or_failed n (m >>= λ _. (shards >>= λ vs. ok (finished vs exits))) ∷ [])
  finish-InOrder p r (ok _) (ok vs) exits = tt
  finish-InOrder p r (ok _) (err e) exits = tt
  finish-InOrder p r (err e) shards exits = tt

  last_output-InOrder :
      (p r : Bool) (counts : List ℕ) (progress : Progress n)
      → InOrder p r (last_output n counts progress)
  unfolding conclude
  last_output-InOrder p r counts (running s) = tt
  last_output-InOrder p r counts (broken e) = tt
  last_output-InOrder p r counts (complete s) =
      finish-InOrder p r (check_logs n 0 counts s.results) (entries 0 n s.results) s.exits

  new_state-Told : 1 ≤ n → Told false false (new_state n)
  new_state-Told some_client =
      (λ full. ground (arith, ==_iff 0 n), λ full. ground (arith, ==_iff 0 n))

-- With at least one client, and whatever the clients and the controller do, the supervisor schedules a
-- warmup only after it has emitted `prepared` for all clients, and a measurement only after it has
-- emitted `ready` for all of them.
pub run-InOrder :
    (n deadline : ℕ) (rounds : List Round) (counts : List ℕ)
    → 1 ≤ n
    → InOrder false false (run n deadline rounds counts)
unfolding run
run-InOrder n deadline rounds counts some_client =
    InOrder-append false false (supervise n deadline rounds (new_state n)).0
      (last_output n counts (supervise n deadline rounds (new_state n)).1)
      (supervise-InOrder n false false deadline rounds (new_state n) (new_state-Told n some_client))
      (last_output-InOrder n _ _ counts (supervise n deadline rounds (new_state n)).1)
