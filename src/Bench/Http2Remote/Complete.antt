-- ===== src/Bench/Http2Remote/Complete.antt =====
-- What the last event `result` of bench/http2_remote.py stands for.
use zhtps.Common.{
  sym, ◌-◌, leb, not, ◌||◌, ◌&&◌, ℕ, ◌≤◌, ◌≡◌, refl, Bool-cases, inl, inr, true, List, [], ◌∷◌,
  length, none, some, ◌==◌, ==_iff, ltb, eqb_ℤ, ℤ, pos, eqb_ℤ_iff, if◌then◌else◌, Result, ok, err,
  >>=-eq-ok, require-eq-ok, and-eq-true, ok-injective, arith, All, subst,
}
use zhtps.Bench.Http2Remote.{
  Input, nothing, client, control, exited, invalid, prepared_message, ready_message,
  measured_message, result_message, unknown_message, when_all, all_prepared, all_ready,
  all_measured, is_allowed, and_sample, running, broken, Table, put, find, is_known, Shard, State,
  Round, react, round, supervise, continue, Progress, complete, Output,
}

find-put :
    {A : Type 0} (i j : ℕ) (a : A) (t : Table A)
    → find j (put i a t) ≡ (if j == i then some a else find j t)
find-put i j a [] = refl
find-put i j a ((k, b) ∷ t) = ground (arith, find-put i j a t, ==_iff i k, ==_iff j k, ==_iff j i)

-- No key stands twice.
abbrev pub Distinct : {A : Type 0} → Table A → Type 0
Distinct [] = Unit
Distinct ((i, a) ∷ t) = (find i t ≡ none) × Distinct t

put-Distinct : {A : Type 0} (i : ℕ) (a : A) (t : Table A) → Distinct t → Distinct (put i a t)
put-Distinct i a [] h = (refl, tt)
put-Distinct i a ((j, b) ∷ t) (new, rest) = elim (Bool-cases (i == j)) [
  | inl same ↦ rw same (subst (λ k. find k t ≡ none) (sym ((==_iff i j).0 same)) new, rest)
  | inr other ↦
      rw other (ground (arith, find-put i j a t, ==_iff i j, ==_iff j i), put-Distinct i a t rest)
]

All-put :
    {A : Type 0} (P : ℕ × A → Type 0) (i : ℕ) (a : A) (t : Table A)
    → P (i, a)
    → All P t
    → All P (put i a t)
All-put P i a [] p h = (p, tt)
All-put P i a ((j, b) ∷ t) p (q, h) = elim (Bool-cases (i == j)) [
  | inl same ↦ rw same (p, h)
  | inr other ↦ rw other (q, All-put P i a t p h)
]

known-put :
    {A : Type 0} (i j : ℕ) (a : A) (t : Table A)
    → is_known (find j t) ≡ true
    → is_known (find j (put i a t)) ≡ true
known-put i j a t h = ground (arith, find-put i j a t)

-- A client has ended well, with its result there.
abbrev pub EndedWell : Table Shard → ℕ × ℤ → Type 0
EndedWell results (i, code) = (code ≡ pos 0) × (is_known (find i results) ≡ true)

All-EndedWell-put :
    (results : Table Shard) (i : ℕ) (v : Shard) (exits : Table ℤ)
    → All (EndedWell results) exits
    → All (EndedWell (put i v results)) exits
All-EndedWell-put results i v [] h = tt
All-EndedWell-put results i v ((j, code) ∷ exits) ((zero_code, known), h) =
    ((zero_code, known-put i j v results known), All-EndedWell-put results i v exits h)

abbrev pub Sound : State → Type 0
Sound s = All (EndedWell s.results) s.exits × Distinct s.exits

module _ (n : ℕ) where
  react-Sound :
      (i : Input) (w : Round) (s : State) (next : List Output × State)
      → Sound s
      → react n i w s ≡ ok next
      → Sound next.1
  react-Sound nothing w s next v h = subst (λ x. Sound x.1) (ok-injective h) v
  react-Sound (client i (prepared_message m)) w s next v h =
      let (out, _, last) =
        >>=-eq-ok (when_all n (put i m s.prepared) all_prepared)
          (λ out. ok (out, record s { prepared = put i m s.prepared })) h in
      subst (λ x. Sound x.1) (ok-injective last) v
  react-Sound (client i (ready_message m)) w s next v h =
      let (out, _, last) =
        >>=-eq-ok (when_all n (put i m s.ready) all_ready)
          (λ out. ok (out, record s { ready = put i m s.ready })) h in
      subst (λ x. Sound x.1) (ok-injective last) v
  react-Sound (client i (measured_message m)) w s next v h =
      let (out, _, last) =
        >>=-eq-ok (when_all n (put i m s.measured) all_measured)
          (λ out. ok (out, record s { measured = put i m s.measured })) h in
      subst (λ x. Sound x.1) (ok-injective last) v
  react-Sound (client i (result_message m)) w s next (well, distinct) h =
      subst (λ x. Sound x.1) (ok-injective h)
        (All-EndedWell-put s.results i m s.exits well, distinct)
  react-Sound (client i (unknown_message m)) w s next v h = cc
  react-Sound (control c) w s next v h =
      let (_, h1) = require-eq-ok (is_allowed n c s) _ _ h in
      let (_, last) = require-eq-ok w.is_open _ _ h1 in subst (λ x. Sound x.1) (ok-injective last) v
  react-Sound (exited i code) w s next (well, distinct) h =
      let (passed, last) =
        require-eq-ok (eqb_ℤ code (pos 0) && is_known (find i s.results)) _ _ h in
      let (zero_code, known) =
        and-eq-true (eqb_ℤ code (pos 0)) (is_known (find i s.results)) passed in
      subst (λ x. Sound x.1) (ok-injective last)
        (
          All-put (EndedWell s.results) i code s.exits ((eqb_ℤ_iff code (pos 0)).0 zero_code, known)
              well,
          put-Distinct i code s.exits distinct,
        )
  react-Sound (invalid i text) w s next v h = cc

  and_sample-Sound :
      (w : Round) (next : List Output × State) → Sound next.1 → Sound (and_sample n w next).1
  and_sample-Sound w (out, s) v =
      elim (Bool-cases (leb 1_000_000_000 (w.sample_now - s.last_sample))) [
        | inl due ↦ rw due v
        | inr early ↦ rw early v
      ]

  round-Sound :
      (deadline : ℕ) (w : Round) (s : State) (next : List Output × State)
      → Sound s
      → round n deadline w s ≡ ok next
      → Sound next.1
  unfolding round
  round-Sound deadline w s next v h =
      let (_, h1) =
        require-eq-ok (not (w.is_cancelled || ltb 20_000_000_000 (w.contact_now - w.last_contact)))
          _ _ h in
      let (_, h2) = require-eq-ok (not (ltb deadline w.deadline_now)) _ _ h1 in
      let (between, reacted, last) =
        >>=-eq-ok (react n w.input w s) (λ x. ok (and_sample n w x)) h2 in
      subst (λ x. Sound x.1) (ok-injective last)
        (and_sample-Sound w between (react-Sound w.input w s between v reacted))

  -- How the loop stands at its end: a completed one has the exit codes of n clients.
  abbrev pub Ends : Progress n → Type 0
  Ends (running s) = Unit
  Ends (broken e) = Unit
  Ends (complete s) = Sound s × (n ≤ length s.exits)

  continue-Ends :
      (m : Result (List Output × State)) (again : State → List Output × Progress n)
      → ((next : List Output × State) → m ≡ ok next → Sound next.1)
      → ((s : State) → Sound s → Ends (again s).1)
      → Ends (continue n m again).1
  continue-Ends (err e) again step later = tt
  continue-Ends (ok (out, s)) again step later = later s (step (out, s) refl)

  pub supervise-Ends :
      (deadline : ℕ) (ws : List Round) (s : State) → Sound s → Ends (supervise n deadline ws s).1
  unfolding supervise
  supervise-Ends deadline [] s v = elim (Bool-cases (ltb (length s.exits) n)) [
    | inl going ↦ rw going tt
    | inr over ↦ rw over (v, ground arith)
  ]
  supervise-Ends deadline (w ∷ ws) s v = elim (Bool-cases (ltb (length s.exits) n)) [
    | inl going ↦ rw going (
        continue-Ends (round n deadline w s) (supervise n deadline ws)
          (λ next e. round-Sound deadline w s next v e) (λ s' v'. supervise-Ends deadline ws s' v'))
    | inr over ↦ rw over (v, ground arith)
  ]
