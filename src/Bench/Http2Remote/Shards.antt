-- ===== src/Bench/Http2Remote/Shards.antt =====
-- The event `result` of bench/http2_remote.py: its shards, exit codes and failure logs.
use zhtps.Common.{
  ℕ, suc, zero, ◌≤◌, ◌≡◌, refl, ap, sym, ◌∙◌, List, [], ◌∷◌, length, Option, none, some, ◌==◌,
  ==_iff, ℤ, pos, ok, ◌>>=◌, >>=-eq-ok, require-eq-ok, ok-injective, All, subst,
}
use zhtps.Bench.Http2Remote.{
  Table, find, subscript, entries, Shard, State, Round, supervise, new_state, complete, conclude,
  check_logs, finished,
}
use zhtps.Bench.Http2Remote.Complete.{Distinct, EndedWell, Ends, supervise-Ends}

subscript-eq-ok :
    {A : Type 0} (n : ℕ) (i : ℕ) (o : Option A) (a : A) → subscript i o ≡ ok a → o ≡ some a
subscript-eq-ok n i none a h = cc
subscript-eq-ok n i (some b) a h = cc

-- The values stand in the table from `lo` on.
abbrev pub Found : ℕ → List Shard → Table Shard → Type 0
Found lo [] t = Unit
Found lo (v ∷ vs) t = (find lo t ≡ some v) × Found (suc lo) vs t

entries-Found :
    (lo k : ℕ) (t : Table Shard) (vs : List Shard)
    → entries lo k t ≡ ok vs
    → Found lo vs t × (length vs ≡ k)
entries-Found lo zero t vs h =
    subst (λ l. Found lo l t × (length l ≡ 0)) (ok-injective h) (tt, refl)
entries-Found lo (suc k) t vs h =
    let (v, first, h1) =
      >>=-eq-ok (subscript lo (find lo t)) (λ a. entries (suc lo) k t >>= λ more. ok (a ∷ more))
        h in
    let (more, rest, last) = >>=-eq-ok (entries (suc lo) k t) (λ more. ok (v ∷ more)) h1 in
    let (found, size) = entries-Found (suc lo) k t more rest in
    subst (λ l. Found lo l t × (length l ≡ suc k)) (ok-injective last)
      ((subscript-eq-ok k lo (find lo t) v first, found), ap suc size)

-- Each log has as many lines as its client counted.
abbrev pub Agree : List ℕ → List Shard → Type 0
Agree [] vs = Unit
Agree (c ∷ cs) [] = Unit
Agree (c ∷ cs) (v ∷ vs) = (c ≡ v.failure_log_entries) × Agree cs vs

check_logs-Agree :
    (n i : ℕ) (counts : List ℕ) (t : Table Shard) (vs : List Shard)
    → check_logs n i counts t ≡ ok tt
    → Found i vs t
    → Agree counts vs
unfolding check_logs
check_logs-Agree n i [] t vs h found = tt
check_logs-Agree n i (c ∷ cs) t [] h found = tt
check_logs-Agree n i (c ∷ cs) t (v ∷ vs) h (here, found) =
    let (w, first, h1) = >>=-eq-ok (subscript i (find i t)) _ h in
    let (same, rest) = require-eq-ok (c == w.failure_log_entries) _ _ h1 in
    let e : w ≡ v = cc (sym (subscript-eq-ok n i (find i t) w first) ∙ here) in
    (
      (==_iff c w.failure_log_entries).0 same ∙ ap (λ x. x.failure_log_entries) e,
      check_logs-Agree n (suc i) cs t vs rest found,
    )

pub record IsResult (n : ℕ) (counts : List ℕ) (shards : List Shard) (exits : Table ℤ) : Type 0 where
  pub all_exited : n ≤ length exits
  pub distinct : Distinct exits
  pub well : All (λ e. e.1 ≡ pos 0) exits
  pub all_reported : length shards ≡ n
  pub logs : Agree counts shards

All-codes :
    (results : Table Shard) (exits : Table ℤ)
    → All (EndedWell results) exits
    → All (λ e. e.1 ≡ pos 0) exits
All-codes results [] h = tt
All-codes results (e ∷ exits) ((zero_code, _), h) = (zero_code, All-codes results exits h)

-- If the supervisor's loop completes and it then emits `result`, then at least as many clients as there
-- are have exited, none of them counted twice and each with code 0; there is one shard for each
-- client; and each failure log has as many lines as its client's shard says.
pub conclude-IsResult :
    (n deadline : ℕ) (rounds : List Round) (counts : List ℕ) (s : State) (shards : List Shard)
    (exits : Table ℤ)
    → (supervise n deadline rounds (new_state n)).1 ≡ complete s
    → conclude n counts s ≡ ok (finished shards exits)
    → IsResult n counts shards exits
unfolding conclude
conclude-IsResult n deadline rounds counts s shards exits over h =
    let ((well, distinct), enough) =
      subst (Ends n) over (supervise-Ends n deadline rounds (new_state n) (tt, tt)) in
    let (_, logs, h1) = >>=-eq-ok (check_logs n 0 counts s.results) _ h in
    let (vs, read, last) = >>=-eq-ok (entries 0 n s.results) (λ vs. ok (finished vs s.exits)) h1 in
    let (found, size) = entries-Found 0 n s.results vs read in
    let same_shards : vs ≡ shards = cc in
    let same_exits : s.exits ≡ exits = cc in
    subst (λ l. IsResult n counts l exits) same_shards
      (subst (IsResult n counts vs) same_exits (record {
        all_exited = enough;
        distinct = distinct;
        well = All-codes s.results s.exits well;
        all_reported = size;
        logs = check_logs-Agree n 0 counts s.results vs logs found;
      }))
