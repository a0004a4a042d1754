-- ===== src/Bench/RemoteLoad/Agent/Prepare.antt =====
-- What `agent` of bench/remote_load.py has checked when it starts the load client.
use zhtps.Common.{
  not-eq-true, not, all, ◌&&◌, pos, negsuc, leb, leb→le, ℕ, ◌≡◌, ◌≤◌, true, false, List, [], ◌∷◌,
  String, ok, >>=-eq-ok, require-eq-ok, All, leb_ℤ, ltb_ℤ, ℤ, max_ℤ, and-eq-true, arith, length,
  ok-injective, subst,
}
use zhtps.Bench.RemoteLoad.Agent.{
  Host, RunCommand, Prepared, prepare, file_arguments, has, needed, is_workload_flag, is_empty, all,
}

-- A workload file that is accepted.
abbrev pub IsAccepted : Host → String × String → Type 0
IsAccepted h (flag, encoded) =
    (content : List ℕ) × (is_workload_flag flag ≡ true)
    × (h.decode encoded ≡ ok content)
    × (length content ≤ 67_108_864)

file_arguments-All :
    (h : Host) (files : List (String × String)) (out : List String)
    → file_arguments h files ≡ ok out
    → All (IsAccepted h) files
unfolding file_arguments
file_arguments-All h [] out e = tt
file_arguments-All h ((flag, encoded) ∷ files) out e =
    let (known, e1) = require-eq-ok (is_workload_flag flag) _ _ e in
    let (content, decoded, e2) = >>=-eq-ok (h.decode encoded) _ e1 in
    let (small, e3) = require-eq-ok (leb (length content) 67_108_864) _ _ e2 in
    let (more, rest, _) = >>=-eq-ok (file_arguments h files) _ e3 in
    ((content, known, decoded, leb→le _ _ small), file_arguments-All h files more rest)

pub record IsPrepared (h : Host) (c : RunCommand) (p : Prepared) : Type 0 where
  pub placed : is_empty c.cpus ≡ false
  pub available : all (λ cpu. has cpu h.affinity) c.cpus ≡ true
  -- the new soft limit is enough, no lower than before, and within the hard limit
  pub enough : leb_ℤ (needed c) p.soft ≡ true
  pub no_lower : leb_ℤ h.soft p.soft ≡ true
  pub within : leb_ℤ h.soft h.hard ≡ true → leb_ℤ p.soft h.hard ≡ true
  pub files : All (IsAccepted h) c.files

max_ℤ_bounds : (a b : ℤ) → (leb_ℤ b (max_ℤ a b) ≡ true) × (leb_ℤ a (max_ℤ a b) ≡ true)
max_ℤ_bounds (pos a) (pos b) = (ground arith, ground arith)
max_ℤ_bounds (pos a) (negsuc b) = (ground arith, ground arith)
max_ℤ_bounds (negsuc a) (pos b) = (ground arith, ground arith)
max_ℤ_bounds (negsuc a) (negsuc b) = (ground arith, ground arith)

max_ℤ_within :
    (a b hard : ℤ) → leb_ℤ a hard ≡ true → ltb_ℤ hard b ≡ false → leb_ℤ (max_ℤ a b) hard ≡ true
max_ℤ_within (pos a) (pos b) hard h k = ground arith
max_ℤ_within (pos a) (negsuc b) hard h k = ground arith
max_ℤ_within (negsuc a) (pos b) hard h k = ground arith
max_ℤ_within (negsuc a) (negsuc b) hard h k = ground arith

-- If the agent starts the load client, then its CPUs are a nonempty list of CPUs of the host; the soft
-- descriptor limit it sets is enough for the connections and 256 more, no lower than before, and
-- within the hard limit if the old one was; and each workload file has one of the two flags and at
-- most 64 MiB.
pub prepare-IsPrepared :
    (h : Host) (c : RunCommand) (p : Prepared) → prepare h c ≡ ok p → IsPrepared h c p
unfolding prepare
prepare-IsPrepared h c p e =
    let (free, e1) =
      require-eq-ok (not (is_empty c.cpus) && all (λ cpu. has cpu h.affinity) c.cpus) _ _ e in
    let (placed, available) =
      and-eq-true (not (is_empty c.cpus)) (all (λ cpu. has cpu h.affinity) c.cpus) free in
    let (hash, _, e2) = >>=-eq-ok (h.sha256 (h.resolve c.binary)) _ e1 in
    let (room, e3) = require-eq-ok (not (ltb_ℤ h.hard (needed c))) _ _ e2 in
    let (files, read, last) = >>=-eq-ok (file_arguments h c.files) _ e3 in
    let (enough, no_lower) = max_ℤ_bounds h.soft (needed c) in
    subst (IsPrepared h c) (ok-injective last) (record {
      placed = not-eq-true (is_empty c.cpus) placed;
      available = available;
      enough = enough;
      no_lower = no_lower;
      within =
          λ k. max_ℤ_within h.soft (needed c) h.hard k (not-eq-true (ltb_ℤ h.hard (needed c)) room);
      files = file_arguments-All h c.files files read;
    })
