-- ===== src/Deploy/WorkerCpus/Suggest/Sound.antt =====
-- The workers that `suggest` maps: where they may run, and what they keep away from.
use zhtps.Common.{
  ◌≤◌, not, ◌&&◌, >>-eq-ok_iff, check_all_iff, and-eq-true, ◌==◌, ltb, sym, subst, ap, ◌∙◌, ==_iff,
  Bool-cases, inl, inr, ℕ, ◌≡◌, ◌<◌, true, false, List, [], ◌∷◌, map, String, ℤ, pos, Result, ok,
  >>=-eq-ok, All, arith, map_result, length, between-pos, ok-injective, subst, ltb, check_all,
}
use zhtps.Deploy.WorkerCpus.CpuSet.{member, member-filter_by, intersection}
use zhtps.Deploy.WorkerCpus.Machine.{Machine, siblings, l3}
use zhtps.Deploy.WorkerCpus.Select.{Choice}
use zhtps.Deploy.WorkerCpus.Select.Invariant.{
  Subset, Apart, Sound, select_from-Sound, Subset-union_left, Subset-union_right,
}
use zhtps.Deploy.WorkerCpus.Suggest.{
  is_same_set, unions, insert_domain, sort_domains, candidates, groups, Topology, read_topology,
  irq_cpus, choose, count, suggest, Mapping, is_same_set, nic_irqs, cpu_list, effective_cpus,
  argument_checks, refuse_rps,
}

-- What reading a set for each CPU of a list gives: every set comes from a CPU, and the union has each.
module _ (f : ℕ → Result (List ℕ)) where
  abbrev pub From : List ℕ → List ℕ → Type 0
  From cs s = (c : ℕ) × (member c cs ≡ true) × (f c ≡ ok s)

  From-later : (x : ℕ) (cs s : List ℕ) → From cs s → From (x ∷ cs) s
  From-later x cs s (c, inside, e) = (c, ground (arith, inside), e)

  All-From-later :
      (x : ℕ) (cs : List ℕ) (ss : List (List ℕ)) → All (From cs) ss → All (From (x ∷ cs)) ss
  All-From-later x cs [] h = tt
  All-From-later x cs (s ∷ ss) (p, h) = (From-later x cs s p, All-From-later x cs ss h)

  map_result-From : (cs : List ℕ) (ss : List (List ℕ)) → map_result f cs ≡ ok ss → All (From cs) ss
  map_result-From [] ss h = subst (All (From [])) (ok-injective h) tt
  map_result-From (c ∷ cs) ss h =
      let (s, first, h') = >>=-eq-ok (f c) _ h in
      let (ss', rest, last) = >>=-eq-ok (map_result f cs) _ h' in
      subst (All (From (c ∷ cs))) (ok-injective last)
        ((c, ground arith, first), All-From-later c cs ss' (map_result-From cs ss' rest))

  map_result-unions :
      (cs : List ℕ) (ss : List (List ℕ))
      → map_result f cs ≡ ok ss
      → (c : ℕ) (s : List ℕ) → member c cs ≡ true
      → f c ≡ ok s
      → Subset s (unions ss)
  unfolding unions
  map_result-unions [] ss h c s inside e = cc
  map_result-unions (x ∷ cs) ss h c s inside e =
      let (s', first, h') = >>=-eq-ok (f x) _ h in
      let (ss', rest, last) = >>=-eq-ok (map_result f cs) _ h' in
      subst (λ t. Subset s (unions t)) (ok-injective last)
        (elim (Bool-cases (c == x)) [
          | inl same ↦
              let e' = sym e ∙ ap f ((==_iff c x).0 same) ∙ first in
              subst (λ t. Subset t (unions (s' ∷ ss'))) (sym (ok-injective e'))
                (Subset-union_left s' (unions ss'))
          | inr other ↦
              Subset-union_right s (unions ss') s'
                (map_result-unions cs ss' rest c s (ground (arith, other)) e)
        ])

insert_domain-All :
    (P : List ℕ → Type 0) (d : List ℕ) (ds : List (List ℕ))
    → P d
    → All P ds
    → All P (insert_domain d ds)
insert_domain-All P d [] p h = (p, tt)
insert_domain-All P [] (e ∷ es) p h = (p, h)
insert_domain-All P (x ∷ d) ([] ∷ es) p (q, h) = (q, insert_domain-All P (x ∷ d) es p h)
insert_domain-All P (x ∷ d) ((y ∷ e) ∷ es) p (q, h) =
    elim (Bool-cases (is_same_set (x ∷ d) (y ∷ e))) [
      | inl same ↦ rw same (q, h)
      | inr other ↦ elim (Bool-cases (ltb x y)) [
        | inl before ↦ rw (other, before) (p, (q, h))
        | inr behind ↦ rw (other, behind) (q, insert_domain-All P (x ∷ d) es p h)
      ]
    ]

sort_domains-All :
    (P : List ℕ → Type 0) (ds es : List (List ℕ)) → All P ds → sort_domains ds ≡ ok es → All P es
unfolding sort_domains
sort_domains-All P [] es h e = subst (All P) (ok-injective e) tt
sort_domains-All P ([] ∷ ds) es h e = cc
sort_domains-All P ((x ∷ d) ∷ ds) es (p, h) e =
    let (es', rest, last) = >>=-eq-ok (sort_domains ds) _ e in
    subst (All P) (ok-injective last)
      (insert_domain-All P (x ∷ d) es' p (sort_domains-All P ds es' h rest))

-- What the topology says of the interrupts: each set of `domains` is the L3 domain of an IRQ CPU, and
-- `excluded` has each IRQ CPU's siblings.
pub record Describes (m : Machine) (t : Topology) : Type 0 where
  pub domains_from : All (From (l3 m) (irq_cpus t.effective)) t.domains
  pub excludes :
      (c : ℕ) (ss : List ℕ)
      → member c (irq_cpus t.effective) ≡ true
      → siblings m c ≡ ok ss
      → Subset ss t.excluded

read_topology-Describes : (m : Machine) (t : Topology) → read_topology m ≡ ok t → Describes m t
unfolding read_topology
read_topology-Describes m t h =
    let (irqs, _, h1) = >>=-eq-ok (nic_irqs m) _ h in
    let (text, _, h2) = >>=-eq-ok m.online _ h1 in
    let (online, _, h3) = >>=-eq-ok (cpu_list text) _ h2 in
    let (effective, _, h4) = >>=-eq-ok (map_result (effective_cpus m online) irqs) _ h3 in
    let (taken, read, h5) = >>=-eq-ok (map_result (siblings m) (irq_cpus effective)) _ h4 in
    let (shared, found, h6) = >>=-eq-ok (map_result (l3 m) (irq_cpus effective)) _ h5 in
    let (domains, sorted, last) = >>=-eq-ok (sort_domains shared) _ h6 in
    subst (Describes m) (ok-injective last) (record {
      domains_from =
          sort_domains-All (From (l3 m) (irq_cpus effective)) shared domains
            (map_result-From (l3 m) (irq_cpus effective) shared found) sorted;
      excludes = map_result-unions (siblings m) (irq_cpus effective) taken read;
    })

-- A CPU that may take a worker: one that the process may use, online, below 1024, and in the L3
-- domain of an IRQ CPU.
abbrev pub Fits : Machine → List ℕ → Topology → ℕ → Type 0
Fits m allowed t c =
    (member c allowed ≡ true)
    × (member c t.online ≡ true)
    × (c < 1024)
    × ((domain : List ℕ) × From (l3 m) (irq_cpus t.effective) domain × (member c domain ≡ true))

member-candidates :
    (allowed online excluded : List ℕ) (c : ℕ)
    → member c (candidates allowed online excluded) ≡ true
    → (member c allowed ≡ true) × (member c online ≡ true) × (c < 1024)
unfolding candidates
member-candidates allowed online excluded c h = ground (
  arith,
  member-filter_by (λ x. ltb x 1024 && not (member x excluded)) c (intersection allowed online),
  member-filter_by (λ x. member x online) c allowed,
)

groups-Fit :
    (m : Machine) (allowed : List ℕ) (t : Topology) (ds : List (List ℕ))
    → All (From (l3 m) (irq_cpus t.effective)) ds
    → All
        (λ group. (c : ℕ) → member c group ≡ true → Fits m allowed t c)
        (map (λ domain. intersection domain (candidates allowed t.online t.excluded)) ds)
groups-Fit m allowed t [] h = tt
groups-Fit m allowed t (d ∷ ds) (from, h) = (
  (λ c inside.
      let all = candidates allowed t.online t.excluded in
      let both =
        and-eq-true (member c all) (member c d)
          (sym (member-filter_by (λ x. member x all) c d) ∙ inside) in
      let (may, runs, few) = member-candidates allowed t.online t.excluded c (both.0) in
      (may, runs, few, (d, from, both.1))),
  groups-Fit m allowed t ds h,
)

-- What the mapping of `workers` promises.
pub record IsMapping (m : Machine) (workers : ℤ) (allowed : List ℕ) (r : Mapping) : Type 0 where
  pub topology : Topology
  pub read : read_topology m ≡ ok topology
  pub described : Describes m topology
  pub number : workers ≡ pos (length r.worker_cpus)
  pub in_range : (1 ≤ length r.worker_cpus) × (length r.worker_cpus ≤ 256)
  pub placed :
      All (λ c. Fits m allowed topology c × (member c topology.excluded ≡ false)) r.worker_cpus
  pub apart : Apart (siblings m) r.worker_cpus

-- If `suggest` returns a mapping, it read a topology whose domains are L3 domains of IRQ CPUs and whose
-- excluded CPUs have all siblings of IRQ CPUs; the mapping has one CPU for each worker, of which there
-- are 1 to 256; each CPU is allowed, online, below 1024, in such a domain, and not excluded; and no
-- CPU of the mapping is a thread sibling of an earlier one.
pub suggest-IsMapping :
    (m : Machine) (interface : String) (workers : ℤ) (allowed : List ℕ) (r : Mapping)
    → suggest m interface workers allowed ≡ ok r
    → IsMapping m workers allowed r
unfolding suggest choose groups
suggest-IsMapping m interface workers allowed r h =
    let (passed, h1) = (>>-eq-ok_iff (check_all (argument_checks m interface workers)) _ r).0 h in
    let (_, h2) = (>>-eq-ok_iff (refuse_rps m.rps_cpus) _ r).0 h1 in
    let (t, read, h3) = >>=-eq-ok (read_topology m) _ h2 in
    let (chosen, chose, last) = >>=-eq-ok (choose m (count workers) allowed t) _ h3 in
    let (_, (range, _)) = (check_all_iff (argument_checks m interface workers)).0 passed in
    let (n, number, low, high) = between-pos 1 256 workers range in
    let described = read_topology-Describes m t read in
    let empty : Choice = record { selected = []; used = t.excluded } in
    let start : Sound (siblings m) (Fits m allowed t) t.excluded empty = record {
      fit = tt;
      apart = tt;
      covered = tt;
      kept = λ c inside. inside;
    } in
    let (sound, full) =
      select_from-Sound (siblings m) (Fits m allowed t) t.excluded (count workers) (count workers)
        (groups t allowed) empty chosen (groups-Fit m allowed t t.domains described.domains_from)
        start (omega arith) chose in
    let size : length chosen.selected ≡ n = full ∙ ap count number in
    subst (IsMapping m workers allowed) (ok-injective last) (record {
      topology = t;
      read = read;
      described = described;
      number = number ∙ ap pos (sym size);
      in_range = (omega arith, omega arith);
      placed = sound.fit;
      apart = sound.apart;
    })
