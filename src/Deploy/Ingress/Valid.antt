-- ===== src/Deploy/Ingress/Valid.antt =====
-- What `Options.validate` of deploy/ingress.py accepts, and what the accepted budgets guarantee.
use zhtps.Common.{ℕ, ◌+◌, ◌*◌, ◌≤◌, ◌<◌, ◌≡◌, ◌↔◌, String, Option, some, pos, ok, >>-eq-ok_iff}
use zhtps.Deploy.Address.{Address}
use zhtps.Deploy.Ingress.{
  Options, validate, validate_network, validate_rates, validate_capacity, connection_budget,
  idle_per_worker, active_budget,
}
use zhtps.Deploy.Ingress.Network.{IsNetworked, IsBudgeted, validate_network_iff, validate_rates_iff}
use zhtps.Deploy.Ingress.Capacity.{
  IsSized, validate_capacity_iff, ActiveFits-NotNegative, ActiveFits-Positive,
}
use zhtps.Deploy.Ingress.Budgets.{
  usable, share, active_slots, connection_budget-pos, idle_per_worker-pos, active_budget-pos,
  budget-le, active_slots_bounds, share-pos, active_slots_capped,
}

pub record IsValid (ip_address : String → Option Address) (o : Options) : Type 0 where
  pub network : IsNetworked ip_address o
  pub rates : IsBudgeted o
  pub capacity : IsSized o

-- For any parser of addresses, `Options.validate` of the gate succeeds exactly on options with two
-- explicit unicast addresses, distinct endpoints, ports, names, rates and bursts in their ranges,
-- numbers of workers and connections in theirs, an origin budget of two for each proxy worker, and
-- room for both sides of each active request.
pub validate_gate_iff :
    (ip_address : String → Option Address) (o : Options)
    → (validate ip_address o ≡ ok tt) ↔ IsValid ip_address o
unfolding validate
validate_gate_iff ip_address o = (to, from)
  where
    to : validate ip_address o ≡ ok tt → IsValid ip_address o
    to h =
        let (h1, r) = (>>-eq-ok_iff (validate_network ip_address o) _ tt).0 h in
        let (h2, h3) = (>>-eq-ok_iff (validate_rates o) (validate_capacity o) tt).0 r in
        record {
          network = (validate_network_iff ip_address o).0 h1;
          rates = (validate_rates_iff o).0 h2;
          capacity = (validate_capacity_iff o).0 h3;
        }

    from : IsValid ip_address o → validate ip_address o ≡ ok tt
    from v =
        rw ((validate_network_iff ip_address o).1 v.network, (validate_rates_iff o).1 v.rates)
          ((validate_capacity_iff o).1 v.capacity)

-- What the numbers of an accepted configuration add up to.
pub record Balances (o : Options) : Type 0 where
  pub budget : ℕ
  pub idle : ℕ
  pub active : ℕ
  pub workers : ℕ
  pub slots : ℕ
  pub processes : ℕ
  pub sockets : ℕ
  pub budget_is : connection_budget o ≡ pos budget
  pub idle_is : idle_per_worker o ≡ pos idle
  pub active_is : active_budget o ≡ pos active
  pub workers_are : o.origin_workers ≡ pos workers
  pub slots_are : o.origin_slots ≡ pos slots
  pub processes_are : o.proxy_workers ≡ pos processes
  pub sockets_are : o.proxy_connections ≡ pos sockets
  -- active and idle connections stay inside the origin's budget, which is at most its slots
  pub inside : active + processes * idle ≤ budget
  pub below_slots : budget ≤ workers * slots
  -- there is an active slot, and an idle one for each process
  pub some_active : 1 ≤ active
  pub some_idle : 1 ≤ idle
  -- the client and the origin side of each request, and the idle connections, fit one process
  pub sockets_fit : 2 * active + idle < sockets
  -- the origin's own limit on active requests is kept
  pub within_limit :
      (limit : ℕ) → o.origin_active_per_worker ≡ some (pos limit) → active ≤ workers * limit

pub IsSized-Balances : (o : Options) → IsSized o → Balances o
IsSized-Balances o v =
    let (w, ew, w1, _) = v.workers in
    let (s, es, s1, _) = v.slots in
    let (p, ep, p1, _) = v.processes in
    let (c, ec, _, _) = v.sockets in
    let given = o.origin_active_per_worker in
    let bounds =
      active_slots_bounds given w (usable w s) p p1 v.room w1
        (ActiveFits-Positive given s v.active) in
    record {
      budget = usable w s;
      idle = share (usable w s) p;
      active = active_slots given w (usable w s) p;
      workers = w;
      slots = s;
      processes = p;
      sockets = c;
      budget_is = connection_budget-pos o ew es ep;
      idle_is = idle_per_worker-pos o ew es ep;
      active_is = active_budget-pos o ew es ep (ActiveFits-NotNegative given s v.active);
      workers_are = ew;
      slots_are = es;
      processes_are = ep;
      sockets_are = ec;
      inside = bounds.1;
      below_slots = budget-le w s s1;
      some_active = bounds.0;
      some_idle = share-pos (usable w s) p p1 v.room;
      sockets_fit = v.fits;
      within_limit = λ limit e. rw e (active_slots_capped limit w (usable w s) p);
    }

-- If `Options.validate` of the gate accepts, for any parser of addresses, the computed budgets are
-- natural numbers with: active connections plus every proxy worker's idle ones at most the origin's
-- budget; that budget at most workers times slots; at least one active and one idle connection; twice
-- the active ones plus the idle ones of a worker below its connection limit; and the active ones
-- within the origin's own limit, where one is given.
pub validate-Balances :
    (ip_address : String → Option Address) (o : Options)
    → validate ip_address o ≡ ok tt
    → Balances o
validate-Balances ip_address o h =
    IsSized-Balances o ((validate_gate_iff ip_address o).0 h).capacity
