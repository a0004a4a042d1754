-- ===== src/Deploy/Ingress/Capacity.antt =====
-- The options that `Options.validate` of deploy/ingress.py accepts.
use zhtps.Common.{
  ◌*ℤ◌, ◌+ℤ◌, AllPass, check_all_iff, and-intro, ℕ, ◌+◌, ◌*◌, ◌≤◌, ◌<◌, ◌≡◌, ◌↔◌, refl, true,
  Option, none, some, ℤ, pos, ltb_ℤ, leb_ℤ, ok, and-eq-true, arith, AllPass, check_all_iff,
}
use zhtps.Deploy.Names.{InRange, between_iff}
use zhtps.Deploy.Ingress.{
  Options, validate_capacity, capacity_checks, active_in_range, connection_budget, active_budget,
  idle_per_worker,
}
use zhtps.Deploy.Ingress.Budgets.{
  usable, share, active_slots, Positive, NotNegative, connection_budget-pos, idle_per_worker-pos,
  active_budget-pos,
}

-- The limit for each origin worker, if there is one, is one of its slots.
abbrev pub ActiveFits : Option ℤ → ℕ → Type 0
ActiveFits none slots = Unit
ActiveFits (some a) slots = InRange 1 slots a

pub record IsSized (o : Options) : Type 0 where
  pub workers : InRange 1 256 o.origin_workers
  pub slots : InRange 1 8176 o.origin_slots
  pub active : ActiveFits o.origin_active_per_worker slots.0
  pub processes : InRange 1 256 o.proxy_workers
  pub sockets : InRange 16 1_000_000 o.proxy_connections
  pub body : InRange 1 4294967295 o.max_body_bytes
  pub lifetime : InRange 1 4294967295 o.keepalive_requests
  pub room : 2 * processes.0 ≤ usable workers.0 slots.0
  pub fits :
      2 * active_slots o.origin_active_per_worker workers.0 (usable workers.0 slots.0) processes.0
        + share (usable workers.0 slots.0) processes.0
      < sockets.0

active_in_range_iff : (a : Option ℤ) (s : ℕ) → (active_in_range a (pos s) ≡ true) ↔ ActiveFits a s
active_in_range_iff none s = (λ _. tt, λ _. refl)
active_in_range_iff (some a) s = between_iff 1 s a

pub ActiveFits-NotNegative : (a : Option ℤ) (s : ℕ) → ActiveFits a s → NotNegative a
ActiveFits-NotNegative none s _ = tt
ActiveFits-NotNegative (some a) s (n, e, _, _) = (n, e)

pub ActiveFits-Positive : (a : Option ℤ) (s : ℕ) → ActiveFits a s → Positive a
ActiveFits-Positive none s _ = tt
ActiveFits-Positive (some a) s (n, e, h, _) = (n, e, h)

-- The last two tests, for numbers in their ranges.
room_iff :
    (o : Options) {w s p : ℕ}
    → o.origin_workers ≡ pos w
    → o.origin_slots ≡ pos s
    → o.proxy_workers ≡ pos p
    → (leb_ℤ (pos 2 *ℤ o.proxy_workers) (connection_budget o) ≡ true) ↔ (2 * p ≤ usable w s)
room_iff o ew es ep = rw (connection_budget-pos o ew es ep, ep) (ground arith)

fits_iff :
    (o : Options) {w s p c : ℕ}
    → o.origin_workers ≡ pos w
    → o.origin_slots ≡ pos s
    → o.proxy_workers ≡ pos p
    → o.proxy_connections ≡ pos c
    → NotNegative o.origin_active_per_worker
    → (ltb_ℤ (pos 2 *ℤ active_budget o +ℤ idle_per_worker o) o.proxy_connections ≡ true)
      ↔ (2 * active_slots o.origin_active_per_worker w (usable w s) p + share (usable w s) p < c)
fits_iff o ew es ep ec given =
    rw (active_budget-pos o ew es ep given, idle_per_worker-pos o ew es ep, ec) (ground arith)

capacity_sound : (o : Options) → AllPass (capacity_checks o) → IsSized o
unfolding capacity_checks
capacity_sound o (h1, (h2, (h3, (h4, (h5, (h6, _)))))) =
    let (workers, slots) = and-eq-true _ _ h1 in
    let (processes, sockets) = and-eq-true _ _ h3 in
    let (body, lifetime) = and-eq-true _ _ h4 in
    let w = (between_iff 1 256 o.origin_workers).0 workers in
    let s = (between_iff 1 8176 o.origin_slots).0 slots in
    let p = (between_iff 1 256 o.proxy_workers).0 processes in
    let c = (between_iff 16 1_000_000 o.proxy_connections).0 sockets in
    let a = (active_in_range_iff o.origin_active_per_worker s.0).0 (rw (s.1) at h2) in
    record {
      workers = w;
      slots = s;
      active = a;
      processes = p;
      sockets = c;
      body = (between_iff 1 4294967295 o.max_body_bytes).0 body;
      lifetime = (between_iff 1 4294967295 o.keepalive_requests).0 lifetime;
      room = (room_iff o (w.1) (s.1) (p.1)).0 h5;
      fits = (fits_iff o (w.1) (s.1) (p.1) (c.1) (ActiveFits-NotNegative _ _ a)).0 h6;
    }

capacity_complete : (o : Options) → IsSized o → AllPass (capacity_checks o)
unfolding capacity_checks
capacity_complete o v = (
  and-intro ((between_iff _ _ _).1 workers) ((between_iff _ _ _).1 slots),
  (
    rw (slots.1) ((active_in_range_iff o.origin_active_per_worker slots.0).1 active),
    (
      and-intro ((between_iff _ _ _).1 processes) ((between_iff _ _ _).1 sockets),
      (
        and-intro ((between_iff _ _ _).1 body) ((between_iff _ _ _).1 lifetime),
        (
          (room_iff o (workers.1) (slots.1) (processes.1)).1 room,
          (
            (fits_iff o (workers.1) (slots.1) (processes.1) (sockets.1)
                  (ActiveFits-NotNegative _ _ active)).1
                fits,
            tt,
          ),
        ),
      ),
    ),
  ),
)
  where
    open v use {workers, slots, active, processes, sockets, body, lifetime, room, fits}

-- The numbers pass exactly if they are in their ranges and leave room.
pub validate_capacity_iff : (o : Options) → (validate_capacity o ≡ ok tt) ↔ IsSized o
unfolding validate_capacity
validate_capacity_iff o = (
  λ h. capacity_sound o ((check_all_iff (capacity_checks o)).0 h),
  λ v. (check_all_iff (capacity_checks o)).1 (capacity_complete o v),
)
