-- ===== src/Bench/Http2Remote/Order.antt =====
-- The order of what `run` of bench/http2_remote.py emits: no load before all clients wait for it.
pub mod Loop
use zhtps.Common.{
  ◌||◌, ℤ, ◌≤◌, subst, sym, ok-injective, ◌-◌, ◌&&◌, eqb_ℤ, pos, ℕ, ◌≡◌, ◌+◌, ◌⊎◌, inl, inr, refl,
  Bool, Bool-cases, true, false, List, [], ◌∷◌, ◌++◌, length, ◌==◌, ltb, leb, ==_iff, Result, ok,
  err, ◌>>=◌, >>=-eq-ok, require-eq-ok, arith, ◌≤◌,
}
use zhtps.Json.{Json}
use zhtps.Bench.Http2Remote.{
  check_logs, Shard, nothing, warmup, measure, other_control, Progress, running, broken, complete,
  conclude, or_failed, Table, put, Control, Input, Output, State, Round, when_all, react,
  and_sample, round, supervise, continue, run, last_output, new_state, is_allowed, schedule,
  entries, all_ready, all_prepared, client, sampled, warmup_scheduled, prepared_message, scheduled,
  ready_message, all_measured, measured_message, result_message, finished, unknown_message, failed,
  control, exited, is_known, find, invalid, not,
}

-- A warmup is scheduled only behind `prepared`, and a measurement only behind `ready`; the flags say
-- which of the two was emitted before.
abbrev pub InOrder : Bool → Bool → List Output → Type 0
InOrder p r [] = Unit
InOrder p r (all_prepared _ ∷ os) = InOrder true r os
InOrder p r (all_ready _ ∷ os) = InOrder p true os
InOrder p r (warmup_scheduled _ ∷ os) = (p ≡ true) × InOrder p r os
InOrder p r (scheduled _ ∷ os) = (r ≡ true) × InOrder p r os
InOrder p r (all_measured _ ∷ os) = InOrder p r os
InOrder p r (sampled _ ∷ os) = InOrder p r os
InOrder p r (finished _ _ ∷ os) = InOrder p r os
InOrder p r (failed _ ∷ os) = InOrder p r os

-- What a list of events leaves of the flags.
abbrev pub prepared_after : Bool → List Output → Bool
prepared_after p [] = p
prepared_after p (all_prepared _ ∷ os) = prepared_after true os
prepared_after p (_ ∷ os) = prepared_after p os

abbrev pub ready_after : Bool → List Output → Bool
ready_after r [] = r
ready_after r (all_ready _ ∷ os) = ready_after true os
ready_after r (_ ∷ os) = ready_after r os

pub InOrder-append :
    (p r : Bool) (xs ys : List Output)
    → InOrder p r xs
    → InOrder (prepared_after p xs) (ready_after r xs) ys
    → InOrder p r (xs ++ ys)
InOrder-append p r [] ys h k = k
InOrder-append p r (all_prepared _ ∷ xs) ys h k = InOrder-append true r xs ys h k
InOrder-append p r (all_ready _ ∷ xs) ys h k = InOrder-append p true xs ys h k
InOrder-append p r (warmup_scheduled _ ∷ xs) ys (e, h) k = (e, InOrder-append p r xs ys h k)
InOrder-append p r (scheduled _ ∷ xs) ys (e, h) k = (e, InOrder-append p r xs ys h k)
InOrder-append p r (all_measured _ ∷ xs) ys h k = InOrder-append p r xs ys h k
InOrder-append p r (sampled _ ∷ xs) ys h k = InOrder-append p r xs ys h k
InOrder-append p r (finished _ _ ∷ xs) ys h k = InOrder-append p r xs ys h k
InOrder-append p r (failed _ ∷ xs) ys h k = InOrder-append p r xs ys h k

pub prepared_after-sampled :
    (p : Bool) (xs : List Output) (v : Json)
    → prepared_after p xs ≡ prepared_after p (xs ++ sampled v ∷ [])
prepared_after-sampled p [] v = refl
prepared_after-sampled p (all_prepared _ ∷ xs) v = prepared_after-sampled true xs v
prepared_after-sampled p (all_ready _ ∷ xs) v = prepared_after-sampled p xs v
prepared_after-sampled p (warmup_scheduled _ ∷ xs) v = prepared_after-sampled p xs v
prepared_after-sampled p (scheduled _ ∷ xs) v = prepared_after-sampled p xs v
prepared_after-sampled p (all_measured _ ∷ xs) v = prepared_after-sampled p xs v
prepared_after-sampled p (sampled _ ∷ xs) v = prepared_after-sampled p xs v
prepared_after-sampled p (finished _ _ ∷ xs) v = prepared_after-sampled p xs v
prepared_after-sampled p (failed _ ∷ xs) v = prepared_after-sampled p xs v

pub ready_after-sampled :
    (r : Bool) (xs : List Output) (v : Json)
    → ready_after r xs ≡ ready_after r (xs ++ sampled v ∷ [])
ready_after-sampled r [] v = refl
ready_after-sampled r (all_prepared _ ∷ xs) v = ready_after-sampled r xs v
ready_after-sampled r (all_ready _ ∷ xs) v = ready_after-sampled true xs v
ready_after-sampled r (warmup_scheduled _ ∷ xs) v = ready_after-sampled r xs v
ready_after-sampled r (scheduled _ ∷ xs) v = ready_after-sampled r xs v
ready_after-sampled r (all_measured _ ∷ xs) v = ready_after-sampled r xs v
ready_after-sampled r (sampled _ ∷ xs) v = ready_after-sampled r xs v
ready_after-sampled r (finished _ _ ∷ xs) v = ready_after-sampled r xs v
ready_after-sampled r (failed _ ∷ xs) v = ready_after-sampled r xs v
