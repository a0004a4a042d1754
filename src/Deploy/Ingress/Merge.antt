-- ===== src/Deploy/Ingress/Merge.antt =====
-- `main` of deploy/ingress.py: how the command line and the origin's snapshot give the options.
use zhtps.Common.{
  sym, ap, ◌∙◌, refl, >>=-eq-ok, ok-injective, ◌↔◌, ◌⊎◌, eqb_ℤ_iff, arith, ◌≡◌, String, ◌<>◌,
  Option, none, some, ℤ, eqb_ℤ, Result, ok, err, usage_error, key_error, ◌>>=◌, if◌then◌else◌,
}

-- The three arguments that a snapshot can give.
pub record Given : Type 0 where
  pub workers : Option ℤ
  pub slots : Option ℤ
  pub active : Option ℤ

-- The snapshot's `workers`, `max_connections` and, if `admission` has one, `max_active`. The first
-- two are read by `origin_config[…]`, which raises on a missing key; a key that is there may have null.
pub record Snapshot : Type 0 where
  pub workers : Option (Option ℤ)
  pub max_connections : Option (Option ℤ)
  pub max_active : Option ℤ

abbrev subscript : String → Option (Option ℤ) → Result (Option ℤ)
subscript key none = err (key_error key)
subscript key (some value) = ok value

-- One round of the loop over `captured`.
abbrev pub fill : String → Option ℤ → Option ℤ → Result (Option ℤ)
fill name none captured = ok captured
fill name (some n) none = ok (some n)
fill name (some n) (some m) =
    if eqb_ℤ n m
    then ok (some n)
    else err (usage_error (name <> " conflicts with the effective origin configuration"))

unfoldable pub capture : Snapshot → Given → Result Given
capture s g = do
  workers ← subscript "workers" s.workers
  slots ← subscript "max_connections" s.max_connections
  w ← fill "origin_workers" g.workers workers
  n ← fill "origin_slots" g.slots slots
  a ← fill "origin_active_per_worker" g.active s.max_active
  ok (record { workers = w; slots = n; active = a })

abbrev with_snapshot : Option Snapshot → Given → Result Given
with_snapshot none g = ok g
with_snapshot (some s) g = capture s g

abbrev complete : Option ℤ → Option ℤ → Option ℤ → Result (ℤ × ℤ × Option ℤ)
complete (some w) (some n) a = ok (w, n, a)
complete _ _ a =
    err (usage_error "supply --origin-config or both --origin-workers and --origin-slots")

-- The origin's workers, slots and active limit that `Options` is built with.
unfoldable pub origin_numbers : Option Snapshot → Given → Result (ℤ × ℤ × Option ℤ)
unfolding capture
origin_numbers snapshot g = do g' ← with_snapshot snapshot g; complete g'.workers g'.slots g'.active

-- A value given twice is the same both times.
abbrev pub Consistent : Option ℤ → Option ℤ → Type 0
Consistent given captured = (given ≡ none) ⊎ (captured ≡ none) ⊎ (given ≡ captured)

abbrev pub first_given : Option ℤ → Option ℤ → Option ℤ
first_given none captured = captured
first_given (some n) captured = some n

fill_iff :
    (name : String) (given captured result : Option ℤ)
    → (fill name given captured ≡ ok result)
      ↔ (Consistent given captured × (result ≡ first_given given captured))
fill_iff name none captured result = ground arith
fill_iff name (some n) none result = ground arith
fill_iff name (some n) (some m) result = ground (arith, eqb_ℤ_iff n m)

subscript-eq-ok :
    (key : String) (o : Option (Option ℤ)) (v : Option ℤ) → subscript key o ≡ ok v → o ≡ some v
subscript-eq-ok key none v h = cc
subscript-eq-ok key (some x) v h = ap some (ok-injective h)

-- The snapshot has both keys, and each argument is filled from it.
capture-eq-ok :
    (s : Snapshot) (g g' : Given)
    → capture s g ≡ ok g'
    → (workers slots : Option ℤ) × (s.workers ≡ some workers)
      × (s.max_connections ≡ some slots)
      × ((fill "origin_workers" g.workers workers ≡ ok g'.workers)
          × (fill "origin_slots" g.slots slots ≡ ok g'.slots)
          × (fill "origin_active_per_worker" g.active s.max_active ≡ ok g'.active))
unfolding capture
capture-eq-ok s g g' h =
    let (workers, e, h1) = >>=-eq-ok (subscript "workers" s.workers) _ h in
    let (slots, d, h2) = >>=-eq-ok (subscript "max_connections" s.max_connections) _ h1 in
    let (w, fw, h3) = >>=-eq-ok (fill "origin_workers" g.workers workers) _ h2 in
    let (n, fs, h4) = >>=-eq-ok (fill "origin_slots" g.slots slots) _ h3 in
    let (a, fa, last) = >>=-eq-ok (fill "origin_active_per_worker" g.active s.max_active) _ h4 in
    let same = ok-injective last in
    (
      workers,
      slots,
      subscript-eq-ok "workers" s.workers workers e,
      subscript-eq-ok "max_connections" s.max_connections slots d,
      (
        fw ∙ ap (λ (x : Given). ok x.workers) same,
        fs ∙ ap (λ (x : Given). ok x.slots) same,
        fa ∙ ap (λ (x : Given). ok x.active) same,
      ),
    )

complete-eq-ok :
    (x y a : Option ℤ) (w n : ℤ) (b : Option ℤ)
    → complete x y a ≡ ok (w, n, b)
    → (x ≡ some w) × (y ≡ some n) × (a ≡ b)
complete-eq-ok none y a w n b h = cc
complete-eq-ok (some x) none a w n b h = cc
complete-eq-ok (some x) (some y) a w n b h =
    let same = ok-injective h in
    (ap some (ap (λ t. t.0) same), ap some (ap (λ t. t.1) same), ap (λ t. t.2) same)

-- With a snapshot, `main` of the gate finds the three origin numbers exactly if the snapshot has
-- workers and slots, of which one may be null if the command line has that number, and no argument on the
-- command line differs from a number of the snapshot; each of the three is then the argument's, if it is
-- given, and the snapshot's otherwise.
pub origin_numbers_iff :
    (s : Snapshot) (g : Given) (w n : ℤ) (a : Option ℤ)
    → (origin_numbers (some s) g ≡ ok (w, n, a)) ↔ (
        (workers slots : Option ℤ) × (s.workers ≡ some workers)
        × (s.max_connections ≡ some slots)
        × Consistent g.workers workers
        × Consistent g.slots slots
        × Consistent g.active s.max_active
        × (some w ≡ first_given g.workers workers)
        × (some n ≡ first_given g.slots slots)
        × (a ≡ first_given g.active s.max_active))
unfolding origin_numbers
origin_numbers_iff s g w n a = (
  λ h.
      let (g', filled, completed) =
        >>=-eq-ok (capture s g) (λ x. complete x.workers x.slots x.active) h in
      let (workers, slots, has_workers, has_slots, (fw, fs, fa)) = capture-eq-ok s g g' filled in
      let (ew, en, ea) = complete-eq-ok g'.workers g'.slots g'.active w n a completed in
      let (cw, rw_) = (fill_iff "origin_workers" g.workers workers g'.workers).0 fw in
      let (cs, rs) = (fill_iff "origin_slots" g.slots slots g'.slots).0 fs in
      let (ca, ra) = (fill_iff "origin_active_per_worker" g.active s.max_active g'.active).0 fa in
      (workers, slots, has_workers, has_slots, cw, cs, ca, sym ew ∙ rw_, sym en ∙ rs, sym ea ∙ ra),
  λ (workers, slots, has_workers, has_slots, cw, cs, ca, ew, en, ea).
      let fw = (fill_iff "origin_workers" g.workers workers (some w)).1 (cw, ew) in
      let fs = (fill_iff "origin_slots" g.slots slots (some n)).1 (cs, en) in
      let fa = (fill_iff "origin_active_per_worker" g.active s.max_active a).1 (ca, ea) in
      rw (has_workers, has_slots) (rw (fw, fs, fa) refl),
)
