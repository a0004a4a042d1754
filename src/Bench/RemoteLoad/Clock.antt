-- ===== src/Bench/RemoteLoad/Clock.antt =====
-- The estimate of the remote clock by `RemoteLoad.__init__` of bench/remote_load.py. Times are in
-- nanoseconds.
use zhtps.Common.{
  subst, inl, inr, Bool-cases, ==_iff, ℕ, ◌+◌, ◌-◌, ◌≤◌, ◌/◌, ◌≡◌, refl, Bool, true, false, ◌&&◌,
  ◌||◌, List, [], ◌∷◌, ltb, ◌==◌, if◌then◌else◌, ℤ, pos, ◌-ℤ◌, leb_ℤ, arith, All, map, Bool-cases,
}

-- One exchange: the wall clock and the monotonic clock before it, the remote clock's answer, and the
-- monotonic clock after it.
pub record Exchange : Type 0 where
  pub begin_wall : ℕ
  pub begin : ℕ
  pub unix_ns : ℕ
  pub finish : ℕ

abbrev pub elapsed : Exchange → ℕ
elapsed x = x.finish - x.begin

-- `(elapsed // 2, begin_wall + elapsed // 2 - response["unix_ns"])`
abbrev pub estimate : Exchange → ℕ × ℤ
estimate x = (elapsed x / 2, pos (x.begin_wall + elapsed x / 2) -ℤ pos x.unix_ns)

-- Python's order on tuples
abbrev precedes : ℕ × ℤ → ℕ × ℤ → Bool
precedes (u, a) (v, b) = ltb u v || (u == v && leb_ℤ a b)

-- `min(first, *rest)`
unfoldable pub least : ℕ × ℤ → List (ℕ × ℤ) → ℕ × ℤ
least best [] = best
least best (e ∷ es) = if precedes best e then least best es else least e es

-- The uncertainty and the offset, from the exchanges, of which there is at least one.
unfoldable pub estimate_clock : Exchange → List Exchange → ℕ × ℤ
unfolding least
estimate_clock x xs = least (estimate x) (map estimate xs)

-- The remote clock was read `delay` after the exchange began and before it ended, and the local wall
-- clock was then ahead of it by `ahead`.
pub record Reads (ahead : ℤ) (x : Exchange) : Type 0 where
  pub delay : ℕ
  pub within : delay ≤ elapsed x
  pub shows : pos (x.begin_wall + delay) -ℤ pos x.unix_ns ≡ ahead

-- The two integers differ by at most n.
abbrev pub Near : ℕ → ℤ → ℤ → Type 0
Near n a b = (leb_ℤ (a -ℤ b) (pos n) ≡ true) × (leb_ℤ (b -ℤ a) (pos n) ≡ true)

abbrev Good : ℤ → ℕ × ℤ → Type 0
Good ahead (u, offset) = Near (u + 1) offset ahead

shifted : (w d e u : ℕ) → d ≤ e → Near (e / 2 + 1) (pos (w + e / 2) -ℤ pos u) (pos (w + d) -ℤ pos u)
shifted w d e u h = (ground arith, ground arith)

estimate-Good : (ahead : ℤ) (x : Exchange) → Reads ahead x → Good ahead (estimate x)
estimate-Good ahead x r =
    rw (← r.shows) (shifted x.begin_wall r.delay (elapsed x) x.unix_ns r.within)

least-Good :
    (P : ℕ × ℤ → Type 0) (best : ℕ × ℤ) (es : List (ℕ × ℤ)) → P best → All P es → P (least best es)
unfolding least
least-Good P best [] p _ = p
least-Good P best (e ∷ es) p (q, rest) = elim (Bool-cases (precedes best e)) [
  | inl first ↦ rw first (least-Good P best es p rest)
  | inr later ↦ rw later (least-Good P e es q rest)
]

estimates-Good :
    (ahead : ℤ) (xs : List Exchange) → All (Reads ahead) xs → All (Good ahead) (map estimate xs)
estimates-Good ahead [] _ = tt
estimates-Good ahead (x ∷ xs) (r, rest) = (estimate-Good ahead x r, estimates-Good ahead xs rest)

precedes-first : (a b : ℕ × ℤ) → precedes a b ≡ true → a.0 ≤ b.0
precedes-first a b h = ground (arith, ==_iff a.0 b.0)

not-precedes-first : (a b : ℕ × ℤ) → precedes a b ≡ false → b.0 ≤ a.0
not-precedes-first a b h = ground (arith, ==_iff a.0 b.0)

least-le :
    (best : ℕ × ℤ) (es : List (ℕ × ℤ))
    → ((least best es).0 ≤ best.0) × All (λ e. (least best es).0 ≤ e.0) es
unfolding least
least-le best [] = (omega arith, tt)
least-le best (e ∷ es) = elim (Bool-cases (precedes best e)) [
  | inl first ↦
      let (below, all) = least-le best es in
      let le = precedes-first best e first in
      let same : least best es ≡ least best (e ∷ es) = rw first refl in
      subst (λ t. (t.0 ≤ best.0) × All (λ y. t.0 ≤ y.0) (e ∷ es)) same (below, (omega arith, all))
  | inr later ↦
      let (below, all) = least-le e es in
      let le = not-precedes-first best e later in
      let same : least e es ≡ least best (e ∷ es) = rw later refl in
      subst (λ t. (t.0 ≤ best.0) × All (λ y. t.0 ≤ y.0) (e ∷ es)) same (omega arith, (below, all))
]

estimates-le :
    (n : ℕ) (xs : List Exchange)
    → All (λ e. n ≤ e.0) (map estimate xs)
    → All (λ x. n ≤ elapsed x / 2) xs
estimates-le n [] _ = tt
estimates-le n (x ∷ xs) (p, rest) = (p, estimates-le n xs rest)

-- If the remote clock was read during each exchange, and the local wall clock was `ahead` of it each
-- time, then the offset that is kept differs from `ahead` by at most the uncertainty that is kept and
-- one nanosecond, and no exchange gave a smaller uncertainty.
pub estimate_clock-Near :
    (ahead : ℤ) (x : Exchange) (xs : List Exchange)
    → Reads ahead x
    → All (Reads ahead) xs
    → Near ((estimate_clock x xs).0 + 1) (estimate_clock x xs).1 ahead
      × All (λ y. (estimate_clock x xs).0 ≤ elapsed y / 2) (x ∷ xs)
unfolding estimate_clock
estimate_clock-Near ahead x xs r rs =
    let (first, others) = least-le (estimate x) (map estimate xs) in
    (
      least-Good (Good ahead) (estimate x) (map estimate xs) (estimate-Good ahead x r)
          (estimates-Good ahead xs rs),
      (first, estimates-le (estimate_clock x xs).0 xs others),
    )
