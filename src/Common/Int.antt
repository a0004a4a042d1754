-- ===== src/Common/Int.antt =====
-- Python's integers over the native numbers: `pos n` is n and `negsuc n` is -(n + 1).
use Prim.Native.Nat.{ℕ, zero, suc, ◌+◌, ◌-◌, ◌*◌, ◌/◌, ◌≤◌, min, max}
use mathlib.Core.Path.{◌≡◌, refl}
use mathlib.Core.Logic.{◌↔◌}
use mathlib.Core.Bool.{Bool, true, false, ◌&&◌}
use native.Mathlib.Omega.{arith}
use zhtps.Common.Tests.{ltb, leb, ◌==◌, if◌then◌else◌}

pub data ℤ : Type 0 where
  pos : ℕ → ℤ
  negsuc : ℕ → ℤ

-- a - b, as an integer
abbrev pub sub_ℕ : ℕ → ℕ → ℤ
sub_ℕ a b = if leb b a then pos (a - b) else negsuc (b - a - 1)

infixl 65 ◌+ℤ◌ ◌-ℤ◌
infixl 70 ◌*ℤ◌ ◌//ℤ◌
abbrev pub ◌+ℤ◌ : ℤ → ℤ → ℤ
pos a +ℤ pos b = pos (a + b)
pos a +ℤ negsuc b = sub_ℕ a (suc b)
negsuc a +ℤ pos b = sub_ℕ b (suc a)
negsuc a +ℤ negsuc b = negsuc (suc (a + b))

abbrev pub ◌-ℤ◌ : ℤ → ℤ → ℤ
pos a -ℤ pos b = sub_ℕ a b
pos a -ℤ negsuc b = pos (a + suc b)
negsuc a -ℤ pos b = negsuc (a + b)
negsuc a -ℤ negsuc b = sub_ℕ b a

abbrev negated : ℕ → ℤ
negated zero = pos 0
negated (suc n) = negsuc n

abbrev pub ◌*ℤ◌ : ℤ → ℤ → ℤ
pos a *ℤ pos b = pos (a * b)
pos a *ℤ negsuc b = negated (a * suc b)
negsuc a *ℤ pos b = negated (suc a * b)
negsuc a *ℤ negsuc b = pos (suc a * suc b)

-- Python's `//`, which rounds down; the quotient by zero, where Python raises, is 0 here.
abbrev pub ◌//ℤ◌ : ℤ → ℤ → ℤ
pos a //ℤ pos b = pos (a / b)
pos zero //ℤ negsuc b = pos 0
pos (suc a) //ℤ negsuc b = negsuc (a / suc b)
negsuc a //ℤ pos zero = pos 0
negsuc a //ℤ pos (suc b) = negsuc (a / suc b)
negsuc a //ℤ negsuc b = pos (suc a / suc b)

abbrev pub leb_ℤ : ℤ → ℤ → Bool
leb_ℤ (pos a) (pos b) = leb a b
leb_ℤ (pos a) (negsuc b) = false
leb_ℤ (negsuc a) (pos b) = true
leb_ℤ (negsuc a) (negsuc b) = leb b a

abbrev pub ltb_ℤ : ℤ → ℤ → Bool
ltb_ℤ (pos a) (pos b) = ltb a b
ltb_ℤ (pos a) (negsuc b) = false
ltb_ℤ (negsuc a) (pos b) = true
ltb_ℤ (negsuc a) (negsuc b) = ltb b a

abbrev pub eqb_ℤ : ℤ → ℤ → Bool
eqb_ℤ (pos a) (pos b) = a == b
eqb_ℤ (pos a) (negsuc b) = false
eqb_ℤ (negsuc a) (pos b) = false
eqb_ℤ (negsuc a) (negsuc b) = a == b

abbrev pub max_ℤ : ℤ → ℤ → ℤ
max_ℤ (pos a) (pos b) = pos (max a b)
max_ℤ (pos a) (negsuc b) = pos a
max_ℤ (negsuc a) (pos b) = pos b
max_ℤ (negsuc a) (negsuc b) = negsuc (min a b)

abbrev pub min_ℤ : ℤ → ℤ → ℤ
min_ℤ (pos a) (pos b) = pos (min a b)
min_ℤ (pos a) (negsuc b) = negsuc b
min_ℤ (negsuc a) (pos b) = negsuc a
min_ℤ (negsuc a) (negsuc b) = negsuc (max a b)

-- `lo <= x <= hi`, for bounds that are not negative
abbrev pub between : ℕ → ℕ → ℤ → Bool
between lo hi x = leb_ℤ (pos lo) x && leb_ℤ x (pos hi)

-- An integer between two natural numbers is a natural number between them.
pub between-pos :
    (lo hi : ℕ) (x : ℤ) → between lo hi x ≡ true → (n : ℕ) × (x ≡ pos n) × (lo ≤ n) × (n ≤ hi)
between-pos lo hi (pos n) h = (n, refl, ground arith, ground arith)
between-pos lo hi (negsuc n) h = absurd (ground arith)

-- Rounding down on both sides of zero.
floor_tests :
    (pos 7 //ℤ pos 2 ≡ pos 3) × (negsuc 6 //ℤ pos 2 ≡ negsuc 3) × (pos 7 //ℤ negsuc 1 ≡ negsuc 3)
floor_tests = (refl, refl, refl)

pub eqb_ℤ_iff : (a b : ℤ) → (eqb_ℤ a b ≡ true) ↔ (a ≡ b)
eqb_ℤ_iff a b = ground arith
