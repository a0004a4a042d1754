-- ===== src/Common/Newlines.antt =====
-- The line ends of a text, which a generated configuration must not gain from its options.
use Prim.Native.Nat.{ℕ, zero, suc, ◌+◌, ◌/◌, ◌%◌}
use Prim.Native.String.{String, ◌++◌ as ◌<>◌}
use mathlib.Core.Path.{◌≡◌, refl}
use mathlib.Core.Bool.{Bool, true, false}
use mathlib.Core.List.{List, [], ◌∷◌}
use native.Mathlib.Omega.{arith}
use text.Mathlib.TextLemmas.{nil-append, cons-append}
use zhtps.Common.Tests.{◌==◌, if◌then◌else◌}
use zhtps.Common.Lists.{all}
use zhtps.Common.Int.{ℤ, pos, negsuc}
use zhtps.Common.Text.{codes, str_ℕ, str, decimal, digit_text}

abbrev pub count_newlines : List ℕ → ℕ
count_newlines [] = 0
count_newlines (c ∷ cs) = (if c == 10 then 1 else 0) + count_newlines cs

abbrev pub newlines : String → ℕ
newlines s = count_newlines (codes s)

pub newlines-append : (s t : String) → newlines (s <> t) ≡ newlines s + newlines t
newlines-append String.[] t = rw nil-append (omega arith)
newlines-append (String.◌∷◌ c s) t = rw cons-append (omega (arith, newlines-append s t))

newlines-digit_text : (n : ℕ) → newlines (digit_text n) ≡ 0
unfolding digit_text
newlines-digit_text zero = refl
newlines-digit_text (suc zero) = refl
newlines-digit_text (suc (suc zero)) = refl
newlines-digit_text (suc (suc (suc zero))) = refl
newlines-digit_text (suc (suc (suc (suc zero)))) = refl
newlines-digit_text (suc (suc (suc (suc (suc zero))))) = refl
newlines-digit_text (suc (suc (suc (suc (suc (suc zero)))))) = refl
newlines-digit_text (suc (suc (suc (suc (suc (suc (suc zero))))))) = refl
newlines-digit_text (suc (suc (suc (suc (suc (suc (suc (suc zero)))))))) = refl
newlines-digit_text (suc (suc (suc (suc (suc (suc (suc (suc (suc n))))))))) = refl

newlines-decimal : (f n : ℕ) → newlines (decimal f n) ≡ 0
unfolding decimal
newlines-decimal zero n = refl
newlines-decimal (suc f) n = ground (
  arith,
  newlines-append (decimal f (n / 10)) (digit_text (n % 10)),
  newlines-decimal f (n / 10),
  newlines-digit_text n,
  newlines-digit_text (n % 10),
)

-- A printed number stays on its line.
pub newlines-str : (x : ℤ) → newlines (str x) ≡ 0
unfolding str str_ℕ
newlines-str (pos n) = newlines-decimal (suc n) n
newlines-str (negsuc n) =
    omega (arith, newlines-append "-" (str_ℕ (suc n)), newlines-decimal (suc (suc n)) (suc n))

-- So does a text of characters none of which is a line end.
pub count_newlines-all :
    (p : ℕ → Bool) (cs : List ℕ)
    → ((c : ℕ) → p c ≡ true → (c == 10) ≡ false)
    → all p cs ≡ true
    → count_newlines cs ≡ 0
count_newlines-all p [] safe h = refl
count_newlines-all p (c ∷ cs) safe h = ground (arith, safe c, count_newlines-all p cs safe)
