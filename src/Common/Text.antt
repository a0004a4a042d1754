-- ===== src/Common/Text.antt =====
-- Texts: their code points, and the decimal form of an integer.
use Prim.Native.Nat.{ℕ, zero, suc, ◌/◌, ◌%◌}
use Prim.Native.Char.{code}
use Prim.Native.String.{String, ◌++◌ as ◌<>◌}
use mathlib.Core.Path.{◌≡◌, refl}
use mathlib.Core.Bool.{Bool, ◌||◌, ◌&&◌}
use mathlib.Core.List.{List, [], ◌∷◌}
use zhtps.Common.Tests.{leb, ltb, if◌then◌else◌}
use zhtps.Common.Int.{ℤ, pos, negsuc}

-- The code points of a text. `String` has its own `[]` and `∷`.
abbrev pub codes : String → List ℕ
codes String.[] = []
codes (String.◌∷◌ c s) = code c ∷ codes s

abbrev pub is_lower : ℕ → Bool
is_lower c = leb b'a' c && leb c b'z'

abbrev pub is_upper : ℕ → Bool
is_upper c = leb b'A' c && leb c b'Z'

abbrev pub is_digit : ℕ → Bool
is_digit c = leb b'0' c && leb c b'9'

abbrev pub is_alnum : ℕ → Bool
is_alnum c = is_lower c || is_upper c || is_digit c

unfoldable pub digit_text : ℕ → String
digit_text zero = "0"
digit_text (suc zero) = "1"
digit_text (suc (suc zero)) = "2"
digit_text (suc (suc (suc zero))) = "3"
digit_text (suc (suc (suc (suc zero)))) = "4"
digit_text (suc (suc (suc (suc (suc zero))))) = "5"
digit_text (suc (suc (suc (suc (suc (suc zero)))))) = "6"
digit_text (suc (suc (suc (suc (suc (suc (suc zero))))))) = "7"
digit_text (suc (suc (suc (suc (suc (suc (suc (suc zero)))))))) = "8"
digit_text (suc (suc (suc (suc (suc (suc (suc (suc (suc n))))))))) = "9"

-- The fuel bounds the number of digits.
unfoldable pub decimal : ℕ → ℕ → String
unfolding digit_text
decimal zero n = ""
decimal (suc f) n =
    let rest = decimal f (n / 10) <> digit_text (n % 10) in if ltb n 10 then digit_text n else rest

-- `str(n)`, on as much fuel as the number: one digit is taken in each round.
unfoldable pub str_ℕ : ℕ → String
unfolding decimal
str_ℕ n = decimal (suc n) n

-- `str(x)` of an integer
unfoldable pub str : ℤ → String
unfolding str_ℕ
str (pos n) = str_ℕ n
str (negsuc n) = "-" <> str_ℕ (suc n)

str_tests : (str (pos 65535) ≡ "65535") × (str (negsuc 9) ≡ "-10") × (str (pos 0) ≡ "0")
unfolding str
str_tests = (refl, refl, refl)
