-- ===== src/Deploy/Names.antt =====
-- The tests that deploy/connections.py and deploy/ingress.py share: names that the generated files
-- hold, and ranges of integers. Each test has an independent description beside it.
use mathlib.Core.Bool.{◌||◌}
use zhtps.Common.{
  ℕ, ◌≤◌, ◌≡◌, ◌↔◌, Bool, true, false, not, ◌&&◌, List, [], ◌∷◌, String, codes, is_alnum, is_lower,
  is_upper, leb, ◌==◌, length, all, any, All, ℤ, pos, between, between-pos, Result, ok, Error,
  require, ◌>>◌, arith, newlines, count_newlines-all, count_newlines,
}

abbrev is_interface_char : ℕ → Bool
is_interface_char c = is_alnum c || c == b'_' || c == b'.' || c == b':' || c == b'-'

-- `re.fullmatch(r"[A-Za-z0-9_.:-]{1,15}", name)`
unfoldable pub is_interface_name : String → Bool
is_interface_name name =
    leb 1 (length (codes name))
    && leb (length (codes name)) 15
    && all is_interface_char (codes name)

abbrev is_table_char : ℕ → Bool
is_table_char c = is_alnum c || c == b'_'

is_table_text : List ℕ → Bool
is_table_text [] = false
is_table_text (c ∷ cs) = (is_lower c || is_upper c) && leb (length cs) 47 && all is_table_char cs

-- `re.fullmatch(r"[A-Za-z][A-Za-z0-9_]{0,47}", name)`
unfoldable pub is_table_name : String → Bool
unfolding is_table_text
is_table_name name = is_table_text (codes name)

-- `"%" in address`
unfoldable pub has_zone : String → Bool
has_zone address = any (λ c. c == b'%') (codes address)

-- Every integer lies in a range, or the first that does not raises.
unfoldable pub require_each : ℕ → ℕ → Error → List ℤ → Result (Unit {0})
require_each lo hi e [] = ok tt
require_each lo hi e (x ∷ xs) = require (between lo hi x) e >> require_each lo hi e xs

-- The integer is a natural number in the range.
abbrev pub InRange : ℕ → ℕ → ℤ → Type 0
InRange lo hi x = (n : ℕ) × (x ≡ pos n) × (lo ≤ n) × (n ≤ hi)

pub between_iff : (lo hi : ℕ) (x : ℤ) → (between lo hi x ≡ true) ↔ InRange lo hi x
between_iff lo hi x = (between-pos lo hi x, λ (n, e, a, b). ground arith)

pub require_each_iff :
    (lo hi : ℕ) (e : Error) (xs : List ℤ)
    → (require_each lo hi e xs ≡ ok tt) ↔ All (InRange lo hi) xs
unfolding require_each
require_each_iff lo hi e [] = ground arith
require_each_iff lo hi e (x ∷ xs) = ground (arith, between_iff lo hi x, require_each_iff lo hi e xs)

-- A negated disjunction of three tests that passes.
pub not-or_or : (a b c : Bool) → not (a || b || c) ≡ true → (a ≡ false) × (b ≡ false) × (c ≡ false)
not-or_or a b c h = ground arith

-- Neither kind of name holds a line end.
pub newlines-interface_name : (name : String) → is_interface_name name ≡ true → newlines name ≡ 0
unfolding is_interface_name
newlines-interface_name name h =
    count_newlines-all is_interface_char (codes name) (λ c k. ground arith) (ground arith)

pub newlines-table_name : (name : String) → is_table_name name ≡ true → newlines name ≡ 0
unfolding is_table_name
newlines-table_name name h = go (codes name) h
  where
    go : (cs : List ℕ) → is_table_text cs ≡ true → count_newlines cs ≡ 0
    go [] h = cc
    go (c ∷ cs) h =
        ground (arith, count_newlines-all is_table_char cs (λ c k. ground arith) (ground arith))
