-- ===== src/Deploy/WorkerCpus/CpuList.antt =====
-- `cpu_list` of deploy/worker_cpus.py: a kernel CPU list such as "0-3,8" as a set. Texts are ASCII.
use zhtps.Common.{
  ℕ, ◌+◌, ◌-◌, ◌*◌, ◌≡◌, refl, Bool, true, false, ◌&&◌, ◌||◌, List, [], ◌∷◌, Option, none, some,
  codes, is_digit, leb, ◌==◌, if◌then◌else◌, Result, ok, err, value_error, ◌>>=◌, ◌>>◌, require,
}
use zhtps.Deploy.WorkerCpus.CpuSet.{insert, add_range}

-- The characters that `str.strip` takes off.
abbrev pub is_space : ℕ → Bool
is_space c = c == 32 || (leb 9 c && leb c 13) || (leb 28 c && leb c 31)

strip_left : List ℕ → List ℕ
strip_left [] = []
strip_left (c ∷ s) = if is_space c then strip_left s else c ∷ s

abbrev unless_space : ℕ → List ℕ → List ℕ
unless_space c [] = if is_space c then [] else c ∷ []
unless_space c (d ∷ s) = c ∷ d ∷ s

strip_right : List ℕ → List ℕ
strip_right [] = []
strip_right (c ∷ s) = unless_space c (strip_right s)

unfoldable pub strip : List ℕ → List ℕ
unfolding strip_left strip_right
strip s = strip_right (strip_left s)

abbrev pub push : ℕ → List (List ℕ) → List (List ℕ)
push c [] = (c ∷ []) ∷ []
push c (w ∷ ws) = (c ∷ w) ∷ ws

-- `s.split(sep)` for a separator of one character
unfoldable pub split : ℕ → List ℕ → List (List ℕ)
split sep [] = [] ∷ []
split sep (c ∷ s) = let rest = split sep s in if c == sep then [] ∷ rest else push c rest

-- The digits of an integer, of which an underscore may separate two; the flag says that the last
-- character was a digit.
unfoldable pub number_from : Bool → ℕ → List ℕ → Option ℕ
number_from prev n [] = if prev then some n else none
number_from prev n (c ∷ s) =
    let digit = number_from true (n * 10 + (c - b'0')) s in
    let underscore = number_from false n s in
    if is_digit c then digit else if c == b'_' && prev then underscore else none

abbrev after_plus : List ℕ → List ℕ
after_plus [] = []
after_plus (c ∷ s) = if c == b'+' then s else c ∷ s

abbrev or_invalid : Option ℕ → Result ℕ
or_invalid none = err (value_error "invalid literal for int() with base 10")
or_invalid (some n) = ok n

-- `int(text)` of a text that holds no minus sign: a part between two dashes.
unfoldable pub to_int : List ℕ → Result ℕ
unfolding number_from strip
to_int text = or_invalid (number_from false 0 (after_plus (strip text)))

-- The ends of a part: one CPU, or a first and a last one.
abbrev add_ends : List (List ℕ) → List ℕ → Result (List ℕ)
add_ends (a ∷ []) cpus = do n ← to_int a; ok (insert n cpus)
add_ends (a ∷ b ∷ []) cpus = do
  lo ← to_int a
  hi ← to_int b
  require (leb lo hi) (value_error "invalid CPU list")
  ok (add_range lo (hi + 1 - lo) cpus)
add_ends _ cpus = err (value_error "invalid CPU list")

-- An empty part is skipped.
abbrev pub add_part : List ℕ → List ℕ → Result (List ℕ)
add_part [] cpus = ok cpus
add_part (c ∷ part) cpus = add_ends (split b'-' (c ∷ part)) cpus

unfoldable pub add_parts : List (List ℕ) → List ℕ → Result (List ℕ)
add_parts [] cpus = ok cpus
add_parts (part ∷ parts) cpus = do cpus' ← add_part part cpus; add_parts parts cpus'

unfoldable pub cpu_list : List ℕ → Result (List ℕ)
unfolding split strip add_parts to_int add_range
cpu_list text = add_parts (split b',' (strip text)) []

cpu_list_tests :
    (cpu_list (codes " 0-2,8,\n") ≡ ok (0 ∷ 1 ∷ 2 ∷ 8 ∷ []))
    × (cpu_list (codes "") ≡ ok [])
    × (cpu_list (codes "5,1,5") ≡ ok (1 ∷ 5 ∷ []))
    × (cpu_list (codes "3-2") ≡ err (value_error "invalid CPU list"))
    × (cpu_list (codes "1-2-3") ≡ err (value_error "invalid CPU list"))
    × (cpu_list (codes "4-") ≡ err (value_error "invalid literal for int() with base 10"))
unfolding cpu_list
cpu_list_tests = (refl, refl, refl, refl, refl, refl)
