-- ===== src/Bench/Overload/ProcText.antt =====
-- The texts in files of /proc, for bench/overload.py: their words and lines. Texts are lists of code
-- points, in ASCII.
use zhtps.Common.{
  ℕ, zero, suc, Bool, true, false, ◌&&◌, List, [], ◌∷◌, Option, some, ◌==◌, if◌then◌else◌, Result,
  ok, err, index_error,
}
use zhtps.Deploy.WorkerCpus.CpuList.{split, is_space}

abbrev pub Text : Type 0
Text = List ℕ

-- Empty pieces left out.
abbrev pub drop_empty : List Text → List Text
drop_empty [] = []
drop_empty ([] ∷ ws) = drop_empty ws
drop_empty ((c ∷ w) ∷ ws) = (c ∷ w) ∷ drop_empty ws

abbrev pub to_spaces : Text → Text
to_spaces [] = []
to_spaces (c ∷ s) = (if is_space c then 32 else c) ∷ to_spaces s

-- `text.split()`
unfoldable pub words : Text → List Text
unfolding split
words s = drop_empty (split 32 (to_spaces s))

abbrev pub without_last_empty : List Text → List Text
without_last_empty [] = []
without_last_empty ([] ∷ []) = []
without_last_empty ((c ∷ l) ∷ []) = (c ∷ l) ∷ []
without_last_empty (l ∷ m ∷ ls) = l ∷ without_last_empty (m ∷ ls)

-- `text.splitlines()` of lines that end in a line feed.
unfoldable pub lines : Text → List Text
unfolding split
lines s = without_last_empty (split 10 s)

abbrev pub starts : Text → Text → Bool
starts [] s = true
starts (p ∷ ps) [] = false
starts (p ∷ ps) (c ∷ s) = p == c && starts ps s

abbrev pub same : Text → Text → Bool
same [] [] = true
same [] (c ∷ s) = false
same (p ∷ ps) [] = false
same (p ∷ ps) (c ∷ s) = p == c && same ps s

abbrev pub nth {ℓ} : {A : Type ℓ} → ℕ → List A → Result A
nth n [] = err (index_error "list index out of range")
nth zero (x ∷ xs) = ok x
nth (suc n) (x ∷ xs) = nth n xs

-- A word without its last character, the colon.
abbrev pub without_colon : Text → Text
without_colon [] = []
without_colon (c ∷ []) = []
without_colon (c ∷ d ∷ s) = c ∷ without_colon (d ∷ s)

-- The text after the last closing parenthesis, which ends the command's name.
abbrev pub after_last : Option Text → Text → Option Text
after_last found [] = found
after_last found (c ∷ s) = after_last (if c == b')' then some s else found) s
