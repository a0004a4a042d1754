-- ===== src/Bench/Overload/ProcFields.antt =====
-- What bench/overload.py finds in a process's file `stat`, whatever the process is called: Linux puts the
-- name between parentheses, and it may hold spaces and parentheses itself.
use zhtps.Common.{
  ℕ, ◌≡◌, refl, ap, ◌∙◌, true, false, List, [], ◌∷◌, ◌++◌, Option, none, some, ◌==◌, if◌then◌else◌,
  All, All-append, arith, Bool, all, not, ◌&&◌, and-eq-true,
}
use zhtps.Deploy.WorkerCpus.CpuList.{split, is_space}
use zhtps.Bench.Overload.ProcText.{Text, words, to_spaces, drop_empty, after_last}
use zhtps.Bench.Overload.Proc.{proc_sample, sample_of_fields}

-- No space and no closing parenthesis.
abbrev pub IsFieldChar : ℕ → Type 0
IsFieldChar c = (is_space c ≡ false) × ((c == b')') ≡ false)

-- A field is not empty.
abbrev pub IsField : Text → Type 0
IsField [] = ⊥
IsField (c ∷ w) = All IsFieldChar (c ∷ w)

abbrev is_field_char : ℕ → Bool
is_field_char d = not (is_space d) && not (d == b')')

-- The test of these fields.
abbrev pub is_field : Text → Bool
is_field [] = false
is_field (c ∷ w) = all is_field_char (c ∷ w)

both_not : (a b : Bool) → (not a && not b) ≡ true → (a ≡ false) × (b ≡ false)
both_not false false h = (refl, refl)
both_not false true h = cc
both_not true b h = cc

is_field-chars : (w : Text) → all is_field_char w ≡ true → All IsFieldChar w
is_field-chars [] h = tt
is_field-chars (c ∷ w) h =
    let (first, rest) = and-eq-true (is_field_char c) (all is_field_char w) h in
    (both_not (is_space c) (c == b')') first, is_field-chars w rest)

pub is_field-IsField : (ws : List Text) → all is_field ws ≡ true → All IsField ws
is_field-IsField [] h = tt
is_field-IsField ([] ∷ ws) h = cc
is_field-IsField ((c ∷ w) ∷ ws) h =
    let (first, rest) = and-eq-true (is_field (c ∷ w)) (all is_field ws) h in
    (is_field-chars (c ∷ w) first, is_field-IsField ws rest)

-- A field ends in a space, and the last one in a line feed.
abbrev end_of : List Text → ℕ
end_of [] = 10
end_of (w ∷ ws) = 32

abbrev pub text_of : List Text → Text
text_of [] = []
text_of (w ∷ ws) = w ++ end_of ws ∷ text_of ws

-- The line of a process: what comes before the end of the name, and the fields behind it.
unfoldable pub stat_of : Text → List Text → Text
stat_of before fields = before ++ b')' ∷ 32 ∷ text_of fields

end_of-space : (ws : List Text) → (is_space (end_of ws) ≡ true) × ((end_of ws == b')') ≡ false)
end_of-space [] = (refl, refl)
end_of-space (w ∷ ws) = (refl, refl)

not_blank : (d : ℕ) → is_space d ≡ false → (d == 32) ≡ false
not_blank d plain = ground arith

word-split :
    (w : Text) (c : ℕ) (s : Text)
    → All IsFieldChar w
    → is_space c ≡ true
    → split 32 (to_spaces (w ++ c ∷ s)) ≡ w ∷ split 32 (to_spaces s)
unfolding split
word-split [] c s chars space = rw space refl
word-split (d ∷ w) c s ((plain, other), chars) space =
    rw plain (rw (word-split w c s chars space) (rw (not_blank d plain) refl))

words_word :
    (w : Text) (c : ℕ) (s : Text) → IsField w → is_space c ≡ true → words (w ++ c ∷ s) ≡ w ∷ words s
unfolding words
words_word [] c s field space = absurd field
words_word (d ∷ w) c s field space = ap drop_empty (word-split (d ∷ w) c s field space)

words_blank : (s : Text) → words (32 ∷ s) ≡ words s
unfolding words split
words_blank s = refl

words-text_of : (ws : List Text) → All IsField ws → words (text_of ws) ≡ ws
unfolding words split
words-text_of [] fields = refl
words-text_of (w ∷ ws) (field, fields) =
    words_word w (end_of ws) (text_of ws) field (end_of-space ws).0
    ∙ ap (λ vs. w ∷ vs) (words-text_of ws fields)

abbrev IsNoEnd : ℕ → Type 0
IsNoEnd c = (c == b')') ≡ false

-- A character that closes no parenthesis.
chars-IsNoEnd : (w : Text) → All IsFieldChar w → All IsNoEnd w
chars-IsNoEnd [] chars = tt
chars-IsNoEnd (c ∷ w) ((plain, other), chars) = (other, chars-IsNoEnd w chars)

field-IsNoEnd : (w : Text) → IsField w → All IsNoEnd w
field-IsNoEnd [] field = absurd field
field-IsNoEnd (c ∷ w) field = chars-IsNoEnd (c ∷ w) field

text_of-IsNoEnd : (ws : List Text) → All IsField ws → All IsNoEnd (text_of ws)
text_of-IsNoEnd [] fields = tt
text_of-IsNoEnd (w ∷ ws) (field, fields) =
    All-append IsNoEnd w (end_of ws ∷ text_of ws) (field-IsNoEnd w field)
      ((end_of-space ws).1, text_of-IsNoEnd ws fields)

after_last-none : (found : Option Text) (s : Text) → All IsNoEnd s → after_last found s ≡ found
after_last-none found [] h = refl
after_last-none found (c ∷ s) (other, h) = rw other (after_last-none found s h)

after_last-append :
    (before : Text) (found : Option Text) (s : Text)
    → All IsNoEnd s
    → after_last found (before ++ b')' ∷ s) ≡ some s
after_last-append [] found s h = after_last-none (some s) s h
after_last-append (c ∷ before) found s h =
    after_last-append before (if c == b')' then some (before ++ b')' ∷ s) else found) s h

-- Whatever the line of a process holds before the last closing parenthesis, its other parentheses and spaces
-- included, `proc_sample` takes its numbers from the fields behind it as they were written: each is a text without a
-- space or a closing parenthesis that is not empty, a space ends it, and a line feed ends the last one.
pub proc_sample-stat_of :
    (before : Text) (fields : List Text) (status : Text) (fds : ℕ)
    → All IsField fields
    → proc_sample (stat_of before fields) status fds ≡ sample_of_fields fields status fds
unfolding proc_sample stat_of
proc_sample-stat_of before fields status fds given =
    rw (after_last-append before none (32 ∷ text_of fields) (refl, text_of-IsNoEnd fields given))
      (rw (words_blank (text_of fields)) (rw (words-text_of fields given) refl))
