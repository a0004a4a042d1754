-- ===== src/Deploy/Folder/Laws.antt =====
-- What the loop that creates the files of a bundle does to the folder.
use text.Mathlib.Text.{◌==◌}
use text.Mathlib.TextEquality.{eq_iff}
use zhtps.Common.{
  Error, String, List, [], ◌∷◌, Option, none, some, ok, ◌≡◌, refl, ◌∙◌, arith, if◌then◌else◌, false,
  map, true,
}
use zhtps.Deploy.Folder.{
  make_folder, unless_refused, any_exists, after-inv, Keeps, refuse_existing, after-eq-ok, Entry,
  file, Folder, lookup, create, write_files,
}

-- Nobody else touches the folder.
abbrev pub quiet : String → Folder → Folder
quiet _ f = f

-- Whatever the others do, they leave this name alone.
abbrev pub Spares : (String → Folder → Folder) → String → Type 0
Spares others name =
    (step : String) (f : Folder) → lookup name (others step f).entries ≡ lookup name f.entries

-- The folder has this entry under this name.
abbrev pub Holds : String → Entry → Folder → Type 0
Holds name e f = lookup name f.entries ≡ some e

create_keeps :
    (n content : String) (f : Folder) (name : String) {e : Entry}
    → lookup name f.entries ≡ some e
    → lookup name (create n content f).1.entries ≡ some e
unfolding create
create_keeps n content f name h = ground (arith, eq_iff n name)

-- An entry that is there, and that no other process changes, is the same after the loop, also when
-- the loop fails.
pub write_files-Keeps :
    (others : String → Folder → Folder) (files : List (String × String)) (name : String) (e : Entry)
    → Spares others name
    → Keeps (Holds name e) (write_files others files)
unfolding write_files
write_files-Keeps others [] name e spared f h = h
write_files-Keeps others ((n, content) ∷ files) name e spared f h =
    after-inv (Holds name e) (create n content (others n f)) _
      (create_keeps n content (others n f) name (spared n f ∙ h))
      (λ _. write_files-Keeps others files name e spared)

-- Making the folder changes no entry, also when it is refused.
pub make_folder-Keeps : (name : String) (e : Entry) → Keeps (Holds name e) make_folder
make_folder-Keeps name e f h = go f.refusal
  where
    go : (o : Option Error) → Holds name e (unless_refused o f).1
    go none = h
    go (some error) = h

pub make_folder_made :
    (f : Folder) → f.refusal ≡ none → make_folder f ≡ (ok tt, record f { is_dir = true })
make_folder_made f makes = go f.refusal makes
  where
    go : (o : Option Error) → o ≡ none → unless_refused o f ≡ (ok tt, record f { is_dir = true })
    go none h = refl
    go (some e) h = cc

pub unless_refused-eq-ok :
    (o : Option Error) (f : Folder) → (unless_refused o f).0 ≡ ok tt → o ≡ none
unless_refused-eq-ok none f h = refl
unless_refused-eq-ok (some e) f h = cc

pub refuse_existing-Keeps :
    (P : Folder → Type 0) (files : List (String × String)) → Keeps P (refuse_existing files)
unfolding refuse_existing
refuse_existing-Keeps P files f h = h

-- The entry that the files ask for under a name.
abbrev pub wanted : String → List (String × String) → Option Entry
wanted k [] = none
wanted k ((j, content) ∷ files) = if j == k then some (file content) else wanted k files

abbrev pub Distinct : List (String × String) → Type 0
Distinct [] = Unit
Distinct ((n, _) ∷ files) = (wanted n files ≡ none) × Distinct files

-- No file of the list is there, not even as a dangling link.
abbrev pub IsFree : List (String × String) → Folder → Type 0
IsFree [] f = Unit
IsFree ((n, _) ∷ files) f = (lookup n f.entries ≡ none) × IsFree files f

-- No file of the list has the name.
abbrev pub IsOther : String → List String → Type 0
IsOther name [] = Unit
IsOther name (n ∷ names) = ((n == name) ≡ false) × IsOther name names

pub wanted_other :
    (name : String) (files : List (String × String))
    → IsOther name (map (λ (f : String × String). f.0) files)
    → wanted name files ≡ none
wanted_other name [] other = refl
wanted_other name ((n, content) ∷ files) (new, other) = rw new (wanted_other name files other)

abbrev pub or_old : Option Entry → Option Entry → Option Entry
or_old none old = old
or_old (some e) old = some e

create_free :
    (n content : String) (f : Folder)
    → lookup n f.entries ≡ none
    → create n content f ≡ (ok tt, record f { entries = (n, file content) ∷ f.entries })
unfolding create
create_free n content f free = rw free

create-eq-ok :
    (n content : String) (f : Folder) → (create n content f).0 ≡ ok tt → lookup n f.entries ≡ none
unfolding create
create-eq-ok n content f h = ground arith

IsFree-cons :
    (files : List (String × String)) (f : Folder) (n content : String)
    → wanted n files ≡ none
    → IsFree files f
    → IsFree files (record f { entries = (n, file content) ∷ f.entries })
IsFree-cons [] f n content _ _ = tt
IsFree-cons ((m, c) ∷ files) f n content new free =
    ground (arith, eq_iff n m, eq_iff m n, IsFree-cons files f n content)

IsFree-uncons :
    (files : List (String × String)) (f : Folder) (n content : String)
    → IsFree files (record f { entries = (n, file content) ∷ f.entries })
    → IsFree files f
IsFree-uncons [] f n content _ = tt
IsFree-uncons ((m, c) ∷ files) f n content free = ground (arith, IsFree-uncons files f n content)

-- On free and distinct names the loop succeeds. Each name then holds its content, and every other
-- entry is as it was.
pub write_files_free :
    (files : List (String × String)) (f : Folder)
    → Distinct files
    → IsFree files f
    → ((write_files quiet files f).0 ≡ ok tt)
      × ((name : String)
          → lookup name (write_files quiet files f).1.entries
            ≡ or_old (wanted name files) (lookup name f.entries))
      × ((write_files quiet files f).1.is_dir ≡ f.is_dir)
unfolding write_files
write_files_free [] f _ _ = (refl, λ _. refl, refl)
write_files_free ((n, content) ∷ files) f (new, distinct) (free, rest) =
    let (done, result, dir) =
      write_files_free files (record f { entries = (n, file content) ∷ f.entries }) distinct
        (IsFree-cons files f n content new rest) in
    rw (create_free n content f free)
      (done, λ name. result name ∙ ground (arith, eq_iff n name), dir)

-- A loop that succeeds undisturbed found none of its names.
pub write_files-eq-ok :
    (files : List (String × String)) (f : Folder)
    → (write_files quiet files f).0 ≡ ok tt
    → IsFree files f
unfolding write_files
write_files-eq-ok [] f h = tt
write_files-eq-ok ((n, content) ∷ files) f h =
    let (_, created, rest) = after-eq-ok (create n content f) _ h in
    let free = create-eq-ok n content f created in
    (
      free,
      IsFree-uncons files f n content
          (write_files-eq-ok files _ (rw (create_free n content f free) at rest)),
    )

-- Free names pass the test for old files.
pub refuse_existing_free :
    (files : List (String × String)) (f : Folder)
    → IsFree files f
    → refuse_existing files f ≡ (ok tt, f)
unfolding refuse_existing
refuse_existing_free files f free = rw (any_exists_free files f free)
  where
    any_exists_free :
        (files : List (String × String)) (f : Folder) → IsFree files f → any_exists files f ≡ false
    any_exists_free [] f _ = refl
    any_exists_free ((n, _) ∷ files) f (free, rest) = rw free (any_exists_free files f rest)
