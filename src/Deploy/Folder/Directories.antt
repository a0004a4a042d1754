-- ===== src/Deploy/Folder/Directories.antt =====
-- The loop that makes the subdirectories of a bundle.
use text.Mathlib.Text.{◌==◌}
use text.Mathlib.TextEquality.{eq_iff}
use zhtps.Common.{
  String, Bool, List, [], ◌∷◌, none, some, ok, ◌≡◌, ◌⊎◌, inl, inr, refl, ◌∙◌, arith, any,
  if◌then◌else◌,
}
use zhtps.Deploy.Folder.{
  Entry, directory, Folder, lookup, make_directory, make_directories, Keeps, after-inv, after-ok,
}
use zhtps.Deploy.Folder.Laws.{Holds}

make_directory-Keeps : (n name : String) (e : Entry) → Keeps (Holds name e) (make_directory n)
unfolding make_directory
make_directory-Keeps n name e f h = ground (arith, eq_iff n name)

-- Making subdirectories changes no entry that is there.
pub make_directories-Keeps :
    (names : List String) (name : String) (e : Entry)
    → Keeps (Holds name e) (make_directories names)
unfolding make_directories
make_directories-Keeps [] name e f h = h
make_directories-Keeps (n ∷ names) name e f h =
    after-inv (Holds name e) (make_directory n f) _ (make_directory-Keeps n name e f h)
      (λ _. make_directories-Keeps names name e)

-- A name that is free, or a directory already.
abbrev pub CanMake : List String → Folder → Type 0
CanMake [] f = Unit
CanMake (n ∷ names) f =
    ((lookup n f.entries ≡ none) ⊎ (lookup n f.entries ≡ some directory)) × CanMake names f

abbrev pub listed : String → List String → Bool
listed name names = any (λ n. n == name) names

make_directory_made :
    (n : String) (f : Folder)
    → (lookup n f.entries ≡ none) ⊎ (lookup n f.entries ≡ some directory)
    → ((make_directory n f).0 ≡ ok tt)
      × ((name : String)
          → lookup name (make_directory n f).1.entries
            ≡ (if n == name then some directory else lookup name f.entries))
      × ((make_directory n f).1.is_dir ≡ f.is_dir)
unfolding make_directory
make_directory_made n f (inl free) = rw free (refl, λ name. refl, refl)
make_directory_made n f (inr there) = rw there (refl, λ name. ground (arith, eq_iff n name), refl)

CanMake-step :
    (names : List String) (n : String) (f g : Folder)
    → ((name : String)
        → lookup name g.entries ≡ (if n == name then some directory else lookup name f.entries))
    → CanMake names f
    → CanMake names g
CanMake-step [] n f g same _ = tt
CanMake-step (m ∷ names) n f g same (can, rest) =
    (ground (arith, same m), CanMake-step names n f g same rest)

-- Where each name is free or a directory, the loop succeeds, each name is a directory afterwards, and
-- every other entry is as it was.
pub make_directories_made :
    (names : List String) (f : Folder)
    → CanMake names f
    → ((make_directories names f).0 ≡ ok tt)
      × ((name : String)
          → lookup name (make_directories names f).1.entries
            ≡ (if listed name names then some directory else lookup name f.entries))
      × ((make_directories names f).1.is_dir ≡ f.is_dir)
unfolding make_directories
make_directories_made [] f _ = (refl, λ _. refl, refl)
make_directories_made (n ∷ names) f (can, rest) =
    let (done, made, dir) = make_directory_made n f can in
    let g = (make_directory n f).1 in
    let (done', made', dir') = make_directories_made names g (CanMake-step names n f g made rest) in
    rw (after-ok (make_directory n f) (λ _. make_directories names) done)
      (done', λ name. made' name ∙ ground (arith, made name), dir' ∙ dir)
