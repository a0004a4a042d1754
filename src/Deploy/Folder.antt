-- ===== src/Deploy/Folder.antt =====
-- The output folder that deploy/ writes: `Path.exists`, `Path.mkdir` and opening a file with mode
-- "x". Between two steps other processes may change the folder: that is `others`, a parameter.
pub mod Laws
pub mod Directories
use text.Mathlib.Text.{◌==◌}
use zhtps.Common.{
  Error, String, ◌<>◌, Bool, true, false, List, [], ◌∷◌, Option, none, some, Result, ok, err,
  os_error, value_error, require, not, if◌then◌else◌, any, ◌≡◌, refl,
}

-- A link whose target is missing is there for `open`, and is not for `exists`.
pub data Entry : Type 0 where
  file : String → Entry
  directory : Entry
  dangling_link : Entry

-- `refusal` is the OSError that making the folder raises: its path is a file, say, or cannot be written.
pub record Folder : Type 0 where
  pub is_dir : Bool
  pub refusal : Option Error
  pub entries : List (String × Entry)

abbrev pub lookup : String → List (String × Entry) → Option Entry
lookup k [] = none
lookup k ((j, e) ∷ es) = if j == k then some e else lookup k es

abbrev follows : Option Entry → Bool
follows none = false
follows (some (file _)) = true
follows (some directory) = true
follows (some dangling_link) = false

-- `(output / name).exists()`
abbrev pub exists : Folder → String → Bool
exists f name = follows (lookup name f.entries)

-- A computation on the folder. What it changed before it raised stays changed.
abbrev pub Action : Type 0 → Type 0
Action A = Folder → Result A × Folder

abbrev pub after : {A B : Type 0} → Result A × Folder → (A → Action B) → Result B × Folder
after (ok a, f) k = k a f
after (err e, f) k = (err e, f)

infixl 5 ◌>>=◌ ◌>>◌
abbrev pub ◌>>=◌ : {A B : Type 0} → Action A → (A → Action B) → Action B
◌>>=◌ m k f = after (m f) k

abbrev pub ◌>>◌ : {B : Type 0} → Action (Unit {0}) → Action B → Action B
m >> k = m >>= λ _. k

abbrev pub lift : {A : Type 0} → Result A → Action A
lift r f = (r, f)

abbrev pub unless_refused : Option Error → Action (Unit {0})
unless_refused none f = (ok tt, record f { is_dir = true })
unless_refused (some e) f = (err e, f)

-- `output.mkdir(parents=True, exist_ok=True)`
abbrev pub make_folder : Action (Unit {0})
make_folder f = unless_refused f.refusal f

abbrev exclusive : String → Entry → Option Entry → Action (Unit {0})
exclusive name e none f = (ok tt, record f { entries = (name, e) ∷ f.entries })
exclusive name e (some _) f = (err (os_error ("File exists: " <> name)), f)

abbrev or_directory : String → Option Entry → Action (Unit {0})
or_directory name none f = (ok tt, record f { entries = (name, directory) ∷ f.entries })
or_directory name (some directory) f = (ok tt, f)
or_directory name (some _) f = (err (os_error ("File exists: " <> name)), f)

-- `(output / name).open("x")` and the write of its content
unfoldable pub create : String → String → Action (Unit {0})
create name content f = exclusive name (file content) (lookup name f.entries) f

-- `(output / name).mkdir(exist_ok=True)`
unfoldable pub make_directory : String → Action (Unit {0})
make_directory name f = or_directory name (lookup name f.entries) f

unfoldable pub make_directories : List String → Action (Unit {0})
make_directories [] = lift (ok tt)
make_directories (name ∷ names) = make_directory name >> make_directories names

-- `any((output / name).exists() for name in files)`
abbrev pub any_exists : List (String × String) → Folder → Bool
any_exists files f = any (λ (name, content). exists f name) files

unfoldable pub refuse_existing : List (String × String) → Action (Unit {0})
refuse_existing files f = (
  require (not (any_exists files f))
      (value_error "output already contains a configuration; choose a new directory"),
  f,
)

-- The loop that creates the files, in the order of the dict.
module _ (others : String → Folder → Folder) where
  unfoldable pub write_files : List (String × String) → Action (Unit {0})
  write_files [] = lift (ok tt)
  write_files ((name, content) ∷ files) =
      (λ f. create name content (others name f)) >> write_files files

-- An action that keeps a property of the folder, whatever it returns.
abbrev pub Keeps : {A : Type 0} → (Folder → Type 0) → Action A → Type 0
Keeps P m = (f : Folder) → P f → P (m f).1

pub after-inv :
    {A B : Type 0} (P : Folder → Type 0) (r : Result A × Folder) (k : A → Action B)
    → P r.1
    → ((a : A) → Keeps P (k a))
    → P (after r k).1
after-inv P (ok a, f) k h keep = keep a f h
after-inv P (err e, f) k h keep = h

pub >>=-Keeps :
    {A B : Type 0} (P : Folder → Type 0) (m : Action A) (k : A → Action B)
    → Keeps P m
    → ((a : A) → Keeps P (k a))
    → Keeps P (m >>= k)
>>=-Keeps P m k h keep f p = after-inv P (m f) k (h f p) keep

-- A block that succeeds did so at each step.
pub after-eq-ok :
    {A B : Type 0} (r : Result A × Folder) (k : A → Action B) {b : B}
    → (after r k).0 ≡ ok b
    → (a : A) × (r.0 ≡ ok a) × ((k a r.1).0 ≡ ok b)
after-eq-ok (ok a, f) k h = (a, refl, h)
after-eq-ok (err e, f) k h = cc

pub after-ok :
    {A B : Type 0} (r : Result A × Folder) (k : A → Action B) {a : A}
    → r.0 ≡ ok a
    → after r k ≡ k a r.1
after-ok (ok a, f) k h = cc
after-ok (err e, f) k h = cc
