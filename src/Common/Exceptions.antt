-- ===== src/Common/Exceptions.antt =====
-- Python's exceptions as values.
use Prim.Native.String.{String, ◌++◌ as ◌<>◌}
use mathlib.Core.Path.{◌≡◌, refl}
use mathlib.Core.Logic.{◌↔◌}
use mathlib.Core.Bool.{Bool, true, false}
use mathlib.Core.List.{List, [], ◌∷◌}

-- The exception's class and its text; `usage_error` is the exit of `parser.error`. `out_of_fuel` is no
-- exception of the source: a loop of the model has used up its rounds.
pub data Error : Type 0 where
  value_error os_error timeout_error runtime_error key_error index_error : String → Error
  zero_division_error assertion_error http_exception usage_error : String → Error
  out_of_fuel : Error

-- `repr(error)`, for texts that hold no quote and no character to escape
abbrev pub repr : Error → String
repr (value_error text) = "ValueError('" <> text <> "')"
repr (os_error text) = "OSError('" <> text <> "')"
repr (timeout_error text) = "TimeoutError('" <> text <> "')"
repr (runtime_error text) = "RuntimeError('" <> text <> "')"
repr (key_error text) = "KeyError('" <> text <> "')"
repr (index_error text) = "IndexError('" <> text <> "')"
repr (zero_division_error text) = "ZeroDivisionError('" <> text <> "')"
repr (assertion_error String.[]) = "AssertionError()"
repr (assertion_error (String.◌∷◌ c text)) = "AssertionError('" <> String.◌∷◌ c text <> "')"
repr (http_exception text) = "HTTPException('" <> text <> "')"
repr (usage_error text) = "SystemExit('" <> text <> "')"
repr out_of_fuel = "OutOfFuel()"

-- What a call does: it raises, or it returns.
pub data Result {ℓ} (A : Type ℓ) : Type ℓ where
  err : Error → Result A
  ok : A → Result A

-- `if not test: raise error`
abbrev pub require : Bool → Error → Result (Unit {0})
require false error = err error
require true _ = ok tt

-- Statements in a row: the first exception ends them.
abbrev pub ◌>>=◌ {ℓ κ} : {A : Type ℓ} {B : Type κ} → Result A → (A → Result B) → Result B
err error >>= _ = err error
ok value >>= next = next value

infixl 5 ◌>>=◌
abbrev pub ◌>>◌ {κ} : {B : Type κ} → Result (Unit {0}) → Result B → Result B
first >> second = first >>= λ _. second

infixl 5 ◌>>◌
-- A list of fallible results in order, up to the first error.
module _ {ℓ κ} {A : Type ℓ} {B : Type κ} where
  abbrev pub map_result : (A → Result B) → List A → Result (List B)
  map_result f [] = ok []
  map_result f (x ∷ xs) = do y ← f x; ys ← map_result f xs; ok (y ∷ ys)

  -- Inversion of a successful bind.
  pub >>=-eq-ok :
      (first : Result A) (next : A → Result B) {result : B}
      → (first >>= next) ≡ ok result
      → (value : A) × (first ≡ ok value) × (next value ≡ ok result)
  >>=-eq-ok (err error) next h = cc
  >>=-eq-ok (ok value) next h = (value, refl, h)

-- A guard that passes was true, and the rest of the block succeeded.
pub require-eq-ok {ℓ} :
    {B : Type ℓ} (test : Bool) (e : Error) (k : Result B) {b : B}
    → (require test e >> k) ≡ ok b
    → (test ≡ true) × (k ≡ ok b)
require-eq-ok true e k h = (refl, h)
require-eq-ok false e k h = cc

-- A row of `if not test: raise error`: the first test that fails raises its error.
unfoldable pub check_all : List (Bool × Error) → Result (Unit {0})
check_all [] = ok tt
check_all ((test, e) ∷ checks) = require test e >> check_all checks

-- The tests of a row, all of which pass.
abbrev pub AllPass : List (Bool × Error) → Type 0
AllPass [] = Unit
AllPass ((test, _) ∷ checks) = (test ≡ true) × AllPass checks

pub check_all_iff : (checks : List (Bool × Error)) → (check_all checks ≡ ok tt) ↔ AllPass checks
unfolding check_all
check_all_iff [] = (λ _. tt, λ _. refl)
check_all_iff ((true, e) ∷ checks) =
    (λ h. (refl, (check_all_iff checks).0 h), λ p. (check_all_iff checks).1 p.1)
check_all_iff ((false, e) ∷ checks) = (λ h. cc, λ p. cc (p.0))

-- Two steps succeed exactly if each does.
pub >>-eq-ok_iff {ℓ} :
    {B : Type ℓ} (m : Result (Unit {0})) (k : Result B) (b : B)
    → ((m >> k) ≡ ok b) ↔ ((m ≡ ok tt) × (k ≡ ok b))
>>-eq-ok_iff (ok _) k b = (λ h. (refl, h), λ p. p.1)
>>-eq-ok_iff (err e) k b = (λ h. cc, λ p. cc (p.0))

-- A last guard passes exactly if its test does.
pub require_iff : (test : Bool) (e : Error) → (require test e ≡ ok tt) ↔ (test ≡ true)
require_iff true e = (λ _. refl, λ _. refl)
require_iff false e = (λ h. cc, λ h. cc)

pub ok-injective {ℓ} : {A : Type ℓ} {a b : A} → ok a ≡ ok b → a ≡ b
ok-injective e = cc
