-- ===== src/Bench/KeepaliveClient.antt =====
-- bench/keepalive_returning_client.py: residents that keep a connection and come back, and newcomers. A
-- resident tries once more after a failure. Times are in nanoseconds.
pub mod Accounts
pub mod Tests
use text.Mathlib.Text.{◌==◌ as str_eq}
use zhtps.Common.{
  ℕ, zero, suc, ◌+◌, ◌-◌, ◌*◌, ◌≤◌, ◌≡◌, ◌⊎◌, inl, inr, refl, sym, ◌/◌, Bool, true, false, not,
  List, [], ◌∷◌, ◌++◌, Option, none, some, String, ltb, min, length, length-append, if◌then◌else◌,
  Result, ok, err, value_error, assertion_error, index_error, out_of_fuel, ◌>>=◌, ◌>>◌, >>=-eq-ok,
  require, ok-injective, subst, ap, arith, All, map_result,
}
use zhtps.Bench.Floats.{Floats, number}
use zhtps.Bench.UploadClient.{natural}

-- A request's end: the expected response, after which the connection is kept or closed; another response;
-- or an error of the connection, by its type's name.
pub data Reply : Type 0 where
  good : Bool → Reply
  invalid : Reply
  failed : String → Reply

pub record Request : Type 0 where
  pub success : Bool
  pub elapsed : ℕ
  pub attempts : List String
  pub connections_opened : ℕ

abbrev pub request_row : Bool → ℕ → List String → ℕ → Request
request_row success elapsed attempts opened = record {
  success = success;
  elapsed = elapsed;
  attempts = attempts;
  connections_opened = opened;
}

abbrev pub opening : Bool → ℕ → ℕ
opening is_open opened = if is_open then opened else suc opened

-- The attempts, of which so many are left, on an open connection or not: the row, and whether the
-- connection is open after it. `elapsed` is the time that all the attempts take.
unfoldable pub attempt : ℕ → ℕ → Bool → List String → ℕ → List Reply → Result (Request × Bool)
attempt zero elapsed is_open attempts opened replies =
    ok (request_row false elapsed attempts opened, is_open)
attempt (suc n) elapsed is_open attempts opened [] = err out_of_fuel
attempt (suc n) elapsed is_open attempts opened (good keeps ∷ replies) =
    ok (request_row true elapsed attempts (opening is_open opened), keeps)
attempt (suc n) elapsed is_open attempts opened (invalid ∷ replies) =
    err (value_error "invalid response")
attempt (suc n) elapsed is_open attempts opened (failed name ∷ replies) =
    attempt n elapsed false (attempts ++ name ∷ []) (opening is_open opened) replies

abbrev pub tries : Bool → ℕ
tries resident = if resident then 2 else 1

-- A request, with the replies that its attempts meet and the time that it takes.
unfoldable pub request : Bool → Bool → List Reply × ℕ → Result (Request × Bool)
unfolding attempt
request resident is_open (replies, elapsed) = attempt (tries resident) elapsed is_open [] 0 replies

-- A newcomer's connection is new, and is closed after the request.
unfoldable pub newcomer : List Reply × ℕ → Result Request
unfolding request
newcomer replies = do (row, is_open) ← request false false replies; ok row

-- The residents in turn, each with the connection that it had.
unfoldable pub returning : List (Bool × List Reply × ℕ) → Result (List (Request × Bool))
unfolding request
returning residents =
    map_result (λ (r : Bool × List Reply × ℕ). request true r.0 (r.1, r.2)) residents

-- The setup of a resident, which has to succeed.
unfoldable pub set_up : List Reply × ℕ → Result Bool
unfolding request
set_up replies = do
  (row, is_open) ← request false false replies
  require row.success (assertion_error "")
  ok is_open

abbrev successes_of : List Request → List ℕ
successes_of [] = []
successes_of (r ∷ rs) = let rest = successes_of rs in if r.success then r.elapsed ∷ rest else rest

abbrev pub insert : ℕ → List ℕ → List ℕ
insert x [] = x ∷ []
insert x (y ∷ ys) = let after = insert x ys in if ltb x y then x ∷ y ∷ ys else y ∷ after

abbrev pub sorted : List ℕ → List ℕ
sorted [] = []
sorted (x ∷ xs) = insert x (sorted xs)

abbrev pub count_opened : List Request → ℕ
count_opened [] = 0
count_opened (r ∷ rs) = r.connections_opened + count_opened rs

abbrev pub add_name : String → List (String × ℕ) → List (String × ℕ)
add_name name [] = (name, 1) ∷ []
add_name name ((k, n) ∷ more) =
    if str_eq k name then (k, suc n) ∷ more else (k, n) ∷ add_name name more

abbrev pub add_names : List String → List (String × ℕ) → List (String × ℕ)
add_names [] counts = counts
add_names (name ∷ names) counts = add_names names (add_name name counts)

abbrev pub count_errors : List Request → List (String × ℕ) → List (String × ℕ)
count_errors [] counts = counts
count_errors (r ∷ rs) counts = count_errors rs (add_names r.attempts counts)

abbrev pub nth : ℕ → List ℕ → Result ℕ
nth n [] = err (index_error "list index out of range")
nth zero (x ∷ xs) = ok x
nth (suc n) (x ∷ xs) = nth n xs

pub record Summary : Type 0 where
  pub offered : ℕ
  pub successes : ℕ
  pub failures : ℕ
  pub connections_opened : ℕ
  pub attempt_errors : List (String × ℕ)
  pub p50 : Option ℕ
  pub p99 : Option ℕ

module _ (N : Floats) where
  abbrev pub quantiles : List ℕ → Result (Option ℕ × Option ℕ)
  quantiles [] = ok (none, none)
  quantiles (x ∷ xs) = do
    let n = length (x ∷ xs)
    middle ← nth (n / 2) (x ∷ xs)
    late ←
        nth (min (n - 1) (natural (N.truncate (N.times (number N n) (N.literal 99 100))))) (x ∷ xs)
    ok (some middle, some late)

  unfoldable pub summarize : List Request → Result Summary
  summarize rows = do
    let successes = sorted (successes_of rows)
    (p50, p99) ← quantiles successes
    ok (record {
      offered = length rows;
      successes = length successes;
      failures = length rows - length successes;
      connections_opened = count_opened rows;
      attempt_errors = count_errors rows [];
      p50 = p50;
      p99 = p99;
    })
