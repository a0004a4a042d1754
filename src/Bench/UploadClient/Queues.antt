-- ===== src/Bench/UploadClient/Queues.antt =====
-- The queue buckets of the sockets in bench/upload_client.py: what a probe observes, and the preparation
-- of the connections one after the other under a lock.
use text.Mathlib.Text.{◌==◌ as str_eq}
use zhtps.Common.{
  ℕ, suc, zero, ◌+◌, ◌≡◌, refl, Bool, Bool-cases, inl, inr, true, false, not, ◌&&◌, ◌||◌, List, [],
  ◌∷◌, Option, none, some, String, ltb, leb, if◌then◌else◌, Result, ok, err, runtime_error,
  out_of_fuel,
}
use zhtps.Bench.Floats.{Floats, number}

-- A class of the interface: is it one of fq_codel, its handle and its backlog.
pub record QueueClass : Type 0 where
  pub is_fq_codel : Bool
  pub handle : String
  pub backlog : ℕ

abbrev add_to : String → ℕ → List (String × ℕ) → List (String × ℕ)
add_to h n [] = (h, n) ∷ []
add_to h n ((k, m) ∷ more) = if str_eq k h then (k, m + n) ∷ more else (k, m) ∷ add_to h n more

-- The backlogs of 16 KiB and more, added up by handle in the order in which the handles appear.
abbrev pub observe : List (String × ℕ) → List QueueClass → List (String × ℕ)
observe observed [] = observed
observe observed (q ∷ qs) =
    observe
      (if q.is_fq_codel && leb 16_384 q.backlog
        then add_to q.handle q.backlog observed
        else observed)
      qs

abbrev total_weight : List (String × ℕ) → ℕ
total_weight [] = 0
total_weight ((h, n) ∷ more) = n + total_weight more

abbrev heaviest : String × ℕ → List (String × ℕ) → String × ℕ
heaviest (h, n) [] = (h, n)
heaviest (h, n) ((k, m) ∷ more) = heaviest (if ltb n m then (k, m) else (h, n)) more

module _ (N : Floats) where
  abbrev bucket_from : String × ℕ → ℕ → Option String
  bucket_from (h, n) total =
      if not (N.is_below (number N n) (N.times (number N total) (N.literal 9 10)))
      then some h
      else none

  -- The bucket of a probe: the handle with nine tenths of the weight.
  unfoldable pub bucket_of : List (String × ℕ) → Option String
  bucket_of [] = none
  bucket_of (x ∷ xs) = bucket_from (heaviest x xs) (total_weight (x ∷ xs))

abbrev pub is_used : String → List String → Bool
is_used b [] = false
is_used b (u ∷ us) = str_eq b u || is_used b us

abbrev prepared_as : String → List String → Result (String × List String)
prepared_as b used = ok (b, b ∷ used)

-- The attempts of a connection, of which so many are left, on what its probes give: the bucket, and the
-- buckets used from then on. In a used one the connection is opened again, if they are to be unique.
unfoldable pub prepare :
    ℕ → Bool → List String → List (Result (Option String)) → Result (String × List String)
prepare zero unique used probes =
    err (runtime_error "could not prepare a confirmed client queue bucket")
prepare (suc f) unique used [] = err out_of_fuel
prepare (suc f) unique used (err e ∷ probes) = err e
prepare (suc f) unique used (ok none ∷ probes) = prepare f unique used probes
prepare (suc f) unique used (ok (some b) ∷ probes) =
    let again = prepare f unique used probes in
    if unique && is_used b used then again else prepared_as b used

-- The connections in the order in which they take the lock; one that fails uses no bucket.
abbrev pub after_prepared :
    (List String → List (Result String))
    → List String
    → Result (String × List String)
    → List (Result String)
after_prepared more used (ok (b, used')) = ok b ∷ more used'
after_prepared more used (err e) = err e ∷ more used

unfoldable pub prepare_all :
    Bool → List String → List (List (Result (Option String))) → List (Result String)
unfolding prepare
prepare_all unique used [] = []
prepare_all unique used (probes ∷ rest) =
    after_prepared (λ us. prepare_all unique us rest) used (prepare 32 unique used probes)

abbrev pub buckets : List (Result String) → List String
buckets [] = []
buckets (ok b ∷ more) = b ∷ buckets more
buckets (err e ∷ more) = buckets more

-- No text is among those before it, nor among the given ones.
abbrev pub AreNew : List String → List String → Type 0
AreNew used [] = Unit
AreNew used (b ∷ bs) = (is_used b used ≡ false) × AreNew (b ∷ used) bs

-- A connection that is prepared has a new bucket, which is used from then on.
abbrev IsNew : List String → Result (String × List String) → Type 0
IsNew used (ok (b, used')) = (is_used b used ≡ false) × (used' ≡ b ∷ used)
IsNew used (err e) = Unit

prepare-IsNew :
    (f : ℕ) (used : List String) (probes : List (Result (Option String)))
    → IsNew used (prepare f true used probes)
unfolding prepare
prepare-IsNew zero used probes = tt
prepare-IsNew (suc f) used [] = tt
prepare-IsNew (suc f) used (err e ∷ probes) = tt
prepare-IsNew (suc f) used (ok none ∷ probes) = prepare-IsNew f used probes
prepare-IsNew (suc f) used (ok (some b) ∷ probes) = elim (Bool-cases (is_used b used)) [
  | inl taken ↦ rw taken (prepare-IsNew f used probes)
  | inr free ↦ rw free (free, refl)
]

after_prepared-AreNew :
    (more : List String → List (Result String)) (used : List String)
    (r : Result (String × List String))
    → IsNew used r
    → ((us : List String) → AreNew us (buckets (more us)))
    → AreNew used (buckets (after_prepared more used r))
after_prepared-AreNew more used (ok (b, used')) (free, adds) rest =
    (free, rw adds (rest (b ∷ used)))
after_prepared-AreNew more used (err e) _ rest = rest used

-- If the buckets are to be unique, then whatever the probes give, the connections that are prepared have
-- different buckets, none of which was used before.
pub prepare_all-AreNew :
    (used : List String) (connections : List (List (Result (Option String))))
    → AreNew used (buckets (prepare_all true used connections))
unfolding prepare_all
prepare_all-AreNew used [] = tt
prepare_all-AreNew used (probes ∷ rest) =
    after_prepared-AreNew (λ us. prepare_all true us rest) used (prepare 32 true used probes)
      (prepare-IsNew 32 used probes) (λ us. prepare_all-AreNew us rest)
