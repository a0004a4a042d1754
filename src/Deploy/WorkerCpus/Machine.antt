-- ===== src/Deploy/WorkerCpus/Machine.antt =====
-- What `suggest` of deploy/worker_cpus.py reads under /sys and /proc, and how it takes the texts apart.
use zhtps.Common.{
  ℕ, zero, suc, ◌+◌, ◌-◌, ◌≡◌, refl, Bool, true, false, ◌&&◌, ◌||◌, List, [], ◌∷◌, Option, none,
  some, String, ◌<>◌, codes, is_digit, is_alnum, all, leb, ◌==◌, if◌then◌else◌, ℤ, pos, negsuc,
  str_ℕ, Result, ok, err, value_error, ◌>>=◌,
}
use zhtps.Deploy.WorkerCpus.CpuList.{strip, number_from, cpu_list}

-- The files, each as the text that reading it gives or the exception that it raises. A list of texts
-- stands for a glob, in the order in which the code goes through it.
pub record Machine : Type 0 where
  -- `nic.is_dir()`
  pub has_interface : String → Bool
  -- `queues/rx-*/rps_cpus`, where it exists
  pub rps_cpus : List (Result (List ℕ))
  -- the names in `device/msi_irqs`
  pub msi_irqs : List (List ℕ)
  -- `device/irq`, if it exists
  pub device_irq : Option (Result (List ℕ))
  -- `online` of /sys/devices/system/cpu
  pub online : Result (List ℕ)
  -- `irq/{irq}/effective_affinity_list` of /proc
  pub affinity : ℤ → Result (List ℕ)
  -- `cpu{cpu}/topology/thread_siblings_list`
  pub thread_siblings : ℕ → Result (List ℕ)
  -- `level` and `shared_cpu_list` of the sorted `cpu{cpu}/cache/index*`
  pub caches : ℕ → List (Result (List ℕ) × Result (List ℕ))

abbrev is_first_char : ℕ → Bool
is_first_char c = is_alnum c || c == b'_'

abbrev is_later_char : ℕ → Bool
is_later_char c = is_alnum c || c == b'_' || c == b'.' || c == b':' || c == b'-'

abbrev is_device_text : List ℕ → Bool
is_device_text [] = false
is_device_text (c ∷ cs) = is_first_char c && all is_later_char cs

-- `re.fullmatch(r'[A-Za-z0-9_][A-Za-z0-9_.:-]*', interface)`
unfoldable pub is_device_name : String → Bool
is_device_name name = is_device_text (codes name)

abbrev negate : ℕ → ℤ
negate zero = pos 0
negate (suc n) = negsuc n

abbrev read_sign : List ℕ → Bool × List ℕ
read_sign [] = (false, [])
read_sign (c ∷ s) =
    if c == b'-' then (true, s) else if c == b'+' then (false, s) else (false, c ∷ s)

abbrev signed : Bool → Option ℕ → Result ℤ
signed negative none = err (value_error "invalid literal for int() with base 10")
signed false (some n) = ok (pos n)
signed true (some n) = ok (negate n)

-- `int(text)`
unfoldable pub to_ℤ : List ℕ → Result ℤ
unfolding strip number_from
to_ℤ text =
    let (negative, digits) = read_sign (strip text) in signed negative (number_from false 0 digits)

abbrev hex_digit : ℕ → Option ℕ
hex_digit c =
    if is_digit c
    then some (c - b'0')
    else if leb b'a' c && leb c b'f'
    then some (c - b'a' + 10)
    else if leb b'A' c && leb c b'F'
    then some (c - b'A' + 10)
    else none

-- The digits of a number in base 16: is it one, and does it have a digit other than 0?
hex_from : Bool → Bool → List ℕ → Option Bool
hex_from prev nonzero [] = if prev then some nonzero else none
hex_from prev nonzero (c ∷ s) =
    let underscore = hex_from false nonzero s in
    let zero_digit = hex_from true nonzero s in
    let digit = hex_from true true s in
    elim (hex_digit c) [
      | some zero ↦ zero_digit
      | some (suc _) ↦ digit
      | none ↦ if c == b'_' && prev then underscore else none
    ]

abbrev after_underscore : List ℕ → List ℕ
after_underscore [] = []
after_underscore (c ∷ s) = if c == b'_' then s else c ∷ s

abbrev after_prefix : List ℕ → List ℕ
after_prefix (c ∷ x ∷ s) =
    if c == b'0' && (x == b'x' || x == b'X') then after_underscore s else c ∷ x ∷ s
after_prefix s = s

remove : ℕ → List ℕ → List ℕ
remove c [] = []
remove c (x ∷ s) = let rest = remove c s in if x == c then rest else x ∷ rest

abbrev or_invalid_hex : Option Bool → Result Bool
or_invalid_hex none = err (value_error "invalid literal for int() with base 16")
or_invalid_hex (some nonzero) = ok nonzero

-- `int(text.strip().replace(',', ''), 16)`, as a test
unfoldable pub is_nonzero_mask : List ℕ → Result Bool
unfolding strip hex_from remove
is_nonzero_mask text =
    let digits = (read_sign (strip (remove b',' (strip text)))).1 in
    or_invalid_hex (hex_from false false (after_prefix digits))

-- `siblings` and the body of `l3`
unfoldable pub siblings : Machine → ℕ → Result (List ℕ)
siblings m cpu = do text ← m.thread_siblings cpu; cpu_list text

abbrev is_three : List ℕ → Bool
is_three (c ∷ []) = c == b'3'
is_three _ = false

abbrev find_l3 : ℕ → List (Result (List ℕ) × Result (List ℕ)) → Result (List ℕ)
find_l3 cpu [] = err (value_error ("CPU " <> str_ℕ cpu <> " has no exposed L3 topology"))
find_l3 cpu ((level, shared) ∷ caches) = do
  text ← level
  let rest = find_l3 cpu caches
  if is_three (strip text) then (do list ← shared; cpu_list list) else rest

unfoldable pub l3 : Machine → ℕ → Result (List ℕ)
l3 m cpu = find_l3 cpu (m.caches cpu)

reader_tests :
    (to_ℤ (codes " -12\n") ≡ ok (negsuc 11))
    × (to_ℤ (codes "+1_0") ≡ ok (pos 10))
    × (is_nonzero_mask (codes "00000000,00000000\n") ≡ ok false)
    × (is_nonzero_mask (codes "0x_00,0A\n") ≡ ok true)
    × (is_nonzero_mask (codes "0x") ≡ err (value_error "invalid literal for int() with base 16"))
unfolding to_ℤ is_nonzero_mask
reader_tests = (refl, refl, refl, refl, refl)
