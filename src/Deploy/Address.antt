-- ===== src/Deploy/Address.antt =====
-- What deploy/ uses of Python's `ipaddress`: the version, the number, the zone of an address, and
-- the two classes of addresses that are refused. Reading an address from its text is a parameter
-- of the modules that do it; `none` stands for the `ValueError` of `ipaddress.ip_address`.
use text.Mathlib.Text.{◌==◌ as str_eq}
use text.Mathlib.TextEquality.{eq_iff}
use zhtps.Common.{
  ◌%◌, if◌then◌else◌, ◌≡◌, ◌↔◌, arith, ℕ, ◌/◌, ◌^◌, Bool, true, false, ◌&&◌, String, ◌<>◌, ◌==◌,
  Option, none, some, Result, ok, err, value_error,
}

-- `v6 n zone` carries the text behind `%`, which is empty where there is none.
pub data Address : Type 0 where
  v4 : ℕ → Address
  v6 : ℕ → String → Address

-- ::ffff:0:0/96, the addresses that stand for those of version 4. Python classifies them by the address
-- that they stand for, from 3.13 on.
abbrev is_mapped : ℕ → Bool
is_mapped n = n / 2 ^ 32 == 65_535

-- 0.0.0.0 and ::
abbrev pub is_unspecified : Address → Bool
is_unspecified (v4 n) = n == 0
is_unspecified (v6 n _) = if is_mapped n then n % 2 ^ 32 == 0 else n == 0

-- 224.0.0.0/4 and ff00::/8
abbrev pub is_multicast : Address → Bool
is_multicast (v4 n) = n / 2 ^ 28 == 14
is_multicast (v6 n _) = if is_mapped n then n % 2 ^ 32 / 2 ^ 28 == 14 else n / 2 ^ 120 == 255

abbrev pub is_v6 : Address → Bool
is_v6 (v4 _) = false
is_v6 (v6 _ _) = true

-- Two addresses are equal if their versions, numbers and zones are.
abbrev pub same_address : Address → Address → Bool
same_address (v4 n) (v4 m) = n == m
same_address (v6 n a) (v6 m b) = n == m && str_eq a b
same_address (v4 n) (v6 m b) = false
same_address (v6 n a) (v4 m) = false

abbrev address_or_error : String → Option Address → Result Address
address_or_error text none =
    err (value_error (text <> " does not appear to be an IPv4 or IPv6 address"))
address_or_error text (some a) = ok a

-- `ipaddress.ip_address(text)`
abbrev pub parse_address : (String → Option Address) → String → Result Address
parse_address ip_address text = address_or_error text (ip_address text)

pub same_address_iff : (a b : Address) → (same_address a b ≡ true) ↔ (a ≡ b)
same_address_iff (v4 n) (v4 m) = ground arith
same_address_iff (v6 n a) (v6 m b) = ground (arith, eq_iff a b)
same_address_iff (v4 n) (v6 m b) = ground arith
same_address_iff (v6 n a) (v4 m) = ground arith

pub parse_address_iff :
    (ip_address : String → Option Address) (text : String) (a : Address)
    → (parse_address ip_address text ≡ ok a) ↔ (ip_address text ≡ some a)
parse_address_iff ip_address text a = go (ip_address text)
  where
    go : (o : Option Address) → (address_or_error text o ≡ ok a) ↔ (o ≡ some a)
    go none = ground arith
    go (some b) = ground arith
