-- ===== src/Text/Decimal.antt =====
-- Decimal numbers: std::to_string, std::from_chars, and parseInt and parseUInt64 of src/utils.cpp.
pub mod RoundTrip
use build_your_own_redis.Prelude.{
  ℕ, zero, suc, ◌+◌, ◌-◌, ◌*◌, ◌/◌, ◌%◌, ◌^◌, ◌≡◌, refl, Bool, ◌&&◌, Option, none, some, List, [],
  ◌∷◌, arith, ltb, leb, ◌==◌, if◌then◌else◌,
}

-- A signed integer; `negsuc n` is -(n + 1).
pub data ℤ : Type 0 where
  pos : ℕ → ℤ
  negsuc : ℕ → ℤ

abbrev pub u64_mod : ℕ
u64_mod = 2 ^ 64

-- The conversion of an `int` to `std::size_t`.
unfoldable pub to_size : ℤ → ℕ
to_size (pos n) = n
to_size (negsuc n) = u64_mod - suc n

-- `std::to_string`: the digits of n before `out`. The fuel `suc n` is more than the digits need.
unfoldable pub digits : ℕ → ℕ → List ℕ → List ℕ
digits zero n out = out
digits (suc f) n out =
    let rest = digits f (n / 10) ((b'0' + n % 10) ∷ out) in
    if ltb n 10 then (b'0' + n % 10) ∷ out else rest

unfoldable pub decimal : ℕ → List ℕ
unfolding digits
decimal n = digits (suc n) n []

unfoldable pub decimal_int : ℤ → List ℕ
unfolding decimal
decimal_int (pos n) = decimal n
decimal_int (negsuc n) = b'-' ∷ decimal (suc n)

abbrev pub is_digit : ℕ → Bool
is_digit c = leb b'0' c && leb c b'9'

-- `std::from_chars` reads the longest run of digits and leaves the rest of the text unread.
unfoldable pub scan : ℕ → List ℕ → ℕ
scan n [] = n
scan n (c ∷ s) = if is_digit c then scan (n * 10 + (c - b'0')) s else n

-- Digits with the result in 0 … max; `none` is a non-zero `ec`.
unfoldable pub from_digits : ℕ → List ℕ → Option ℕ
unfolding scan
from_digits max [] = none
from_digits max (c ∷ s) =
    if is_digit c then (if leb (scan 0 (c ∷ s)) max then some (scan 0 (c ∷ s)) else none) else none

-- The source steps over one leading '+', which `std::from_chars` does not take.
unfoldable pub skip_plus : List ℕ → List ℕ
skip_plus [] = []
skip_plus (c ∷ s) = if c == b'+' then s else c ∷ s

-- parseUInt64
unfoldable pub parse_uint64 : List ℕ → Option ℕ
unfolding from_digits skip_plus
parse_uint64 s = from_digits (u64_mod - 1) (skip_plus s)

unfoldable pub negated : Option ℕ → Option ℤ
negated none = none
negated (some zero) = some (pos 0)
negated (some (suc n)) = some (negsuc n)

unfoldable pub positive : Option ℕ → Option ℤ
positive none = none
positive (some n) = some (pos n)

-- `std::from_chars` for a 32-bit int
unfoldable pub from_chars_int : List ℕ → Option ℤ
unfolding from_digits negated positive
from_chars_int [] = none
from_chars_int (c ∷ s) =
    if c == b'-'
    then negated (from_digits (2 ^ 31) s)
    else positive (from_digits (2 ^ 31 - 1) (c ∷ s))

-- parseInt
unfoldable pub parse_int : List ℕ → Option ℤ
unfolding from_chars_int skip_plus
parse_int s = from_chars_int (skip_plus s)
