-- ===== src/Text/Decimal/RoundTrip.antt =====
-- parseInt and parseUInt64 of src/utils.cpp on what std::to_string prints.
use mathlib.Core.Path.{subst}
use build_your_own_redis.Prelude.{
  sym, append-nil, ℕ, zero, suc, ◌∙◌, ap, ◌+◌, ◌-◌, ◌/◌, ◌%◌, ◌^◌, ◌≤◌, ◌<◌, ◌≡◌, ◌≢◌, refl, some,
  List, [], ◌∷◌, ◌++◌, true, false, arith, ltb, All, Bool-cases, inl, inr,
}
use build_your_own_redis.Text.Decimal.{
  ℤ, negsuc, decimal_int, negated, pos, u64_mod, digits, decimal, is_digit, scan, from_digits,
  skip_plus, parse_uint64, from_chars_int, parse_int,
}

abbrev pub IsDigit : ℕ → Type 0
IsDigit c = (b'0' ≤ c) × (c ≤ b'9')

-- A text that `std::from_chars` does not read on into.
abbrev pub Stops : List ℕ → Type 0
Stops [] = Unit
Stops (c ∷ s) = is_digit c ≡ false

scan_last : (n : ℕ) (out : List ℕ) → scan (n / 10) ((b'0' + n % 10) ∷ out) ≡ scan n out
unfolding scan
scan_last n out = ground arith

scan-digits : (f n : ℕ) (out : List ℕ) → n < f → scan 0 (digits f n out) ≡ scan n out
unfolding digits
scan-digits zero n out h = elim h [ ]
scan-digits (suc f) n out h =
    ground (arith, scan-digits f (n / 10) ((b'0' + n % 10) ∷ out), scan_last n out)

digits-append : (f n : ℕ) (out rest : List ℕ) → digits f n out ++ rest ≡ digits f n (out ++ rest)
unfolding digits
digits-append zero n out rest = refl
digits-append (suc f) n out rest =
    ground (arith, digits-append f (n / 10) ((b'0' + n % 10) ∷ out) rest)

digits-All : (f n : ℕ) (out : List ℕ) → All IsDigit out → All IsDigit (digits f n out)
unfolding digits
digits-All zero n out h = h
digits-All (suc f) n out h = elim (Bool-cases (ltb n 10)) [
  | inl e ↦ rw e ((omega arith, omega arith), h)
  | inr e ↦ rw e (digits-All f (n / 10) ((b'0' + n % 10) ∷ out) ((omega arith, omega arith), h))
]

pub decimal-All : (n : ℕ) → All IsDigit (decimal n)
unfolding decimal
decimal-All n = digits-All (suc n) n [] tt

-- A text that begins with a digit.
abbrev Starts : List ℕ → Type 0
Starts [] = ⊥
Starts (c ∷ s) = is_digit c ≡ true

digits-Starts : (f n : ℕ) (out : List ℕ) → n < f → Starts (digits f n out)
unfolding digits
digits-Starts zero n out h = elim h [ ]
digits-Starts (suc f) n out h = elim (Bool-cases (ltb n 10)) [
  | inl e ↦ rw e (ground arith)
  | inr e ↦ rw e (digits-Starts f (n / 10) ((b'0' + n % 10) ∷ out) (ground arith))
]

scan-Stops : (n : ℕ) (rest : List ℕ) → Stops rest → scan n rest ≡ n
unfolding scan
scan-Stops n [] h = refl
scan-Stops n (c ∷ s) h = ground arith

from_digits_lem :
    (max : ℕ) (s : List ℕ) → Starts s → scan 0 s ≤ max → from_digits max s ≡ some (scan 0 s)
unfolding from_digits
from_digits_lem max [] h le = elim h [ ]
from_digits_lem max (c ∷ s) h le = ground arith

skip_plus-Starts : (s : List ℕ) → Starts s → skip_plus s ≡ s
unfolding skip_plus
skip_plus-Starts [] h = refl
skip_plus-Starts (c ∷ s) h = ground arith

from_chars_int-Starts :
    (s : List ℕ) (n : ℕ)
    → Starts s
    → from_digits (2 ^ 31 - 1) s ≡ some n
    → from_chars_int s ≡ some (pos n)
unfolding from_chars_int
from_chars_int-Starts [] n h e = elim h [ ]
from_chars_int-Starts (c ∷ s) n h e = ground arith

module _ (n : ℕ) (rest : List ℕ) (stops : Stops rest) where
  printed : decimal n ++ rest ≡ digits (suc n) n rest
  unfolding decimal
  printed = digits-append (suc n) n [] rest

  scan_printed : scan 0 (digits (suc n) n rest) ≡ n
  scan_printed = scan-digits (suc n) n rest (omega arith) ∙ scan-Stops n rest stops

  printed-Starts : Starts (digits (suc n) n rest)
  printed-Starts = digits-Starts (suc n) n rest (omega arith)

  from_digits_printed : (max : ℕ) → n ≤ max → from_digits max (digits (suc n) n rest) ≡ some n
  from_digits_printed max h =
      from_digits_lem max _ printed-Starts (rw scan_printed h) ∙ ap some scan_printed

  -- parseUInt64 reads back a 64-bit number that std::to_string printed, and ignores what follows it,
  -- which does not begin with a digit.
  pub parse_uint64-decimal : n < u64_mod → parse_uint64 (decimal n ++ rest) ≡ some n
  unfolding parse_uint64
  parse_uint64-decimal h =
      rw (printed, skip_plus-Starts _ printed-Starts)
        (from_digits_printed (u64_mod - 1) (omega arith))

  pub parse_int-decimal : n < 2 ^ 31 → parse_int (decimal n ++ rest) ≡ some (pos n)
  unfolding parse_int
  parse_int-decimal h =
      rw (printed, skip_plus-Starts _ printed-Starts)
        (from_chars_int-Starts _ n printed-Starts (from_digits_printed (2 ^ 31 - 1) (omega arith)))

pub decimal-ne-nil : (n : ℕ) → decimal n ≢ []
unfolding decimal
decimal-ne-nil n e = subst Starts e (digits-Starts (suc n) n [] (omega arith))

lacks-digits : (d : ℕ) → is_digit d ≡ false → (s : List ℕ) → All IsDigit s → All (λ c. c ≢ d) s
lacks-digits d h [] a = tt
lacks-digits d h (c ∷ s) a = (ground arith, lacks-digits d h s a.1)

-- A printed number holds no other byte than digits.
pub decimal-lacks : (d n : ℕ) → is_digit d ≡ false → All (λ c. c ≢ d) (decimal n)
decimal-lacks d n h = lacks-digits d h (decimal n) (decimal-All n)

pub parse_uint64-decimal_self : (n : ℕ) → n < u64_mod → parse_uint64 (decimal n) ≡ some n
parse_uint64-decimal_self n h = rw append-nil at (parse_uint64-decimal n [] tt h)

pub parse_int-decimal_self : (n : ℕ) → n < 2 ^ 31 → parse_int (decimal n) ≡ some (pos n)
parse_int-decimal_self n h = rw append-nil at (parse_int-decimal n [] tt h)

from_digits-decimal : (n max : ℕ) → n ≤ max → from_digits max (decimal n) ≡ some n
unfolding decimal
from_digits-decimal n max h = from_digits_printed n [] tt max h

-- An `int`
abbrev pub IsInt : ℤ → Type 0
IsInt (pos n) = n < 2 ^ 31
IsInt (negsuc n) = n < 2 ^ 31

pub parse_int-decimal_int : (n : ℤ) → IsInt n → parse_int (decimal_int n) ≡ some n
unfolding decimal_int
parse_int-decimal_int (pos n) h = parse_int-decimal_self n h
parse_int-decimal_int (negsuc n) h =
    unfold parse_int skip_plus from_chars_int in
    rw (from_digits-decimal (suc n) (2 ^ 31) (omega arith)) (unfold negated in refl)

pub decimal_int-lacks :
    (d : ℕ) (n : ℤ) → is_digit d ≡ false → d ≢ b'-' → All (λ c. c ≢ d) (decimal_int n)
unfolding decimal_int
decimal_int-lacks d (pos n) h ne = decimal-lacks d n h
decimal_int-lacks d (negsuc n) h ne = ((λ e. ne (sym e)), decimal-lacks d (suc n) h)
