-- ===== src/RdbParser/Print.antt =====
-- Numbers, lengths and strings as src/rdb_parser.cpp reads them, printed and read back.
use build_your_own_redis.Prelude.{
  ℕ, zero, suc, ◌*◌, ◌/◌, ◌%◌, ◌^◌, ◌<◌, ◌≡◌, refl, false, [], ◌∷◌, ◌++◌, arith, ltb, if◌then◌else◌,
  length, length-append, take-append_length, drop-append_length, Bool-cases, inl, inr,
}
use build_your_own_redis.Text.{Bytes}
use build_your_own_redis.Outcome.{ok}
use build_your_own_redis.RdbParser.{
  parse_string, parse_uint8, parse_unsigned, little_endian, of_length, length_encoding,
  parse_length_encoding, string_of, parse_string_encoded, parse_pair,
}

-- The bytes of a number in memory, and the numbers that fit in this many bytes
abbrev pub bytes_of : ℕ → ℕ → Bytes
bytes_of zero n = []
bytes_of (suc k) n = (n % 256) ∷ bytes_of k (n / 256)

abbrev pub bound : ℕ → ℕ
bound zero = 1
bound (suc k) = 256 * bound k

-- A length below 64 is one byte, a larger one five; the length in two bytes is not read back.
abbrev pub print_length : ℕ → Bytes → Bytes
print_length n rest = if ltb n 64 then n ∷ rest else 128 ∷ (bytes_of 4 n ++ rest)

abbrev pub print_string : Bytes → Bytes → Bytes
print_string s rest = print_length (length s) (s ++ rest)

abbrev pub print_pair : Bytes → Bytes → Bytes → Bytes
print_pair k v rest = print_string k (print_string v rest)

length-bytes_of : (k n : ℕ) → length (bytes_of k n) ≡ k
length-bytes_of zero n = refl
length-bytes_of (suc k) n = omega (arith, length-bytes_of k (n / 256))

little_endian-bytes_of : (k n : ℕ) → n < bound k → little_endian (bytes_of k n) ≡ n
unfolding little_endian
little_endian-bytes_of zero n h = omega arith
little_endian-bytes_of (suc k) n h =
    let rest = little_endian-bytes_of k (n / 256) (omega arith) in omega (arith, rest)

pub parse_string-append :
    (s rest : Bytes) (k : ℕ) → k ≡ length s → parse_string k (s ++ rest) ≡ ok (s, rest)
unfolding parse_string
parse_string-append s rest k e =
    let longer = length-append s rest in
    let fits : ltb (length (s ++ rest)) (length s) ≡ false = ground (arith, longer) in
    rw (e, fits, take-append_length s rest, drop-append_length s rest 0 (length s) (omega arith))
      refl

pub parse_unsigned-bytes_of :
    (k n : ℕ) (rest : Bytes) → n < bound k → parse_unsigned k (bytes_of k n ++ rest) ≡ ok (n, rest)
unfolding parse_unsigned
parse_unsigned-bytes_of k n rest h =
    rw
      (
        parse_string-append (bytes_of k n) rest k (omega (arith, length-bytes_of k n)),
        little_endian-bytes_of k n h,
      )
      refl

pub parse_length_encoding-print_length :
    (n : ℕ) (rest : Bytes)
    → n < 2 ^ 32
    → parse_length_encoding (print_length n rest) ≡ ok (of_length n, rest)
unfolding parse_length_encoding length_encoding parse_uint8
parse_length_encoding-print_length n rest h = elim (Bool-cases (ltb n 64)) [
  | inl e ↦
      let small : n < 64 = ground arith in
      let top : n / 64 % 4 ≡ 0 = omega arith in
      let low : n % 64 ≡ n = omega arith in rw (e, top, low) refl
  | inr e ↦ rw (e, parse_unsigned-bytes_of 4 n rest (omega arith)) refl
]

pub parse_string_encoded-print_string :
    (s rest : Bytes) → length s < 2 ^ 32 → parse_string_encoded (print_string s rest) ≡ ok (s, rest)
unfolding parse_string_encoded string_of
parse_string_encoded-print_string s rest h =
    rw
      (
        parse_length_encoding-print_length (length s) (s ++ rest) h,
        parse_string-append s rest (length s) refl,
      )
      refl

pub parse_pair-print_pair :
    (k v rest : Bytes)
    → length k < 2 ^ 32
    → length v < 2 ^ 32
    → parse_pair (print_pair k v rest) ≡ ok ((k, v), rest)
unfolding parse_pair
parse_pair-print_pair k v rest h l =
    rw
      (
        parse_string_encoded-print_string k (print_string v rest) h,
        parse_string_encoded-print_string v rest l,
      )
      refl

pub length-print_length : (n : ℕ) (rest : Bytes) → length rest < length (print_length n rest)
length-print_length n rest = elim (Bool-cases (ltb n 64)) [
  | inl e ↦ rw e (omega arith)
  | inr e ↦ rw e (omega (arith, length-append (bytes_of 4 n) rest))
]

pub length-print_pair : (k v rest : Bytes) → length rest < length (print_pair k v rest)
length-print_pair k v rest = omega (
  arith,
  length-print_length (length k) (k ++ print_string v rest),
  length-append k (print_string v rest),
  length-print_length (length v) (v ++ rest),
  length-append v rest,
)
