-- ===== src/RdbParser.antt =====
-- RDBParse of src/rdb_parser.cpp: the file of a database as calls of `restore`. The stream is the list
-- of the bytes that are left. The machine's byte order is little-endian, the clock counts
-- nanoseconds in 64 bits. What is printed at a DEBUG_LEVEL is left out.
pub mod Leaves
pub mod Print
pub mod Load
use build_your_own_redis.Prelude.{
  ℕ, zero, suc, ◌+◌, ◌-◌, ◌*◌, ◌/◌, ◌%◌, ◌^◌, Bool, true, false, Option, none, some, List, [], ◌∷◌,
  ◌++◌, ltb, leb, ◌==◌, if◌then◌else◌, length, take, drop,
}
use build_your_own_redis.Text.{Bytes, text, same}
use build_your_own_redis.Text.Decimal.{ℤ, pos, negsuc, decimal_int, parse_int}
use build_your_own_redis.Outcome.{Outcome, ok, err, undefined, ◌>>=◌}

pub data OpCode : Type 0 where
  op_aux op_selectdb op_expiretime op_expiretimems op_resizedb op_eof : OpCode

-- The value of the enumerator
abbrev pub op_value : OpCode → ℕ
op_value op_aux = 0
op_value op_selectdb = 1
op_value op_expiretime = 2
op_value op_expiretimems = 3
op_value op_resizedb = 4
op_value op_eof = 5

pub data LengthType : Type 0 where
  length_type special_type : LengthType

pub record LengthEncoding : Type 0 where
  pub kind : LengthType
  pub size : ℕ
  pub special : ℕ

pub record Entry : Type 0 where
  pub key : Bytes
  pub value : Bytes
  pub expire_time : Option ℤ

-- A call of `restore`; an entry whose time is not after now is skipped, so no time is negative.
pub record Restored : Type 0 where
  pub key : Bytes
  pub value : Bytes
  pub expire_time : Option ℕ

abbrev pub invalid_stream : {A : Type 0} → Outcome A
invalid_stream = err (text "Invalid input stream")

unfoldable pub parse_string : ℕ → Bytes → Outcome (Bytes × Bytes)
parse_string count from =
    if ltb (length from) count then invalid_stream else ok (take count from, drop count from)

unfoldable pub parse_uint8 : Bytes → Outcome (ℕ × Bytes)
parse_uint8 [] = invalid_stream
parse_uint8 (c ∷ from) = ok (c, from)

-- `peek` at the end is EOF, which becomes the byte 0xFF and does not fail the stream.
unfoldable pub peek_uint8 : Bytes → ℕ
peek_uint8 [] = 255
peek_uint8 (c ∷ from) = c

-- The value of bytes in memory, and of bytes as a signed number
unfoldable pub little_endian : Bytes → ℕ
little_endian [] = 0
little_endian (c ∷ s) = c + 256 * little_endian s

unfoldable pub signed : ℕ → ℕ → ℤ
signed half n = if ltb n half then pos n else negsuc (2 * half - suc n)

unfoldable pub parse_unsigned : ℕ → Bytes → Outcome (ℕ × Bytes)
unfolding parse_string little_endian
parse_unsigned count from = parse_string count from >>= λ r. ok (little_endian r.0, r.1)

unfoldable pub parse_signed : ℕ → Bytes → Outcome (ℤ × Bytes)
unfolding parse_unsigned signed
parse_signed count from =
    parse_unsigned count from >>= λ r. ok (signed (2 ^ (8 * count - 1)) r.0, r.1)

-- to_hex of a `std::uint8_t`, which the stream prints as a character
unfoldable pub to_hex : ℕ → Bytes
to_hex c = b'0' ∷ c ∷ []

unfoldable pub op_code : ℕ → Outcome OpCode
unfolding to_hex
op_code ch =
    if ch == 255
    then ok op_eof
    else if ch == 250
    then ok op_aux
    else if ch == 251
    then ok op_resizedb
    else if ch == 252
    then ok op_expiretimems
    else if ch == 254
    then ok op_selectdb
    else if ch == 253
    then ok op_expiretime
    else err (text "Unexpected opcode 0x" ++ to_hex ch)

unfoldable pub parse_op_code : Bytes → Outcome (OpCode × Bytes)
unfolding parse_uint8 op_code
parse_op_code from = parse_uint8 from >>= λ r. op_code r.0 >>= λ o. ok (o, r.1)

abbrev pub of_length : ℕ → LengthEncoding
of_length n = record { kind = length_type; size = n; special = 0 }

-- `x << 8 + y` is `x << (8 + y)`; a shift by the width is undefined.
unfoldable pub shifted : ℕ → ℕ → Outcome LengthEncoding
shifted x y = if ltb (8 + y) 32 then ok (of_length (x * 2 ^ (8 + y) % 2 ^ 32)) else undefined

-- The length behind the first byte, by the top two bits of this
unfoldable pub length_encoding : ℕ → ℕ → Bytes → Outcome (LengthEncoding × Bytes)
unfolding parse_uint8 parse_unsigned shifted
length_encoding top low from =
    if top == 0
    then ok (of_length low, from)
    else if top == 1
    then (parse_uint8 from >>= λ r. shifted low r.0 >>= λ e. ok (e, r.1))
    else if top == 2
    then (parse_unsigned 4 from >>= λ r. ok (of_length r.0, r.1))
    else ok (record { kind = special_type; size = 0; special = low }, from)

unfoldable pub parse_length_encoding : Bytes → Outcome (LengthEncoding × Bytes)
unfolding parse_uint8 length_encoding
parse_length_encoding from = parse_uint8 from >>= λ r. length_encoding (r.0 / 64 % 4) (r.0 % 64) r.1

abbrev pub to_text : Outcome (ℤ × Bytes) → Outcome (Bytes × Bytes)
to_text o = o >>= λ r. ok (decimal_int r.0, r.1)

unfoldable pub string_of : LengthType → ℕ → ℕ → Bytes → Outcome (Bytes × Bytes)
unfolding parse_string parse_signed
string_of length_type size special from = parse_string size from
string_of special_type size special from =
    if special == 0
    then to_text (parse_signed 1 from)
    else if special == 1
    then to_text (parse_signed 2 from)
    else if special == 2
    then to_text (parse_signed 4 from)
    else err (text "Unknown string encoding special type")

unfoldable pub parse_string_encoded : Bytes → Outcome (Bytes × Bytes)
unfolding parse_length_encoding string_of
parse_string_encoded from =
    parse_length_encoding from >>= λ r. string_of r.0.kind r.0.size r.0.special r.1

-- Two strings: an auxiliary field, or a key and a value.
unfoldable pub parse_pair : Bytes → Outcome ((Bytes × Bytes) × Bytes)
unfolding parse_string_encoded
parse_pair from =
    parse_string_encoded from >>= λ k. parse_string_encoded k.1 >>= λ v. ok ((k.0, v.0), v.1)

unfoldable pub parse_entry : ℕ → Bytes → Outcome (Option Entry × Bytes)
unfolding parse_uint8 parse_pair
parse_entry kind from =
    if kind == 0
    then (parse_uint8 from >>= λ r. parse_pair r.1 >>= λ p.
        ok (some (record { key = p.0.0; value = p.0.1; expire_time = none }), p.1))
    else ok (none, from)
