-- ===== src/RdbParser/Load.antt =====
-- The sections of a file in src/rdb_parser.cpp: the loops of parse and parse_db, and RDBParse.
pub mod Takes
pub mod Terminates
pub mod File
pub mod Records
pub mod RoundTrip
use build_your_own_redis.Prelude.{
  ℕ, zero, suc, ◌+◌, ◌-◌, ◌*◌, ◌^◌, Bool, true, false, Option, none, some, List, [], ◌∷◌, ◌++◌, ltb,
  leb, ◌==◌, if◌then◌else◌, length,
}
use build_your_own_redis.Text.{Bytes, text, same}
use build_your_own_redis.Text.Decimal.{ℤ, pos, negsuc, parse_int}
use build_your_own_redis.Outcome.{Outcome, ok, err, undefined, ◌>>=◌}
use build_your_own_redis.RdbParser.{
  OpCode, op_aux, op_selectdb, op_expiretime, op_expiretimems, op_resizedb, op_eof, op_value,
  LengthEncoding, Entry, Restored, parse_string, parse_uint8, peek_uint8, parse_unsigned, to_hex,
  parse_op_code, parse_length_encoding, parse_pair, parse_entry,
}

-- What is left of the stream, the calls of `restore`, and the number of entries met
pub record Reader : Type 0 where
  pub from : Bytes
  pub restored : List Restored
  pub met : ℕ

-- How far a file is read: on to the next section, to its end, or to an exception or undefined
-- behaviour with the calls made before; `exhausted` is no outcome of the source, its loops ran out.
pub data Progress : Type 0 where
  going : Reader → Progress
  finished : Reader → Progress
  failed : Bytes → List Restored → Progress
  broken : List Restored → Progress
  exhausted : Progress

abbrev pub reading :
    {A : Type 0} → Outcome (A × Bytes) → Reader → (A → Reader → Progress) → Progress
reading (ok r) s next = next r.0 (record s { from = r.1 })
reading (err reason) s next = failed reason s.restored
reading undefined s next = broken s.restored

-- A time point of milliseconds, which are an `int64_t`, in nanoseconds
unfoldable pub time_of_ms : ℕ → Outcome ℤ
time_of_ms m =
    if ltb m (2 ^ 63)
    then (if ltb (m * 1_000_000) (2 ^ 63) then ok (pos (m * 1_000_000)) else undefined)
    else if leb ((2 ^ 64 - m) * 1_000_000) (2 ^ 63)
    then ok (negsuc ((2 ^ 64 - m) * 1_000_000 - 1))
    else undefined

-- The entry behind an expire time must be there.
abbrev pub expect_entry :
    Outcome ℤ → Outcome (Option Entry × Bytes) → Outcome (Option Entry × Bytes)
expect_entry at o = o >>= λ r. elim r.0 [
  | none ↦ err (text "Expected entry")
  | some e ↦ at >>= λ t. ok (some (record e { expire_time = some t }), r.1)
]

unfoldable pub entry_in_seconds : Bytes → Outcome (Option Entry × Bytes)
unfolding parse_uint8 parse_unsigned peek_uint8 parse_entry
entry_in_seconds from = parse_uint8 from >>= λ c. parse_unsigned 4 c.1 >>= λ t.
    expect_entry (ok (pos (t.0 * 1_000_000_000))) (parse_entry (peek_uint8 t.1) t.1)

unfoldable pub entry_in_ms : Bytes → Outcome (Option Entry × Bytes)
unfolding parse_uint8 parse_unsigned peek_uint8 parse_entry time_of_ms
entry_in_ms from = parse_uint8 from >>= λ c.
    parse_unsigned 8 c.1 >>= λ t. expect_entry (time_of_ms t.0) (parse_entry (peek_uint8 t.1) t.1)

-- The three kinds of entries, by the byte that is peeked
unfoldable pub next_entry : ℕ → Bytes → Outcome (Option Entry × Bytes)
unfolding entry_in_seconds entry_in_ms
next_entry next from =
    if next == 253
    then entry_in_seconds from
    else if next == 252
    then entry_in_ms from
    else parse_entry next from

-- The call of `restore` for an entry, unless its time has passed
unfoldable pub restore_at : ℕ → Entry → List Restored
restore_at now e = elim e.expire_time [
  | none ↦ record { key = e.key; value = e.value; expire_time = none } ∷ []
  | some (pos t) ↦
      if ltb now t then record { key = e.key; value = e.value; expire_time = some t } ∷ [] else []
  | some (negsuc t) ↦ []
]

unfoldable pub meet : (ℕ → ℕ) → Entry → Reader → Reader
unfolding restore_at
meet clock e s = record s { restored = s.restored ++ restore_at (clock s.met) e; met = suc s.met }

unfoldable pub after_entry : (Reader → Progress) → (ℕ → ℕ) → Option Entry → Reader → Progress
unfolding meet
after_entry again clock none s = going s
after_entry again clock (some e) s = again (meet clock e s)

-- The loop of parse_db; `clock n` is the time that is read after the entry number n.
unfoldable pub parse_entries : ℕ → (ℕ → ℕ) → Reader → Progress
unfolding peek_uint8 next_entry after_entry
parse_entries zero clock s = exhausted
parse_entries (suc n) clock s =
    reading (next_entry (peek_uint8 s.from) s.from) s (after_entry (parse_entries n clock) clock)

-- Each entry takes bytes.
unfoldable pub all_entries : (ℕ → ℕ) → Reader → Progress
unfolding parse_entries
all_entries clock s = parse_entries (suc (length s.from)) clock s

-- The operation behind the number of the database is consumed, whatever it is.
unfoldable pub parse_sizes : (Reader → Progress) → OpCode → Reader → Progress
unfolding parse_length_encoding
parse_sizes next op_resizedb s =
    reading (parse_length_encoding s.from) s
      λ a t. reading (parse_length_encoding t.from) t λ b u. next u
parse_sizes next o s = next s

unfoldable pub parse_db : (ℕ → ℕ) → Reader → Progress
unfolding all_entries parse_sizes parse_uint8 parse_op_code
parse_db clock s =
    reading (parse_uint8 s.from) s
      λ db t. reading (parse_op_code t.from) t λ o u. parse_sizes (all_entries clock) o u

abbrev pub at_least : ℕ → ℤ → Bool
at_least n (pos v) = leb n v
at_least n (negsuc v) = false

unfoldable pub checksum : ℤ → Reader → Progress
unfolding parse_string
checksum version s =
    if at_least 5 version then reading (parse_string 8 s.from) s (λ c t. finished t) else finished s

abbrev pub go_on : (Reader → Progress) → Progress → Progress
go_on next (going s) = next s
go_on next p = p

unfoldable pub parse_section : (Reader → Progress) → (ℕ → ℕ) → ℤ → OpCode → Reader → Progress
unfolding parse_pair parse_db checksum to_hex
parse_section again clock version op_aux s = reading (parse_pair s.from) s λ p t. again t
parse_section again clock version op_selectdb s = go_on again (parse_db clock s)
parse_section again clock version op_eof s = checksum version s
parse_section again clock version o s =
    failed (text "Unexpected section 0x" ++ to_hex (op_value o)) s.restored

-- The loop of RDBParser::parse
unfoldable pub parse_sections : ℕ → (ℕ → ℕ) → ℤ → Reader → Progress
unfolding parse_section parse_op_code
parse_sections zero clock version s = exhausted
parse_sections (suc n) clock version s =
    reading (parse_op_code s.from) s (parse_section (parse_sections n clock version) clock version)

unfoldable pub with_version : (ℕ → ℕ) → Option ℤ → Reader → Progress
unfolding parse_sections
with_version clock none s = failed (text "Missing rdb version") s.restored
with_version clock (some v) s = parse_sections (suc (length s.from)) clock v s

unfoldable pub with_magic : (ℕ → ℕ) → Bytes → Reader → Progress
unfolding with_version parse_string parse_int
with_magic clock magic s =
    if same magic (text "REDIS")
    then reading (parse_string 4 s.from) s (λ v. with_version clock (parse_int v))
    else failed (text "Missing magic") s.restored

-- RDBParse on a stream; `is_good` where the stream has not failed yet
unfoldable pub rdb_parse : Bool → (ℕ → ℕ) → Bytes → Progress
unfolding with_magic parse_string
rdb_parse false clock b = failed (text "Invalid input stream") []
rdb_parse true clock b =
    reading (parse_string 5 b) (record { from = b; restored = []; met = 0 }) (with_magic clock)
