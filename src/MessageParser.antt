-- ===== src/MessageParser.antt =====
-- MessageParser of src/message_parser.h and src/message_parser.cpp: an incremental parser, which
-- cuts a buffer of bytes into raw messages and builds messages from these.
pub mod Raw
pub mod Helper
pub mod Agrees
pub mod Depth
pub mod Extend
pub mod Rounds
pub mod Terminates
pub mod Shrinks
pub mod Chunks
pub mod Parses
pub mod RoundTrip
pub mod Contents
use build_your_own_redis.Prelude.{
  ℕ, zero, suc, ◌+◌, ◌*◌, ◌%◌, Bool, true, false, ◌&&◌, ◌||◌, Option, none, some, List, [], ◌∷◌,
  ◌++◌, ltb, ◌==◌, if◌then◌else◌, length, take, drop,
}
use build_your_own_redis.Text.{Bytes, text}
use build_your_own_redis.Text.Decimal.{ℤ, u64_mod, to_size, parse_int}
use build_your_own_redis.Message.{Message}
use build_your_own_redis.MessageParser.Raw.{Parsed, done, more, thrown, stuck, parse}

pub record Parser : Type 0 where
  pub buffer : Bytes
  pub raw_message_buffer : List Bytes
  pub length_encoded_message_expected : Option ℕ

-- `std::search` of the delimiter: the bytes before it and those behind it.
unfoldable pub split_crlf : Bytes → Option (Bytes × Bytes)
split_crlf [] = none
split_crlf (c ∷ []) = none
split_crlf (c ∷ d ∷ s) =
    let rest = split_crlf (d ∷ s) in
    if c == 13 && d == 10
    then some ([], s)
    else elim rest [ none ↦ none | some (l, r) ↦ some (c ∷ l, r) ]

-- What get_next_raw_message does: it returns true or false, it throws, or it makes an iterator
-- behind the end of the buffer.
pub data Next : Type 0 where
  ready : Parser → Next
  waits : Next
  fails : Bytes → Parser → Next
  out_of_range : Next

abbrev pub is_expected_type : ℕ → Bool
is_expected_type c = c == b'+' || c == b'-' || c == b':' || c == b'$' || c == b'*'

abbrev pub delim_size : Bool → ℕ
delim_size true = 0
delim_size false = 2

-- The contents of a bulk string; the sum of the sizes is a `std::size_t`.
unfoldable pub next_contents : Bool → ℕ → Parser → Next
next_contents is_sync size s =
    if ltb (length s.buffer) ((size + delim_size is_sync) % u64_mod)
    then waits
    else if ltb (length s.buffer) (size + delim_size is_sync)
    then out_of_range
    else ready (record {
      buffer = drop (size + delim_size is_sync) s.buffer;
      raw_message_buffer = s.raw_message_buffer ++ take size s.buffer ∷ [];
      length_encoded_message_expected = none;
    })

-- A line without its type byte has been read: the length of a bulk string is expected next.
unfoldable pub note_length : Bytes → Bytes → Parser → Next
note_length line digits s = elim (parse_int digits) [
  | none ↦ fails (text "Malformed length for array message: " ++ line) s
  | some n ↦ ready (record s { length_encoded_message_expected = some (to_size n) })
]

-- The line behind the type byte `c`
unfoldable pub next_line : ℕ → Bytes → Bytes → Parser → Next
unfolding note_length
next_line c line rest s =
    let t = record s { buffer = rest; raw_message_buffer = s.raw_message_buffer ++ line ∷ [] } in
    if c == b'$' then note_length line (drop 1 line) t else ready t

unfoldable pub next_type : Bytes → Parser → Next
unfolding next_line split_crlf
next_type [] s = waits
next_type (c ∷ b) s =
    if is_expected_type c
    then (elim (split_crlf (c ∷ b)) [ none ↦ waits | some (line, rest) ↦ next_line c line rest s ])
    else fails (text "Unknown message type: " ++ c ∷ []) s

-- MessageParser::get_next_raw_message on a buffer that is not empty
unfoldable pub get_next_raw_message : Bool → Parser → Next
unfolding next_contents next_type
get_next_raw_message is_sync s = elim s.length_encoded_message_expected [
  | some size ↦ next_contents is_sync size s
  | none ↦ next_type s.buffer s
]

-- What try_parse does: a message or none, an exception, an iterator out of range; `exhausted` is no
-- outcome of the source, its rounds ran out.
pub data Tried : Type 0 where
  got : Message → Parser → Tried
  nothing_yet : Parser → Tried
  threw : Bytes → Parser → Tried
  undefined_read : Tried
  exhausted : Tried

unfoldable pub after_parse : (Parser → Tried) → Parser → Parsed Message → Tried
after_parse again s (done m rest) = got m (record s { raw_message_buffer = rest })
after_parse again s more = again s
after_parse again s (thrown reason rest) = threw reason (record s { raw_message_buffer = rest })
after_parse again s stuck = exhausted

unfoldable pub after_next : (Parser → Tried) → ℕ → Bool → Parser → Next → Tried
unfolding after_parse
after_next again depth is_sync s (ready t) =
    after_parse again t (parse is_sync depth t.raw_message_buffer)
after_next again depth is_sync s waits = nothing_yet s
after_next again depth is_sync s (fails reason t) = threw reason t
after_next again depth is_sync s out_of_range = undefined_read

unfoldable pub is_empty : Bytes → Bool
is_empty [] = true
is_empty (c ∷ b) = false

-- The loop of try_parse
unfoldable pub rounds : ℕ → ℕ → Bool → Parser → Tried
unfolding after_next get_next_raw_message is_empty
rounds zero depth is_sync s = exhausted
rounds (suc n) depth is_sync s = elim (is_empty s.buffer) [
  | true ↦ nothing_yet s
  | false ↦ after_next (rounds n depth is_sync) depth is_sync s (get_next_raw_message is_sync s)
]

-- A round takes bytes or, at contents of size 0, is followed by one that does.
abbrev pub enough : Parser → ℕ
enough s = 2 * length s.buffer + 2

-- MessageParser::try_parse; `is_sync` where the talker expects a SyncResponse
unfoldable pub try_parse : Bool → Parser → Tried
unfolding rounds
try_parse is_sync s = rounds (enough s) (length s.raw_message_buffer + enough s) is_sync s

-- The constructor, on a buffer
abbrev pub on_buffer : Bytes → Parser
on_buffer b = record { buffer = b; raw_message_buffer = []; length_encoded_message_expected = none }
