-- ===== src/MessageParser/Raw.antt =====
-- ParseHelper of src/message_parser.cpp: a message from the raw messages at the front of a queue.
-- Raw messages that are taken are put back where a message is incomplete, so then nothing changes.
use build_your_own_redis.Prelude.{
  ℕ, zero, suc, Bool, true, false, Option, none, some, List, [], ◌∷◌, ◌++◌, ◌==◌, if◌then◌else◌,
}
use build_your_own_redis.Text.{Bytes, text}
use build_your_own_redis.Text.Decimal.{ℤ, pos, negsuc, parse_int}
use build_your_own_redis.Message.{
  Message, Messages, simple_string, simple_error, integer, bulk_string, sync_response, array, nil,
  cons,
}

-- A value and the raw messages behind it, no value yet, or an exception and what is left then;
-- `stuck` is no outcome of the source, its recursion ran out of depth.
pub data Parsed (A : Type 0) : Type 0 where
  done : A → List Bytes → Parsed A
  more : Parsed A
  thrown : Bytes → List Bytes → Parsed A
  stuck : Parsed A

abbrev pub and_then : {A B : Type 0} → Parsed A → (A → List Bytes → Parsed B) → Parsed B
and_then (done a rest) f = f a rest
and_then more f = more
and_then (thrown reason rest) f = thrown reason rest
and_then stuck f = stuck

-- The loop over the elements of an array.
unfoldable pub parse_elements : (List Bytes → Parsed Message) → ℕ → List Bytes → Parsed Messages
parse_elements parse_next zero raw = done nil raw
parse_elements parse_next (suc n) raw =
    and_then (parse_next raw)
      λ m rest. and_then (parse_elements parse_next n rest) λ ms rest'. done (cons m ms) rest'

unfoldable pub parse_integer : Bytes → Option ℤ → List Bytes → Parsed Message
parse_integer line (some n) raw = done (integer n) raw
parse_integer line none raw = thrown (text "Malformed integer message: " ++ line) raw

abbrev pub bulk : Bool → Bytes → Message
bulk true s = sync_response s
bulk false s = bulk_string s

-- The contents stand in the next raw message; the length -1 has none.
unfoldable pub parse_contents : Bool → Bytes → Option ℤ → List Bytes → Parsed Message
parse_contents is_sync line none raw =
    thrown (text "Malformed length for bulk string message: " ++ line) raw
parse_contents is_sync line (some (negsuc zero)) raw = done (bulk is_sync []) raw
parse_contents is_sync line (some n) [] = more
parse_contents is_sync line (some n) (s ∷ raw) = done (bulk is_sync s) raw

unfoldable pub parse_array :
    (List Bytes → Parsed Message) → Bytes → Option ℤ → List Bytes → Parsed Message
unfolding parse_elements
parse_array parse_next line none raw =
    thrown (text "Malformed length for array message: " ++ line) raw
parse_array parse_next line (some (negsuc n)) raw = done (array nil) raw
parse_array parse_next line (some (pos n)) raw =
    and_then (parse_elements parse_next n raw) λ ms rest. done (array ms) rest

-- The type of a raw message is its first byte.
unfoldable pub parse_line :
    (List Bytes → Parsed Message) → Bool → Bytes → List Bytes → Parsed Message
unfolding parse_integer parse_contents parse_array
parse_line parse_next is_sync [] raw = thrown (text "Unknown message type: ") raw
parse_line parse_next is_sync (c ∷ s) raw =
    if c == b'+'
    then done (simple_string s) raw
    else if c == b'-'
    then done (simple_error s) raw
    else if c == b':'
    then parse_integer (c ∷ s) (parse_int s) raw
    else if c == b'$'
    then parse_contents is_sync (c ∷ s) (parse_int s) raw
    else if c == b'*'
    then parse_array parse_next (c ∷ s) (parse_int s) raw
    else thrown (text "Unknown message type: " ++ c ∷ s) raw

-- ParseHelper::parse. The elements of an array are parsed with no SyncResponse expected.
unfoldable pub parse : Bool → ℕ → List Bytes → Parsed Message
unfolding parse_line
parse is_sync depth [] = more
parse is_sync zero (line ∷ raw) = stuck
parse is_sync (suc depth) (line ∷ raw) = parse_line (parse false depth) is_sync line raw
