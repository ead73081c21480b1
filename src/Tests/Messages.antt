-- ===== src/Tests/Messages.antt =====
-- The parser of messages at concrete inputs.
use mathlib.Core.List.{cons-ne-nil}
use build_your_own_redis.Prelude.{◌≡◌, refl, true, false, List, [], ◌∷◌, ◌++◌, arith, ◌-◌, ◌^◌}
use build_your_own_redis.Text.{Bytes, text}
use build_your_own_redis.Message.{
  Message, bulk_string, simple_string, sync_response, array, cons, nil, size, to_string,
}
use build_your_own_redis.Text.Decimal.{parse_int}
use build_your_own_redis.MessageParser.Raw.{parse}
use build_your_own_redis.MessageParser.Helper
use build_your_own_redis.MessageParser.Agrees.{Agrees, parse-Agrees}
use build_your_own_redis.MessageParser.{
  got, nothing_yet, threw, undefined_read, on_buffer, try_parse,
}
use build_your_own_redis.MessageParser.RoundTrip.{try_parse-to_string}
use build_your_own_redis.MessageParser.Contents.{try_parse-sync_response, try_parse-null_bulk}
use build_your_own_redis.MessageParser.Rounds.{expecting}
use build_your_own_redis.MessageParser.Chunks.{IsSendable}

-- The PING of a client, with the line break of an inline contents
abbrev ping : Message
ping = array (cons (bulk_string (b'P' ∷ 13 ∷ 10 ∷ [])) (cons (simple_string (b'x' ∷ [])) nil))

ping-IsSendable : IsSendable ping
unfolding IsSendable
ping-IsSendable =
    (unfold size in omega arith, ((cons-ne-nil _ _, omega arith), (((λ e. ground arith), tt), tt)))

try_parse-to_string_example :
    try_parse false (on_buffer (to_string ping ++ b'*' ∷ [])) ≡ got ping (on_buffer (b'*' ∷ []))
try_parse-to_string_example = try_parse-to_string ping (b'*' ∷ []) ping-IsSendable

try_parse-sync_response_example :
    try_parse true (on_buffer (to_string (sync_response (13 ∷ 10 ∷ 0 ∷ [])) ++ b'*' ∷ []))
    ≡ got (sync_response (13 ∷ 10 ∷ 0 ∷ [])) (on_buffer (b'*' ∷ []))
try_parse-sync_response_example =
    try_parse-sync_response (13 ∷ 10 ∷ 0 ∷ []) (b'*' ∷ []) (cons-ne-nil _ _) (omega arith)

try_parse-null_bulk_example :
    (try_parse false (on_buffer (to_string (bulk_string []) ++ []))
      ≡ got (bulk_string []) (expecting [] [] (2 ^ 64 - 1)))
    × (try_parse false (expecting (b'*' ∷ []) [] (2 ^ 64 - 1)) ≡ undefined_read)
try_parse-null_bulk_example = try_parse-null_bulk [] b'*' [] (omega arith)

-- An integer that is not a number, an unknown type, a line that has not ended
threw_integer :
    try_parse false (on_buffer (text ":x\r\n+"))
    ≡ threw (text "Malformed integer message: :x") (on_buffer (text "+"))
unfolding try_parse text parse parse_int
threw_integer = refl

threw_type :
    try_parse false (on_buffer (text "PING\r\n"))
    ≡ threw (text "Unknown message type: P") (on_buffer (text "PING\r\n"))
unfolding try_parse text
threw_type = refl

waits_line : try_parse false (on_buffer (text "+OK\r")) ≡ nothing_yet (on_buffer (text "+OK\r"))
unfolding try_parse text
waits_line = refl

-- An ECHO whose text has not arrived
abbrev half_echo : List Bytes
half_echo = text "*2" ∷ text "$4" ∷ text "ECHO" ∷ text "$2" ∷ []

parse-Agrees_example :
    Agrees (parse false 5 half_echo) half_echo (Helper.parse false 5 half_echo [])
parse-Agrees_example = parse-Agrees false 5 half_echo
