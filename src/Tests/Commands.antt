-- ===== src/Tests/Commands.antt =====
-- Texts, identifiers and commands at concrete inputs.
use build_your_own_redis.Prelude.{◌≡◌, ◌≢◌, false, none, some, [], ◌∷◌, arith}
use build_your_own_redis.Text.{text}
use build_your_own_redis.Text.Decimal.{decimal}
use build_your_own_redis.Outcome.{ok}
use build_your_own_redis.Stream.Id.{StreamId, InRange, ReadStreamId, to_string, read_to_string}
use build_your_own_redis.Stream.Value.{id_of}
use build_your_own_redis.Command.{Command, set, xread}
use build_your_own_redis.Command.Parse.{try_parse}
use build_your_own_redis.Command.Construct.{construct}
use build_your_own_redis.Command.RoundTrip.{try_parse-construct, xread_two_streams}

abbrev fits : InRange (id_of 1526919030474 55)
fits = record { ms_fits = omega arith; id_fits = omega arith }

abbrev key_with_lifetime : Command
key_with_lifetime = set (text "key") (text "value") (some 100)

try_parse-construct_example : try_parse (construct key_with_lifetime) ≡ ok key_with_lifetime
try_parse-construct_example = try_parse-construct key_with_lifetime (omega arith, omega arith)

abbrev read_above : StreamId → ReadStreamId
read_above i = record { base = i; is_next_expected = false }

other_key : text "b" ≢ read_to_string (read_above (id_of 0 1))
unfolding text read_to_string to_string decimal
other_key p = ground arith

xread_two_streams_example :
    try_parse (
      construct
        (xread ((text "a", read_above (id_of 0 1)) ∷ (text "b", read_above (id_of 0 2)) ∷ []) none))
    ≢ ok (xread ((text "a", read_above (id_of 0 1)) ∷ (text "b", read_above (id_of 0 2)) ∷ []) none)
xread_two_streams_example =
    xread_two_streams (text "a") (text "b") (read_above (id_of 0 1)) (read_above (id_of 0 2))
      other_key
