-- ===== src/Command/Parse.antt =====
-- Command::try_parse and the try_parse of each command (src/command.cpp, src/command_storage.cpp).
-- `args` are the elements behind the name of the command.
pub mod Texts
pub mod Numbers
pub mod Streams
use build_your_own_redis.Prelude.{
  ℕ, zero, suc, ◌/◌, String, ◌||◌, Option, none, some, List, [], ◌∷◌, ◌++◌, ltb, ◌==◌,
  if◌then◌else◌, length,
}
use build_your_own_redis.Text.{Bytes, text, same, to_lower_case}
use build_your_own_redis.Text.Decimal.{ℤ, pos, to_size, decimal, parse_int, parse_uint64}
use build_your_own_redis.Outcome.{Outcome, ok, err, undefined, ◌>>=◌}
use build_your_own_redis.Message.{Message, array, bulk_string, to_list}
use build_your_own_redis.Stream.Id.{
  ReadStreamId, input_from_string, bound_from_string, read_from_string,
}
use build_your_own_redis.Stream.Value.{StreamPartValue}
use build_your_own_redis.Storage.Keyspace.{StreamsReadRequest}
use build_your_own_redis.Command.{
  Command, ping, echo, get, type, keys, set, info, replconf, psync, wait, config, xadd, xrange,
  xread,
}
use build_your_own_redis.Command.Parse.Texts.{
  fail, bulk_or, fail_size, parse_echo, parse_get, parse_type, parse_keys, parse_texts, lower_all,
  parse_info, parse_replconf, parse_psync, parse_config,
}
use build_your_own_redis.Command.Parse.Numbers.{
  int_or, parse_timeout, parse_wait, escape, quoted, positive_int, px_value, parse_params,
  parse_set,
}
use build_your_own_redis.Command.Parse.Streams.{
  parse_pairs, parse_xadd, parse_xrange, parse_ids, pair_up, parse_streams, number_or, parse_rest,
  block_value, parse_options, parse_xread,
}

unfoldable pub dispatch : Bytes → List Message → Outcome Command
dispatch name args =
    if same name (text "ping")
    then ok ping
    else if same name (text "echo")
    then parse_echo args
    else if same name (text "set")
    then parse_set args
    else if same name (text "get")
    then parse_get args
    else if same name (text "info")
    then parse_info args
    else if same name (text "replconf")
    then parse_replconf args
    else if same name (text "psync")
    then parse_psync args
    else if same name (text "wait")
    then parse_wait args
    else if same name (text "keys")
    then parse_keys args
    else if same name (text "config")
    then parse_config args
    else if same name (text "type")
    then parse_type args
    else if same name (text "xadd")
    then parse_xadd args
    else if same name (text "xrange")
    then parse_xrange args
    else if same name (text "xread")
    then parse_xread args
    else fail "unknown command"

abbrev pub parse_elements : List Message → Outcome Command
parse_elements [] = fail "unknown command"
parse_elements (m ∷ args) = bulk_or "unknown command" m >>= λ s. dispatch (to_lower_case s) args

-- Command::try_parse
unfoldable pub try_parse : Message → Outcome Command
try_parse (array ms) = parse_elements (to_list ms)
try_parse _ = fail "unknown command"
