-- ===== src/Command/Construct.antt =====
-- Command::construct: the message that carries a command to another server.
use build_your_own_redis.Prelude.{Option, none, some, List, [], ◌∷◌, ◌++◌, ℕ}
use build_your_own_redis.Text.{Bytes, text, to_upper_case}
use build_your_own_redis.Text.Decimal.{decimal}
use build_your_own_redis.Message.{Message, Messages, array, bulk_string, nil, cons}
use build_your_own_redis.Stream.Id.{
  InputStreamId, BoundStreamId, input_to_string, bound_to_string, read_to_string,
}
use build_your_own_redis.Stream.Value.{StreamPartValue}
use build_your_own_redis.Storage.Keyspace.{StreamsReadRequest}
use build_your_own_redis.Command.{
  Command, ping, echo, get, type, keys, set, info, replconf, psync, wait, config, xadd, xrange,
  xread,
}

-- An array of bulk strings.
unfoldable pub bulks : List Bytes → Messages
bulks [] = nil
bulks (s ∷ ss) = cons (bulk_string s) (bulks ss)

unfoldable pub px_parts : Option ℕ → List Bytes
px_parts none = []
px_parts (some ms) = text "PX" ∷ decimal ms ∷ []

-- The loop over the values of XADD.
unfoldable pub pair_parts : StreamPartValue → List Bytes
pair_parts [] = []
pair_parts ((k, v) ∷ rest) = k ∷ v ∷ pair_parts rest

unfoldable pub block_parts : Option ℕ → List Bytes
block_parts none = []
block_parts (some ms) = text "block" ∷ decimal ms ∷ []

-- The loop over the request of XREAD: each key with its identifier.
unfoldable pub stream_parts : StreamsReadRequest → List Bytes
stream_parts [] = []
stream_parts ((k, i) ∷ rest) = k ∷ read_to_string i ∷ stream_parts rest

-- The parts of the message of each command.
abbrev pub ping_parts : List Bytes
ping_parts = text "PING" ∷ []

abbrev pub echo_parts : Bytes → List Bytes
echo_parts s = text "ECHO" ∷ s ∷ []

abbrev pub get_parts : Bytes → List Bytes
get_parts key = text "GET" ∷ key ∷ []

abbrev pub type_parts : Bytes → List Bytes
type_parts key = text "TYPE" ∷ key ∷ []

abbrev pub keys_parts : Bytes → List Bytes
keys_parts arg = text "KEYS" ∷ arg ∷ []

abbrev pub set_parts : Bytes → Bytes → Option ℕ → List Bytes
set_parts key value expire_ms = text "SET" ∷ key ∷ value ∷ px_parts expire_ms

abbrev pub info_parts : List Bytes → List Bytes
info_parts args = text "INFO" ∷ args

abbrev pub replconf_parts : List Bytes → List Bytes
replconf_parts args = text "REPLCONF" ∷ args

abbrev pub psync_parts : List Bytes → List Bytes
psync_parts args = text "PSYNC" ∷ args

abbrev pub wait_parts : ℕ → ℕ → List Bytes
wait_parts replicas timeout_ms = text "WAIT" ∷ decimal replicas ∷ decimal timeout_ms ∷ []

abbrev pub config_parts : Bytes → List Bytes → List Bytes
config_parts action args = text "CONFIG" ∷ to_upper_case action ∷ args

abbrev pub xadd_parts : Bytes → InputStreamId → StreamPartValue → List Bytes
xadd_parts key stream_id values = text "XADD" ∷ key ∷ input_to_string stream_id ∷ pair_parts values

abbrev pub xrange_parts : Bytes → BoundStreamId → BoundStreamId → List Bytes
xrange_parts key left_id right_id =
    text "XRANGE" ∷ key ∷ bound_to_string left_id ∷ bound_to_string right_id ∷ []

abbrev pub xread_parts : StreamsReadRequest → Option ℕ → List Bytes
xread_parts request block_ms =
    text "XREAD" ∷ (block_parts block_ms ++ text "streams" ∷ stream_parts request)

unfoldable pub parts : Command → List Bytes
unfolding px_parts pair_parts block_parts stream_parts
parts ping = ping_parts
parts (echo s) = echo_parts s
parts (get key) = get_parts key
parts (type key) = type_parts key
parts (keys arg) = keys_parts arg
parts (set key value expire_ms) = set_parts key value expire_ms
parts (info args) = info_parts args
parts (replconf args) = replconf_parts args
parts (psync args) = psync_parts args
parts (wait replicas timeout_ms) = wait_parts replicas timeout_ms
parts (config action args) = config_parts action args
parts (xadd key stream_id values) = xadd_parts key stream_id values
parts (xrange key left_id right_id) = xrange_parts key left_id right_id
parts (xread request block_ms) = xread_parts request block_ms

unfoldable pub construct : Command → Message
unfolding parts bulks
construct c = array (bulks (parts c))
