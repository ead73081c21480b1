-- ===== src/Command.antt =====
-- The commands of src/command.h and src/command_storage.h: one constructor for each class, with the
-- fields of the class.
pub mod Parse
pub mod Construct
pub mod RoundTrip
use build_your_own_redis.Prelude.{ℕ, Option, List}
use build_your_own_redis.Text.{Bytes}
use build_your_own_redis.Stream.Id.{InputStreamId, BoundStreamId}
use build_your_own_redis.Stream.Value.{StreamPartValue}
use build_your_own_redis.Storage.Keyspace.{StreamsReadRequest}

-- CommandType
pub data CommandType : Type 0 where
  ping_type echo_type set_type get_type info_type replconf_type psync_type wait_type keys_type
        config_type type_type xadd_type xrange_type xread_type :
      CommandType

-- An `expire_ms` of SET is an `int` above 0, see SetCommand::try_parse.
pub data Command : Type 0 where
  ping : Command
  echo get type keys : Bytes → Command
  set : Bytes → Bytes → Option ℕ → Command
  info replconf psync : List Bytes → Command
  wait : ℕ → ℕ → Command
  config : Bytes → List Bytes → Command
  xadd : Bytes → InputStreamId → StreamPartValue → Command
  xrange : Bytes → BoundStreamId → BoundStreamId → Command
  xread : StreamsReadRequest → Option ℕ → Command

-- Command::type
unfoldable pub command_type : Command → CommandType
command_type ping = ping_type
command_type (echo data_) = echo_type
command_type (get key) = get_type
command_type (type key) = type_type
command_type (keys arg) = keys_type
command_type (set key value expire_ms) = set_type
command_type (info args) = info_type
command_type (replconf args) = replconf_type
command_type (psync args) = psync_type
command_type (wait replicas timeout_ms) = wait_type
command_type (config action args) = config_type
command_type (xadd key stream_id values) = xadd_type
command_type (xrange key left_id right_id) = xrange_type
command_type (xread request block_ms) = xread_type
