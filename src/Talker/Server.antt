-- ===== src/Talker/Server.antt =====
-- ServerTalker of src/server_talker.h and src/server_talker.cpp: the answers of the server to the
-- commands of a client.
pub mod Listen
pub mod Session
pub mod Answers
pub mod Connection
use build_your_own_redis.Prelude.{
  ℕ, Bool, true, false, Option, none, some, List, [], ◌∷◌, ◌++◌, if◌then◌else◌,
}
use build_your_own_redis.Text.{Bytes, text, same, to_lower_case}
use build_your_own_redis.Text.Decimal.{decimal_int}
use build_your_own_redis.Outcome.{Outcome, ok, err, undefined}
use build_your_own_redis.Message.{
  Message, simple_string, simple_error, bulk_string, sync_response, array, from_list,
}
use build_your_own_redis.Command.{
  Command, ping, echo, set, get, info, replconf, psync, wait, keys, config, type, xadd, xrange,
  xread,
}
use build_your_own_redis.Command.Parse.{try_parse}
use build_your_own_redis.Stream.Id.{InputStreamId, to_string}
use build_your_own_redis.Stream.Value.{no_error, Entry, StreamPartValue}
use build_your_own_redis.Storage
use build_your_own_redis.Storage.Keyspace.{
  Keyspace, type_to_string, error_to_string, StreamsReadRequest, StreamsReadResult,
}
use build_your_own_redis.Storage.Blocking.{StorageState}
use build_your_own_redis.Middleware
use build_your_own_redis.Middleware.Replicas.{
  Middleware, set_and_push, add_replica, remove_replica, replica_set_state, write,
}
use build_your_own_redis.Middleware.WaitList.{wait_for, replica_process_conf}
use build_your_own_redis.Server.{ServerInfo, is_replica, info_to_string, get_config_value}

-- What the talkers of the clients share. The calls of all slots and all answers stand in
-- `middleware.sent`, in their order. The readers that wait are those of `readers`; the items of the
-- storage are those of the middleware, so the ones in `readers` are not used.
pub record World : Type 0 where
  pub info : ServerInfo
  pub middleware : Middleware
  pub readers : StorageState

-- A talker; `slot` stands for the address of its slot, which is called to answer later.
pub record ServerTalker : Type 0 where
  pub slot : ℕ
  pub replica_id : Option ℕ

-- What listen does: it returns, it throws with what it changed before, or its behaviour is undefined.
pub data Heard : Type 0 where
  heard : ServerTalker → World → Heard
  threw : Bytes → ServerTalker → World → Heard
  undefined_there : Heard

-- What the source reads of the file system, and of a library: the file of the database in a
-- directory under a name, if there is one, and the decoder of base64.
pub record Outside : Type 0 where
  pub file : Bytes → Bytes → Option Bytes
  pub base64_decode : Bytes → Bytes

-- next_say, of a talker and of its slot
abbrev pub say : ℕ → Message → World → World
say slot m w = record w {
  middleware = record w.middleware { sent = w.middleware.sent ++ (slot, m) ∷ [] };
}

unfoldable pub bulk_strings : List Bytes → List Message
bulk_strings [] = []
bulk_strings (s ∷ ss) = bulk_string s ∷ bulk_strings ss

-- The fields of an entry, the entry and a list of entries as messages
unfoldable pub values_to_messages : StreamPartValue → List Message
values_to_messages [] = []
values_to_messages ((key, value) ∷ values) =
    bulk_string key ∷ bulk_string value ∷ values_to_messages values

unfoldable pub entries_to_messages : List Entry → List Message
unfolding values_to_messages
entries_to_messages [] = []
entries_to_messages ((id, values) ∷ es) =
    array
      (from_list (bulk_string (to_string id) ∷ array (from_list (values_to_messages values)) ∷ []))
    ∷ entries_to_messages es

unfoldable pub streams_to_messages : StreamsReadResult → List Message
unfolding entries_to_messages
streams_to_messages [] = []
streams_to_messages ((stream_id, es) ∷ result) =
    array (from_list (bulk_string stream_id ∷ array (from_list (entries_to_messages es)) ∷ []))
    ∷ streams_to_messages result

unfoldable pub config_to_messages : List Bytes → ServerInfo → List Message
unfolding get_config_value
config_to_messages [] i = []
config_to_messages (key ∷ rest) i = elim (get_config_value key i) [
  | none ↦ config_to_messages rest i
  | some value ↦ bulk_string key ∷ bulk_string value ∷ config_to_messages rest i
]

abbrev pub default_parts : List Bytes
default_parts = text "server" ∷ text "replication" ∷ []

-- The parts of INFO: `default` stands for two of them, and no argument for `default`.
unfoldable pub parts_of : List Bytes → List Bytes
parts_of [] = []
parts_of (arg ∷ args) =
    let rest = parts_of args in
    if same arg (text "default") then default_parts ++ rest else arg ∷ rest

abbrev pub info_parts : List Bytes → List Bytes
info_parts [] = default_parts
info_parts (arg ∷ args) = parts_of (arg ∷ args)

-- The answers of Storage::xread become messages to the slots that they call.
unfoldable pub call_slots : List (ℕ × StreamsReadResult) → World → World
unfolding streams_to_messages
call_slots [] w = w
call_slots ((slot, result) ∷ answered) w =
    call_slots answered (say slot (array (from_list (streams_to_messages result))) w)

-- A call of the storage with its readers
abbrev pub blocking : World → StorageState
blocking w = record w.readers { items = w.middleware.storage; answered = [] }

unfoldable pub put_back : StorageState → World → World
unfolding call_slots
put_back s w =
    call_slots s.answered
      (record w { readers = s; middleware = record w.middleware { storage = s.items } })

abbrev pub empty_rdb_file : Bytes
empty_rdb_file =
    text
      "UkVESVMwMDEx+glyZWRpcy12ZXIFNy4yLjD6CnJlZGlzLWJpdHPAQPoFY3RpbWXCbQi8ZfoIdXNlZC1tZW3CsMQQAPoIYW9mLWJhc2XAAP/wbjv+wP9aog=="
