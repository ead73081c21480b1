-- ===== src/Talker/Server/Listen.antt =====
-- ServerTalker::listen of src/server_talker.cpp, with a function for each branch that has tests of its
-- own.
use build_your_own_redis.Prelude.{
  ℕ, Bool, true, false, Option, none, some, List, [], ◌∷◌, ◌++◌, if◌then◌else◌,
}
use build_your_own_redis.Text.{Bytes, text, same, to_lower_case}
use build_your_own_redis.Text.Decimal.{decimal_int}
use build_your_own_redis.Outcome.{Outcome, ok, err, undefined}
use build_your_own_redis.Message.{
  Message, simple_string, simple_error, bulk_string, sync_response, array, from_list,
}
use build_your_own_redis.Command.{
  Command, ping, echo, set, get, info, replconf, psync, wait, keys, config, type, xadd, xrange,
  xread,
}
use build_your_own_redis.Command.Parse.{try_parse}
use build_your_own_redis.Stream.Id.{InputStreamId, to_string}
use build_your_own_redis.Stream.Value.{no_error, Entry, StreamPartValue}
use build_your_own_redis.Storage
use build_your_own_redis.Storage.Keyspace.{
  Keyspace, type_to_string, error_to_string, StreamsReadRequest, StreamsReadResult,
}
use build_your_own_redis.Storage.Blocking.{StorageState}
use build_your_own_redis.Middleware
use build_your_own_redis.Middleware.Replicas.{
  Middleware, set_and_push, add_replica, remove_replica, replica_set_state, write,
}
use build_your_own_redis.Middleware.WaitList.{wait_for, replica_process_conf}
use build_your_own_redis.Server.{ServerInfo, is_replica, info_to_string}
use build_your_own_redis.Talker.Server.{
  World, ServerTalker, Heard, Outside, say, bulk_strings, entries_to_messages, config_to_messages,
  parts_of, info_parts, blocking, put_back, empty_rdb_file, heard, threw, undefined_there,
}

unfoldable pub hear_set : ℕ → Bytes → Bytes → Option ℕ → ServerTalker → World → Heard
hear_set now key value expire_ms t w =
    if is_replica w.info
    then heard t (say t.slot (simple_error (text "cannot write: replica mode")) w)
    else heard t (
        say t.slot (simple_string (text "OK"))
          (record w { middleware = set_and_push now key value expire_ms w.middleware }))

unfoldable pub hear_get : ℕ → Bytes → ServerTalker → World → Heard
hear_get now key t w =
    let (m, answer) = Middleware.Replicas.get now key w.middleware in
    heard t (
      say t.slot (elim answer [ none ↦ bulk_string [] | some value ↦ bulk_string value ])
        (record w { middleware = m }))

unfoldable pub hear_config : Bytes → List Bytes → ServerTalker → World → Heard
unfolding bulk_strings config_to_messages
hear_config action args t w =
    if same (to_lower_case action) (text "get")
    then heard t (say t.slot (array (from_list (config_to_messages args w.info))) w)
    else heard t (say t.slot (simple_error (text "unknown action for config command")) w)

-- The replica is added at its first REPLCONF.
unfoldable pub with_replica : ServerTalker → World → ServerTalker × World
with_replica t w = elim t.replica_id [
  | some id ↦ (t, w)
  | none ↦
      let (m, id) = add_replica t.slot w.middleware in
      (record t { replica_id = some id }, record w { middleware = m })
]

unfoldable pub confirm : ServerTalker → World → Outcome (Middleware × Bool) → Heard
confirm t w (ok (m, true)) =
    heard t (say t.slot (simple_string (text "OK")) (record w { middleware = m }))
confirm t w (ok (m, false)) = heard t (record w { middleware = m })
confirm t w (err reason) = threw reason t w
confirm t w undefined = undefined_there

abbrev pub replica_id_of : ServerTalker → ℕ
replica_id_of t = elim t.replica_id [ none ↦ 0 | some id ↦ id ]

unfoldable pub hear_replconf : List Bytes → ServerTalker → World → Heard
unfolding with_replica confirm
hear_replconf args t w =
    let (u, v) = with_replica t w in
    confirm u v (replica_process_conf (replica_id_of u) args v.middleware)

unfoldable pub full_resync : ServerInfo → Bytes
full_resync i =
    text "FULLRESYNC" ++ (32 ∷ i.master_replid) ++ (32 ∷ decimal_int i.master_repl_offset)

unfoldable pub file_of : Outside → ServerInfo → Bytes
file_of outside i = elim (outside.file i.dir i.dbfilename) [
  | none ↦ outside.base64_decode empty_rdb_file
  | some contents ↦ contents
]

-- A PSYNC with no REPLCONF before it throws behind its answers.
unfoldable pub hear_psync : Outside → ServerTalker → World → Heard
unfolding full_resync file_of
hear_psync outside t w =
    let v =
      say t.slot (sync_response (file_of outside w.info))
        (say t.slot (simple_string (full_resync w.info)) w) in
    elim t.replica_id [
      | none ↦ threw (text "bad optional access") t v
      | some id ↦ heard t (record v { middleware = replica_set_state id write v.middleware })
    ]

unfoldable pub hear_xadd :
    ℕ → Bytes → InputStreamId → StreamPartValue → ServerTalker → World → Heard
unfolding put_back
hear_xadd now key id values t w =
    let r = Storage.Keyspace.xadd now key id values w.middleware.storage in
    let v = put_back (Storage.Blocking.xadd now key id values (blocking w)) w in
    heard t (
      say t.slot
        (elim r.error [
          | no_error ↦ bulk_string (to_string r.id)
          | _ ↦ simple_error (error_to_string r.error)
        ])
        v)

unfoldable pub hear_entries : ServerTalker → World → Outcome (List Entry) → Heard
unfolding entries_to_messages
hear_entries t w (ok es) = heard t (say t.slot (array (from_list (entries_to_messages es))) w)
hear_entries t w (err reason) = threw reason t w
hear_entries t w undefined = undefined_there

unfoldable pub hear_readers : ServerTalker → World → Outcome StorageState → Heard
unfolding put_back
hear_readers t w (ok s) = heard t (put_back s w)
hear_readers t w (err reason) = threw reason t w
hear_readers t w undefined = undefined_there

unfoldable pub obey : Outside → ℕ → Command → ServerTalker → World → Heard
unfolding bulk_strings hear_set hear_get hear_config hear_replconf hear_psync hear_xadd hear_entries
    hear_readers parts_of
obey outside now ping t w = heard t (say t.slot (simple_string (text "PONG")) w)
obey outside now (echo data_) t w = heard t (say t.slot (bulk_string data_) w)
obey outside now (set key value expire_ms) t w = hear_set now key value expire_ms t w
obey outside now (get key) t w = hear_get now key t w
obey outside now (type key) t w =
    heard t
      (say t.slot (bulk_string (type_to_string (Storage.Keyspace.type key w.middleware.storage))) w)
obey outside now (keys arg) t w = heard t (
    say t.slot (array (from_list (bulk_strings (Storage.Keyspace.keys arg w.middleware.storage))))
      w)
obey outside now (config action args) t w = hear_config action args t w
obey outside now (info args) t w =
    heard t (say t.slot (bulk_string (info_to_string (info_parts args) w.info)) w)
obey outside now (replconf args) t w = hear_replconf args t w
obey outside now (psync args) t w = hear_psync outside t w
obey outside now (wait replicas timeout_ms) t w =
    heard t (record w { middleware = wait_for replicas timeout_ms t.slot w.middleware })
obey outside now (xadd key id values) t w = hear_xadd now key id values t w
obey outside now (xrange key left_id right_id) t w =
    hear_entries t w (Storage.Keyspace.xrange key left_id right_id w.middleware.storage)
obey outside now (xread request block_ms) t w =
    hear_readers t w (Storage.Blocking.xread request block_ms t.slot (blocking w))

-- A message that is no command is answered with the reason.
unfoldable pub hear_parsed : Outside → ℕ → Outcome Command → ServerTalker → World → Heard
unfolding obey
hear_parsed outside now (ok c) t w = obey outside now c t w
hear_parsed outside now (err reason) t w = heard t (say t.slot (simple_error reason) w)
hear_parsed outside now undefined t w = undefined_there

-- ServerTalker::listen
unfoldable pub listen : Outside → ℕ → Message → ServerTalker → World → Heard
unfolding hear_parsed
listen outside now m t w = hear_parsed outside now (try_parse m) t w

-- ServerTalker::interrupt
unfoldable pub interrupt : ServerTalker → World → ServerTalker × World
interrupt t w = elim t.replica_id [
  | none ↦ (t, w)
  | some id ↦
      (record t { replica_id = none }, record w { middleware = remove_replica id w.middleware })
]
