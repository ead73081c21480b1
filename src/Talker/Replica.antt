-- ===== src/Talker/Replica.antt =====
-- ReplicaTalker of src/replica_talker.h and src/replica_talker.cpp: the replica's side of the
-- handshake and of the stream of commands. The file of the master is read at the times of `clock`;
-- what this throws goes on to the caller.
use build_your_own_redis.Prelude.{ℕ, ◌+◌, ◌%◌, Bool, true, false, List, [], ◌∷◌, if◌then◌else◌}
use build_your_own_redis.Text.{Bytes, text, same, to_lower_case}
use build_your_own_redis.Text.Decimal.{u64_mod, decimal}
use build_your_own_redis.Outcome.{Outcome, ok, err, undefined, ◌>>=◌}
use build_your_own_redis.Message.{Message, simple_string, sync_response, leave, byte_size}
use build_your_own_redis.Storage.Restore.{load}
use build_your_own_redis.Middleware.Replicas.{Middleware, set_and_push}
use build_your_own_redis.Command.{Command, ping, set, replconf, psync}
use build_your_own_redis.Command.Parse.{try_parse}
use build_your_own_redis.Command.Construct.{construct}
use build_your_own_redis.Talker.{next_say}

-- The states of the source. INIT has no transition; it makes the talker leave.
pub data State : Type 0 where
  initial undefined_state wait_first_pong wait_ok_for_replconf_port wait_ok_for_replconf_capa
        wait_for_psync_answer wait_for_rdb_file_sync wait_server_commands :
      State

pub record ReplicaTalker : Type 0 where
  pub state : State
  pub pending : List Message
  pub bytes_in : ℕ
  pub storage : Middleware

-- The constructor
unfoldable pub start : Middleware → ReplicaTalker
start storage = record {
  state = wait_first_pong;
  pending = construct ping ∷ [];
  bytes_in = 0;
  storage = storage;
}

-- ReplicaTalker::expected: does the talker expect a file?
unfoldable pub expects_file : ReplicaTalker → Bool
expects_file t = elim t.state [ wait_for_rdb_file_sync ↦ true | _ ↦ false ]

-- A step of the handshake: to the next state, with a command for the master.
abbrev pub go : State → Command → ReplicaTalker → ReplicaTalker
go state c t = record t { state = state; pending = next_say (construct c) t.pending }

-- REPLCONF of the master. The count of arguments is only logged.
unfoldable pub answer_getack : List Bytes → ReplicaTalker → Outcome ReplicaTalker
answer_getack [] t = undefined
answer_getack (a ∷ []) t = if same (to_lower_case a) (text "getack") then undefined else ok t
answer_getack (a ∷ b ∷ rest) t = ok (
    if same (to_lower_case a) (text "getack")
    then (if same b (text "*")
        then record t {
          pending =
              next_say (construct (replconf (text "ACK" ∷ decimal t.bytes_in ∷ []))) t.pending;
        }
        else t)
    else t)

unfoldable pub obey : ℕ → Command → ReplicaTalker → Outcome ReplicaTalker
unfolding answer_getack
obey now (set key value expire_ms) t =
    ok (record t { storage = set_and_push now key value expire_ms t.storage })
obey now (replconf args) t = answer_getack args t
obey now c t = ok t

unfoldable pub count_bytes : Message → ReplicaTalker → ReplicaTalker
count_bytes m t = record t { bytes_in = (t.bytes_in + byte_size m) % u64_mod }

unfoldable pub process_parsed :
    ℕ → Message → Outcome Command → ReplicaTalker → Outcome ReplicaTalker
unfolding obey count_bytes
process_parsed now m (ok c) t = obey now c t >>= λ u. ok (count_bytes m u)
process_parsed now m (err reason) t = ok t
process_parsed now m undefined t = undefined

-- ReplicaTalker::process. A command that does not parse is logged, and its bytes are not counted.
unfoldable pub process : ℕ → Message → ReplicaTalker → Outcome ReplicaTalker
unfolding process_parsed
process now m t = process_parsed now m (try_parse m) t

unfoldable pub hear : Message → Bytes → State → Command → ReplicaTalker → ReplicaTalker
hear (simple_string s) word state c t = if same (to_lower_case s) word then go state c t else t
hear m word state c t = t

unfoldable pub hear_psync : Message → ReplicaTalker → ReplicaTalker
hear_psync (simple_string s) t = record t { state = wait_for_rdb_file_sync }
hear_psync m t = t

-- The middleware hands each `restore` on to the storage.
unfoldable pub hear_file : (ℕ → ℕ) → ℕ → Message → ReplicaTalker → Outcome ReplicaTalker
unfolding load
hear_file clock now (sync_response s) t = load clock now s t.storage.storage >>= λ d.
    ok (record t { state = wait_server_commands; storage = record t.storage { storage = d } })
hear_file clock now m t = ok t

unfoldable pub listen_in : (ℕ → ℕ) → ℕ → ℕ → State → Message → ReplicaTalker → Outcome ReplicaTalker
unfolding hear hear_psync hear_file process
listen_in clock port now wait_first_pong m t = ok (
    hear m (text "pong") wait_ok_for_replconf_port
      (replconf (text "listening-port" ∷ decimal port ∷ [])) t)
listen_in clock port now wait_ok_for_replconf_port m t =
    ok
      (hear m (text "ok") wait_ok_for_replconf_capa (replconf (text "capa" ∷ text "psync2" ∷ [])) t)
listen_in clock port now wait_ok_for_replconf_capa m t =
    ok (hear m (text "ok") wait_for_psync_answer (psync (text "?" ∷ text "-1" ∷ [])) t)
listen_in clock port now wait_for_psync_answer m t = ok (hear_psync m t)
listen_in clock port now wait_for_rdb_file_sync m t = hear_file clock now m t
listen_in clock port now wait_server_commands m t = process now m t
listen_in clock port now undefined_state m t = ok t
listen_in clock port now initial m t = ok (record t { pending = next_say leave t.pending })

-- ReplicaTalker::listen, on a server with this port, at a time
unfoldable pub listen : (ℕ → ℕ) → ℕ → ℕ → Message → ReplicaTalker → Outcome ReplicaTalker
unfolding listen_in
listen clock port now m t = listen_in clock port now t.state m t
