-- ===== src/Tests/Servers.antt =====
-- The middleware and the replica's talker at concrete inputs.
use build_your_own_redis.Storage.Restore.{load}
use build_your_own_redis.Storage.Keyspace.{Keyspace, restore}
use build_your_own_redis.RdbParser.Load.File.{print_file, database, never}
use build_your_own_redis.Text.Decimal.{parse_int}
use build_your_own_redis.Prelude.{
  ℕ, ◌+◌, ◌≡◌, ◌⊎◌, refl, none, some, List, [], ◌∷◌, ◌++◌, arith, All, map,
}
use build_your_own_redis.Text.{Bytes, text, same, to_lower_case}
use build_your_own_redis.Outcome.{Outcome, ok}
use build_your_own_redis.Message.{simple_string, byte_size, print_header, print_bulk}
use build_your_own_redis.Command.{ping, replconf}
use build_your_own_redis.Command.Construct.{construct}
use build_your_own_redis.Text.Decimal.{decimal}
use build_your_own_redis.Middleware.Replicas.{
  Middleware, WaitHandle, init, write, set_and_push, push, push_all, push_handle, add_replica,
  find_replica, replica_set_state, update_replica,
}
use build_your_own_redis.Middleware.WaitList.{
  goes_on, update_replica_ack, find_ack, erase_ack, wait_for, new_wait, setup, count_ready,
  to_acknowledge, push_to, push_if, reply_of, to_int, replica_process_conf, process_conf,
  acknowledge_parsed, acknowledge, update_all, sort_out,
}
use build_your_own_redis.Talker.{next_say}
use build_your_own_redis.Middleware.Steps.{
  Call, sets, adds_replica, sets_state, confs, step, waits_for, run, count_waits,
}
use build_your_own_redis.Middleware.Waits.{accounted, accounted-run}
use build_your_own_redis.Middleware.Acks.{
  IsPending, replies, brings_last, replies-update_replica_ack, run-IsPending,
}
use build_your_own_redis.Middleware.EarlyAck.{without, early_ack_lost}
use build_your_own_redis.Talker.Replica.{
  ReplicaTalker, wait_ok_for_replconf_port, wait_server_commands, start, listen, listen_in, hear,
}
use build_your_own_redis.Talker.Handshake.{rank, listen-rank}
use build_your_own_redis.Talker.Pushes.{messages_for, writers, sent-serve}
use build_your_own_redis.Talker.Replication.{command_of, SetCall, serve, IsSynced}

-- A replica that is added, a SET that is pushed to it, and a WAIT that its acknowledgement answers.
abbrev calls : List Call
calls =
    adds_replica 3
    ∷ sets_state 0 write
    ∷ sets 0 (text "k") (text "v") none
    ∷ waits_for 1 100 7
    ∷ confs 0 (text "ACK" ∷ text "29" ∷ [])
    ∷ []

abbrev ok_or : Middleware → Outcome Middleware → Middleware
ok_or s (ok t) = t
ok_or s _ = s

abbrev served : Middleware
served = ok_or init (run calls init)

calls-run : run calls init ≡ ok served
unfolding run step set_and_push push push_all push_handle add_replica find_replica replica_set_state
    update_replica wait_for new_wait setup count_ready to_acknowledge push_to push_if find_ack
    erase_ack reply_of to_int replica_process_conf process_conf acknowledge_parsed acknowledge
    update_all update_replica_ack sort_out same text to_lower_case byte_size construct print_header
    print_bulk decimal
calls-run = refl

accounted-run_example : accounted served ≡ count_waits calls + accounted init
accounted-run_example = accounted-run calls init served calls-run

run-IsPending_example : All IsPending served.waits
run-IsPending_example = run-IsPending calls init served tt calls-run

-- A WAIT for two replicas, of which one has acknowledged.
abbrev waiting : WaitHandle
waiting = record {
  serial = 0;
  replicas_expected = 2;
  replicas_ready = 1;
  timeout_ms = 100;
  slot_message = 7;
  replica_ack_waitlist = (4, 31) ∷ [];
}

replies-update_replica_ack_example :
    replies (update_replica_ack 4 31 waiting)
    ≡ brings_last (find_ack 4 waiting.replica_ack_waitlist) 31 waiting
replies-update_replica_ack_example = replies-update_replica_ack 4 31 waiting (omega arith)

waiting-find_ack : find_ack 4 waiting.replica_ack_waitlist ≡ some 31
unfolding find_ack
waiting-find_ack = refl

early_ack_lost_example :
    (update_replica_ack 4 30 waiting ≡ goes_on (without 4 waiting))
    × (update_replica_ack 4 99 (without 4 waiting) ≡ goes_on (without 4 waiting))
early_ack_lost_example = early_ack_lost 4 30 99 31 waiting waiting-find_ack (omega arith)

-- A clock, and a file of a master with one record
abbrev noon : ℕ → ℕ
noon n = 43_200

abbrev dump : Bytes
dump =
    print_file (text "0011")
      (database 0 1 0 (record { key = text "k"; value = text "v"; expiry = never } ∷ []) ∷ [])
      (text "checksum")

abbrev dumped : Keyspace
dumped = restore 0 (text "k") (text "v") none []

loads-dump : load noon 0 dump [] ≡ ok dumped
unfolding load restore text parse_int same
loads-dump = refl

abbrev heard : ReplicaTalker
heard = record (start init) {
  state = wait_ok_for_replconf_port;
  pending = construct ping ∷ construct (replconf (text "listening-port" ∷ decimal 6380 ∷ [])) ∷ [];
}

hears-pong : listen noon 6380 0 (simple_string (text "PONG")) (start init) ≡ ok heard
unfolding listen listen_in hear start next_say text same to_lower_case
hears-pong = refl

listen-rank_example :
    (heard.state ≡ (start init).state) ⊎ (rank heard.state ≡ rank (start init).state + 1)
listen-rank_example =
    listen-rank noon 6380 0 (simple_string (text "PONG")) (start init) heard hears-pong

-- A master with one replica, which has got nothing yet.
abbrev master : Middleware
master = record init {
  next_replica_id = 1;
  replicas =
      record { id = 0; state = write; slot_message = 3; bytes_pushed = 0; bytes_ack = 0 } ∷ [];
}

abbrev replica : ReplicaTalker
replica = record (start init) { state = wait_server_commands }

replica-IsSynced : IsSynced 0 master replica
unfolding find_replica start
replica-IsSynced = record {
  handle = record { id = 0; state = write; slot_message = 3; bytes_pushed = 0; bytes_ack = 0 };
  known = refl;
  is_write = refl;
  same_keys = refl;
  same_bytes = refl;
}

abbrev writes : List SetCall
writes =
    record { now = 1; key = text "k"; value = text "v"; expire_ms = some 100 }
    ∷ record { now = 2; key = text "k"; value = text "w"; expire_ms = none }
    ∷ []

master-writers : writers 3 master.replicas ≡ 1
unfolding writers
master-writers = refl

sent-serve_example :
    messages_for 3 (serve writes master).sent
    ≡ messages_for 3 master.sent ++ map (λ c. construct (command_of c)) writes
sent-serve_example = sent-serve 3 writes master master-writers
