-- ===== src/Tests/Arrivals.antt =====
-- Bytes of a master that arrive at a replica, at concrete inputs.
use mathlib.Core.List.{cons-ne-nil}
use build_your_own_redis.Prelude.{ℕ, ◌≡◌, refl, true, none, List, [], ◌∷◌, arith, All}
use build_your_own_redis.Text.{Bytes, text}
use build_your_own_redis.Text.Decimal.{decimal}
use build_your_own_redis.Message.{size, to_string, to_string_all, print_bulk, print_header}
use build_your_own_redis.MessageParser.{on_buffer}
use build_your_own_redis.MessageParser.Chunks.{IsSendable}
use build_your_own_redis.Command.Construct.{construct, bulks, parts, px_parts}
use build_your_own_redis.Middleware.Replicas.{Middleware, init, write, find_replica}
use build_your_own_redis.Handler.{Handler, wrote, no_more, append_all, process_read, process_write}
use build_your_own_redis.Handler.Hears.{texts_onto, open_with}
use build_your_own_redis.Talker.Replica.{ReplicaTalker, wait_server_commands}
use build_your_own_redis.Talker.Replication.{SetCall, serve, IsSynced}
use build_your_own_redis.Talker.Arrives.{replica_ops, messages, process_read-IsSynced}

-- A master with one replica, which is in step with it
abbrev master : Middleware
master = record init {
  next_replica_id = 1;
  replicas =
      record { id = 0; state = write; slot_message = 3; bytes_pushed = 9; bytes_ack = 0 } ∷ [];
}

abbrev replica : ReplicaTalker
replica = record { state = wait_server_commands; pending = []; bytes_in = 9; storage = init }

synced : IsSynced 0 master replica
unfolding find_replica
synced = record {
  handle = record { id = 0; state = write; slot_message = 3; bytes_pushed = 9; bytes_ack = 0 };
  known = refl;
  is_write = refl;
  same_keys = refl;
  same_bytes = refl;
}

abbrev writes : List SetCall
writes = record { now = 5; key = 107 ∷ []; value = 118 ∷ []; expire_ms = none } ∷ []

abbrev pieces : List Bytes
pieces = text "*3\r\n$3\r\nSE" ∷ text "T\r\n$1\r\nk\r\n$1\r\n" ∷ text "v\r\n" ∷ []

pieces-texts_onto : append_all pieces [] ≡ texts_onto (messages writes) []
unfolding append_all text construct bulks parts px_parts to_string to_string_all print_bulk
    print_header size decimal
pieces-texts_onto = refl

writes-IsSendable : All IsSendable (messages writes)
unfolding IsSendable construct bulks parts px_parts size text
writes-IsSendable = (
  (
    omega arith,
    (
      (cons-ne-nil _ _, omega arith),
      ((cons-ne-nil _ _, omega arith), ((cons-ne-nil _ _, omega arith), tt)),
    ),
  ),
  tt,
)

abbrev connection : Handler ReplicaTalker
connection = record {
  is_open = true;
  talker = replica;
  parser = on_buffer [];
  write_buffer = [];
  socket = wrote 1024 ∷ [];
  written = [];
  emitted = [];
}

abbrev clock : ℕ → ℕ
clock n = 5

process_read-IsSynced_example :
    (u : ReplicaTalker) × (process_read
        (replica_ops clock 6380 5)
        pieces
        no_more
        (open_with (on_buffer []) connection replica)
      ≡ process_write (replica_ops clock 6380 5) (open_with (on_buffer []) connection u))
    × IsSynced 0 (serve writes master) u
process_read-IsSynced_example =
    process_read-IsSynced clock 6380 5 0 pieces writes master replica connection (refl, tt) (tt, tt)
      writes-IsSendable refl synced pieces-texts_onto
