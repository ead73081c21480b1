-- ===== src/Middleware/Replicas.antt =====
-- The state of StorageMiddleware (src/storage_middleware.h), the calls that it hands on to the
-- storage, and its replicas, to which SET is pushed (src/storage_middleware.cpp).
use build_your_own_redis.Prelude.{
  ℕ, ◌+◌, ◌%◌, Option, none, some, List, [], ◌∷◌, ◌++◌, ◌==◌, if◌then◌else◌, length,
}
use build_your_own_redis.Text.{Bytes}
use build_your_own_redis.Text.Decimal.{u64_mod}
use build_your_own_redis.Message.{Message, byte_size}
use build_your_own_redis.Storage
use build_your_own_redis.Storage.Keyspace.{Keyspace}
use build_your_own_redis.Stream.Id.{InputStreamId}
use build_your_own_redis.Stream.Value.{StreamPartValue}
use build_your_own_redis.Command.{set}
use build_your_own_redis.Command.Construct.{construct}

-- IReplicasManager::ReplState
pub data ReplState : Type 0 where
  met resync write : ReplState

-- StorageMiddleware::ReplicaHandle
pub record ReplicaHandle : Type 0 where
  pub id : ℕ
  pub state : ReplState
  pub slot_message : ℕ
  pub bytes_pushed : ℕ
  pub bytes_ack : ℕ

-- StorageMiddleware::WaitHandle; `serial` stands for its address, which its timeout job holds.
pub record WaitHandle : Type 0 where
  pub serial : ℕ
  pub replicas_expected : ℕ
  pub replicas_ready : ℕ
  pub timeout_ms : ℕ
  pub slot_message : ℕ
  pub replica_ack_waitlist : List (ℕ × ℕ)

pub record Middleware : Type 0 where
  pub storage : Keyspace
  pub next_replica_id : ℕ
  pub replicas : List ReplicaHandle
  pub next_serial : ℕ
  pub waits : List WaitHandle
  -- the timeout jobs: the address of a wait and its time
  pub timeouts : List (ℕ × ℕ)
  pub sent : List (ℕ × Message)

abbrev pub init : Middleware
init = record {
  storage = [];
  next_replica_id = 0;
  replicas = [];
  next_serial = 0;
  waits = [];
  timeouts = [];
  sent = [];
}

-- ReplicaHandle::push: the handle after it, and what its slot is called with.
unfoldable pub push_handle : Message → ReplicaHandle → ReplicaHandle × List (ℕ × Message)
push_handle message h = elim h.state [
  | write ↦ (
    record h { bytes_pushed = (h.bytes_pushed + byte_size message) % u64_mod },
    (h.slot_message, message) ∷ [],
  )
  | _ ↦ (h, [])
]

-- The loop of StorageMiddleware::push.
unfoldable pub push_all : Message → List ReplicaHandle → List ReplicaHandle × List (ℕ × Message)
unfolding push_handle
push_all message [] = ([], [])
push_all message (h ∷ hs) =
    let (h', out) = push_handle message h in
    let (hs', outs) = push_all message hs in (h' ∷ hs', out ++ outs)

-- StorageMiddleware::push
unfoldable pub push : Message → Middleware → Middleware
push message s = record s {
  replicas = (push_all message s.replicas).0;
  sent = s.sent ++ (push_all message s.replicas).1;
}

-- StorageMiddleware::set at a time
unfoldable pub set_and_push : ℕ → Bytes → Bytes → Option ℕ → Middleware → Middleware
unfolding push
set_and_push now key value expire_ms s =
    push (construct (set key value expire_ms))
      (record s { storage = Storage.Keyspace.set now key value expire_ms s.storage })

-- StorageMiddleware::restore, and the calls that it hands on to the storage
unfoldable pub restore : ℕ → Bytes → Bytes → Option ℕ → Middleware → Middleware
restore now key value expire_time s = record s {
  storage = Storage.Keyspace.restore now key value expire_time s.storage;
}

unfoldable pub get : ℕ → Bytes → Middleware → Middleware × Option Bytes
get now key s =
    let (d, answer) = Storage.Keyspace.get now key s.storage in (record s { storage = d }, answer)

unfoldable pub xadd :
    ℕ → Bytes → InputStreamId → StreamPartValue → Middleware → Middleware × Storage.Keyspace.Added
xadd now key id values s =
    let r = Storage.Keyspace.xadd now key id values s.storage in (record s { storage = r.items }, r)

-- `_replicas.find`
unfoldable pub find_replica : ℕ → List ReplicaHandle → Option ReplicaHandle
find_replica id [] = none
find_replica id (h ∷ hs) = if h.id == id then some h else find_replica id hs

unfoldable pub update_replica :
    ℕ → (ReplicaHandle → ReplicaHandle) → List ReplicaHandle → List ReplicaHandle
update_replica id f [] = []
update_replica id f (h ∷ hs) = if h.id == id then f h ∷ hs else h ∷ update_replica id f hs

-- StorageMiddleware::add_replica; `try_emplace` leaves an entry that is there.
unfoldable pub add_replica : ℕ → Middleware → Middleware × ℕ
unfolding find_replica
add_replica slot_message s = (
  record s {
    next_replica_id = (s.next_replica_id + 1) % u64_mod;
    replicas = elim (find_replica s.next_replica_id s.replicas) [
      | none ↦
          s.replicas
          ++ record {
            id = s.next_replica_id;
            state = met;
            slot_message = slot_message;
            bytes_pushed = 0;
            bytes_ack = 0;
          }
            ∷ []
      | some h ↦ s.replicas
    ];
  },
  s.next_replica_id,
)

unfoldable pub erase_replica : ℕ → List ReplicaHandle → List ReplicaHandle
erase_replica id [] = []
erase_replica id (h ∷ hs) = let rest = erase_replica id hs in if h.id == id then rest else h ∷ rest

-- StorageMiddleware::remove_replica
unfoldable pub remove_replica : ℕ → Middleware → Middleware
unfolding erase_replica
remove_replica id s = record s { replicas = erase_replica id s.replicas }

-- StorageMiddleware::replica_set_state
unfoldable pub replica_set_state : ℕ → ReplState → Middleware → Middleware
unfolding update_replica
replica_set_state id state s = record s {
  replicas = update_replica id (λ h. record h { state = state }) s.replicas;
}

-- StorageMiddleware::count_replicas
unfoldable pub count_replicas : Middleware → ℕ
count_replicas s = length s.replicas
