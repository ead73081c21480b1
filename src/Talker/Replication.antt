-- ===== src/Talker/Replication.antt =====
-- A master that serves SETs (StorageMiddleware of src/storage_middleware.cpp) and a replica that
-- processes their messages (ReplicaTalker of src/replica_talker.cpp).
use build_your_own_redis.Prelude.{
  ℕ, ◌+◌, ◌%◌, ◌≡◌, refl, ap, Option, some, List, [], ◌∷◌, arith, All, Bool-cases, inl, inr, ◌==◌,
}
use build_your_own_redis.Text.{Bytes}
use build_your_own_redis.Text.Decimal.{u64_mod}
use build_your_own_redis.Outcome.{Outcome, ok, ◌>>=◌}
use build_your_own_redis.Message.{Message, byte_size}
use build_your_own_redis.Storage.Keyspace
use build_your_own_redis.Storage.Keyspace.{Keyspace}
use build_your_own_redis.Command.{Command, set}
use build_your_own_redis.Command.Construct.{construct}
use build_your_own_redis.Command.RoundTrip.{IsLifetime, try_parse-construct}
use build_your_own_redis.Middleware.Replicas.{
  Middleware, ReplicaHandle, write, push_handle, push_all, push, set_and_push, find_replica,
}
use build_your_own_redis.Talker.Replica.{ReplicaTalker, obey, count_bytes, process_parsed, process}

-- A SET that reaches the master, with its time.
pub record SetCall : Type 0 where
  pub now : ℕ
  pub key : Bytes
  pub value : Bytes
  pub expire_ms : Option ℕ

abbrev pub command_of : SetCall → Command
command_of c = set c.key c.value c.expire_ms

-- The master serves the calls.
unfoldable pub serve : List SetCall → Middleware → Middleware
serve [] s = s
serve (c ∷ cs) s = serve cs (set_and_push c.now c.key c.value c.expire_ms s)

-- The replica processes the messages that are pushed for the calls, each at the time of its call.
unfoldable pub follow : List SetCall → ReplicaTalker → Outcome ReplicaTalker
follow [] t = ok t
follow (c ∷ cs) t = process c.now (construct (command_of c)) t >>= λ u. follow cs u

-- The replica's talker after one SET.
abbrev pub followed : SetCall → ReplicaTalker → ReplicaTalker
followed c t = record t {
  storage = set_and_push c.now c.key c.value c.expire_ms t.storage;
  bytes_in = (t.bytes_in + byte_size (construct (command_of c))) % u64_mod;
}

process-set :
    (c : SetCall) (t : ReplicaTalker)
    → IsLifetime c.expire_ms
    → process c.now (construct (command_of c)) t ≡ ok (followed c t)
unfolding process process_parsed obey count_bytes
process-set c t h = rw (try_parse-construct (command_of c) h)

-- The keys of the replica are those of the master, and the bytes that the master has pushed to the
-- replica are the bytes that the replica has counted.
pub record IsSynced (id : ℕ) (s : Middleware) (t : ReplicaTalker) : Type 0 where
  pub handle : ReplicaHandle
  pub known : find_replica id s.replicas ≡ some handle
  pub is_write : handle.state ≡ write
  pub same_keys : t.storage.storage ≡ s.storage
  pub same_bytes : handle.bytes_pushed ≡ t.bytes_in

push_handle-id : (m : Message) (h : ReplicaHandle) → (push_handle m h).0.id ≡ h.id
unfolding push_handle
push_handle-id m h = ground arith

-- A push reaches each replica that is known.
find_replica-push_all :
    (id : ℕ) (m : Message) (hs : List ReplicaHandle) (h : ReplicaHandle)
    → find_replica id hs ≡ some h
    → find_replica id (push_all m hs).0 ≡ some (push_handle m h).0
unfolding find_replica push_all
find_replica-push_all id m [] h e = cc
find_replica-push_all id m (x ∷ hs) h e = elim (Bool-cases (x.id == id)) [
  | inl q ↦
      let same_handle : x ≡ h = ground arith in
      rw (push_handle-id m x, q) (ap (λ y. some (push_handle m y).0) same_handle)
  | inr q ↦ rw (push_handle-id m x, q) (find_replica-push_all id m hs h (rw q at e))
]

push_handle-write :
    (m : Message) (h : ReplicaHandle)
    → h.state ≡ write
    → (push_handle m h).0 ≡ record h { bytes_pushed = (h.bytes_pushed + byte_size m) % u64_mod }
unfolding push_handle
push_handle-write m h e = ground arith

step-IsSynced :
    (id : ℕ) (c : SetCall) (s : Middleware) (t : ReplicaTalker)
    → IsSynced id s t
    → IsSynced id (set_and_push c.now c.key c.value c.expire_ms s) (followed c t)
unfolding set_and_push push
step-IsSynced id c s t y = record {
  handle = (push_handle m y.handle).0;
  known = find_replica-push_all id m s.replicas y.handle y.known;
  is_write = rw (push_handle-write m y.handle y.is_write) y.is_write;
  same_keys = ap (Keyspace.set c.now c.key c.value c.expire_ms) y.same_keys;
  same_bytes =
      rw (push_handle-write m y.handle y.is_write)
        (ap (λ n. (n + byte_size m) % u64_mod) y.same_bytes);
}
  where
    m : Message
    m = construct (command_of c)

-- A replica that is in step with its master stays so: whatever SETs the master serves, with lifetimes
-- that are positive ints, the replica that processes the message of each, at the same times and in the
-- same order, returns with the same keys and with the count of bytes that the master has pushed to it.
pub follow-IsSynced :
    (id : ℕ) (cs : List SetCall) (s : Middleware) (t : ReplicaTalker)
    → All (λ c. IsLifetime c.expire_ms) cs
    → IsSynced id s t
    → (u : ReplicaTalker) × (follow cs t ≡ ok u) × IsSynced id (serve cs s) u
unfolding follow serve
follow-IsSynced id [] s t h y = (t, refl, y)
follow-IsSynced id (c ∷ cs) s t h y =
    let (u, e, z) =
      follow-IsSynced id cs (set_and_push c.now c.key c.value c.expire_ms s) (followed c t) h.1
        (step-IsSynced id c s t y) in
    (u, rw (process-set c t h.0) e, z)
