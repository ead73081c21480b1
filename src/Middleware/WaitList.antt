-- ===== src/Middleware/WaitList.antt =====
-- WAIT: StorageMiddleware::WaitHandle and ReplicaHandle::process_conf of src/storage_middleware.cpp.
use build_your_own_redis.Prelude.{
  ℕ, suc, ◌+◌, ◌-◌, ◌%◌, ◌^◌, Bool, true, false, Option, none, some, List, [], ◌∷◌, ◌++◌, ltb, leb,
  ◌==◌, if◌then◌else◌, length,
}
use Prim.Native.Nat.{min}
use build_your_own_redis.Text.{Bytes, text, same, to_lower_case}
use build_your_own_redis.Text.Decimal.{ℤ, pos, negsuc, to_size, parse_int}
use build_your_own_redis.Outcome.{Outcome, ok, undefined}
use build_your_own_redis.Message.{Message, integer}
use build_your_own_redis.Command.{replconf}
use build_your_own_redis.Command.Construct.{construct}
use build_your_own_redis.Middleware.Replicas.{
  ReplicaHandle, WaitHandle, Middleware, push_handle, find_replica, update_replica,
}

-- `static_cast<int>` of a `std::size_t`
unfoldable pub to_int : ℕ → ℤ
to_int n = let r = n % 2 ^ 32 in if ltb r (2 ^ 31) then pos r else negsuc (2 ^ 32 - 1 - r)

-- WaitHandle::reply: what the slot is called with. The caller takes the wait off the list.
unfoldable pub reply_of : WaitHandle → ℕ × Message
unfolding to_int
reply_of w = (w.slot_message, integer (to_int w.replicas_ready))

unfoldable pub find_ack : ℕ → List (ℕ × ℕ) → Option ℕ
find_ack id [] = none
find_ack id ((j, n) ∷ l) = if j == id then some n else find_ack id l

unfoldable pub erase_ack : ℕ → List (ℕ × ℕ) → List (ℕ × ℕ)
erase_ack id [] = []
erase_ack id ((j, n) ∷ l) = let rest = erase_ack id l in if j == id then rest else (j, n) ∷ rest

-- A wait after an acknowledgement: it goes on, or it has replied.
pub data Waiting : Type 0 where
  goes_on : WaitHandle → Waiting
  replied : WaitHandle → Waiting

abbrev pub settle : WaitHandle → Waiting
settle w = if leb w.replicas_expected w.replicas_ready then replied w else goes_on w

-- WaitHandle::update_replica_ack: `id` and `bytes_ack` of the replica
unfoldable pub update_replica_ack : ℕ → ℕ → WaitHandle → Waiting
unfolding find_ack erase_ack
update_replica_ack id bytes_ack w = elim (find_ack id w.replica_ack_waitlist) [
  | none ↦ goes_on w
  | some expected_bytes ↦
      let w' = record w { replica_ack_waitlist = erase_ack id w.replica_ack_waitlist } in
      if ltb bytes_ack expected_bytes
      then goes_on w'
      else settle (record w' { replicas_ready = w.replicas_ready + 1 })
]

-- A wait that replied leaves the list.
unfoldable pub sort_out :
    Waiting → List WaitHandle × List (ℕ × Message) → List WaitHandle × List (ℕ × Message)
unfolding reply_of
sort_out (goes_on w) r = (w ∷ r.0, r.1)
sort_out (replied w) r = (r.0, reply_of w ∷ r.1)

-- The loop of ReplicaHandle::process_conf over the waits: those that go on, and the replies.
unfoldable pub update_all : ℕ → ℕ → List WaitHandle → List WaitHandle × List (ℕ × Message)
unfolding update_replica_ack sort_out
update_all id bytes_ack [] = ([], [])
update_all id bytes_ack (w ∷ ws) =
    sort_out (update_replica_ack id bytes_ack w) (update_all id bytes_ack ws)

-- An acknowledgement of a replica that is there.
unfoldable pub acknowledge : ℕ → ℕ → Middleware → Middleware
unfolding update_all update_replica
acknowledge id bytes_ack s = record s {
  replicas = update_replica id (λ h. record h { bytes_ack = bytes_ack }) s.replicas;
  waits = (update_all id bytes_ack s.waits).0;
  sent = s.sent ++ (update_all id bytes_ack s.waits).1;
}

-- The source ignores a count of bytes that is no number.
unfoldable pub acknowledge_parsed : ℕ → Option ℤ → Middleware → Middleware
unfolding acknowledge
acknowledge_parsed id none s = s
acknowledge_parsed id (some n) s = acknowledge id (to_size n) s

-- ReplicaHandle::process_conf on the arguments of REPLCONF. The count of arguments is only logged;
-- arguments that are not there are read out of range.
unfoldable pub process_conf : ℕ → List Bytes → Middleware → Outcome (Middleware × Bool)
unfolding acknowledge_parsed
process_conf id [] s = undefined
process_conf id (a ∷ []) s = if same (to_lower_case a) (text "ack") then undefined else ok (s, true)
process_conf id (a ∷ b ∷ rest) s =
    if same (to_lower_case a) (text "ack")
    then ok (acknowledge_parsed id (parse_int b) s, false)
    else ok (s, true)

-- StorageMiddleware::replica_process_conf on a REPLCONF
unfoldable pub replica_process_conf : ℕ → List Bytes → Middleware → Outcome (Middleware × Bool)
unfolding process_conf find_replica
replica_process_conf id args s = elim (find_replica id s.replicas) [
  | none ↦ ok (s, false)
  | some h ↦ process_conf id args s
]

-- WaitHandle::setup, first loop: the replicas that are up to date, and the others with the bytes
-- that they still have to acknowledge.
unfoldable pub count_ready : List ReplicaHandle → ℕ
count_ready [] = 0
count_ready (h ∷ hs) =
    if leb h.bytes_pushed h.bytes_ack then suc (count_ready hs) else count_ready hs

unfoldable pub to_acknowledge : List ReplicaHandle → List (ℕ × ℕ)
to_acknowledge [] = []
to_acknowledge (h ∷ hs) =
    let rest = to_acknowledge hs in
    if leb h.bytes_pushed h.bytes_ack then rest else (h.id, h.bytes_pushed) ∷ rest

abbrev pub getack : Message
getack = construct (replconf (text "GETACK" ∷ text "*" ∷ []))

-- The second loop pushes a GETACK to each replica of the list.
unfoldable pub push_if : Option ℕ → ReplicaHandle → ReplicaHandle × List (ℕ × Message)
unfolding push_handle
push_if none h = (h, [])
push_if (some bytes_expected) h = push_handle getack h

unfoldable pub push_to : List (ℕ × ℕ) → List ReplicaHandle → List ReplicaHandle × List (ℕ × Message)
unfolding push_if find_ack
push_to list [] = ([], [])
push_to list (h ∷ hs) =
    let (hs', outs) = push_to list hs in
    let (h', out) = push_if (find_ack h.id list) h in (h' ∷ hs', out ++ outs)

unfoldable pub new_wait : ℕ → ℕ → ℕ → Middleware → WaitHandle
unfolding count_ready to_acknowledge
new_wait count timeout_ms slot_message s = record {
  serial = s.next_serial;
  replicas_expected = min count (length s.replicas);
  replicas_ready = count_ready s.replicas;
  timeout_ms = timeout_ms;
  slot_message = slot_message;
  replica_ack_waitlist = to_acknowledge s.replicas;
}

-- WaitHandle::setup of a wait that is counted
unfoldable pub setup : WaitHandle → Middleware → Middleware
unfolding push_to reply_of
setup w s =
    if leb w.replicas_expected w.replicas_ready
    then record s { next_serial = s.next_serial + 1; sent = s.sent ++ reply_of w ∷ [] }
    else record s {
      next_serial = s.next_serial + 1;
      replicas = (push_to w.replica_ack_waitlist s.replicas).0;
      waits = s.waits ++ w ∷ [];
      timeouts = s.timeouts ++ (w.serial, w.timeout_ms) ∷ [];
      sent = s.sent ++ (push_to w.replica_ack_waitlist s.replicas).1;
    }

-- StorageMiddleware::wait_for
unfoldable pub wait_for : ℕ → ℕ → ℕ → Middleware → Middleware
unfolding new_wait setup
wait_for count timeout_ms slot_message s = setup (new_wait count timeout_ms slot_message s) s

-- The timeout job of a wait: it replies if the wait is still there.
unfoldable pub expire_waits : ℕ → List WaitHandle → List WaitHandle × List (ℕ × Message)
unfolding reply_of
expire_waits serial [] = ([], [])
expire_waits serial (w ∷ ws) =
    let (rest, out) = expire_waits serial ws in
    if w.serial == serial then (ws, reply_of w ∷ []) else (w ∷ rest, out)

unfoldable pub timeout : ℕ → Middleware → Middleware
unfolding expire_waits
timeout serial s = record s {
  waits = (expire_waits serial s.waits).0;
  sent = s.sent ++ (expire_waits serial s.waits).1;
}
