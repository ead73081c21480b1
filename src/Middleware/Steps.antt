-- ===== src/Middleware/Steps.antt =====
-- The calls of StorageMiddleware (src/storage_middleware.h), one after another in any order.
use build_your_own_redis.Prelude.{ℕ, suc, Option, List, [], ◌∷◌}
use build_your_own_redis.Text.{Bytes}
use build_your_own_redis.Outcome.{Outcome, ok, ◌>>=◌}
use build_your_own_redis.Stream.Id.{InputStreamId}
use build_your_own_redis.Stream.Value.{StreamPartValue}
use build_your_own_redis.Middleware.Replicas.{
  Middleware, ReplState, set_and_push, restore, get, xadd, add_replica, remove_replica,
  replica_set_state,
}
use build_your_own_redis.Middleware.WaitList.{replica_process_conf, wait_for, timeout}

-- A call with its arguments, and the time for those that read the clock.
pub data Call : Type 0 where
  sets restores : ℕ → Bytes → Bytes → Option ℕ → Call
  gets : ℕ → Bytes → Call
  xadds : ℕ → Bytes → InputStreamId → StreamPartValue → Call
  adds_replica removes_replica times_out : ℕ → Call
  sets_state : ℕ → ReplState → Call
  confs : ℕ → List Bytes → Call
  waits_for : ℕ → ℕ → ℕ → Call

unfoldable pub step : Call → Middleware → Outcome Middleware
step (sets now key value expire_ms) s = ok (set_and_push now key value expire_ms s)
step (restores now key value expire_time) s = ok (restore now key value expire_time s)
step (gets now key) s = ok (get now key s).0
step (xadds now key id values) s = ok (xadd now key id values s).0
step (adds_replica slot) s = ok (add_replica slot s).0
step (removes_replica id) s = ok (remove_replica id s)
step (times_out serial) s = ok (timeout serial s)
step (sets_state id state) s = ok (replica_set_state id state s)
step (confs id args) s = replica_process_conf id args s >>= λ r. ok r.0
step (waits_for count timeout_ms slot) s = ok (wait_for count timeout_ms slot s)

unfoldable pub run : List Call → Middleware → Outcome Middleware
unfolding step
run [] s = ok s
run (c ∷ cs) s = step c s >>= λ t. run cs t

-- The calls of wait_for among the calls.
unfoldable pub count_waits : List Call → ℕ
count_waits [] = 0
count_waits (waits_for count timeout_ms slot ∷ cs) = suc (count_waits cs)
count_waits (c ∷ cs) = count_waits cs
