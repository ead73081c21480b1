-- ===== src/Middleware/Waits.antt =====
-- The number of waits and of answers, over the calls of StorageMiddleware
-- (src/storage_middleware.cpp).
use build_your_own_redis.Prelude.{
  ℕ, suc, ◌+◌, ◌≡◌, refl, ◌∙◌, Bool, Option, none, some, List, [], ◌∷◌, ◌++◌, arith, leb, length,
  length-append, Bool-cases, inl, inr,
}
use build_your_own_redis.Text.{Bytes, text}
use build_your_own_redis.Text.Decimal.{ℤ, to_size, parse_int}
use build_your_own_redis.Outcome.{ok, >>=-eq-ok}
use build_your_own_redis.Message.{Message, integer}
use build_your_own_redis.Command.{Command, set, replconf}
use build_your_own_redis.Command.Construct.{construct}
use build_your_own_redis.Middleware.Replicas.{
  Middleware, WaitHandle, ReplicaHandle, push_handle, push_all, push, set_and_push, restore, get,
  xadd, add_replica, remove_replica, replica_set_state,
}
use build_your_own_redis.Middleware.WaitList.{
  update_all, acknowledge, process_conf, replica_process_conf, find_ack, reply_of, push_if, push_to,
  acknowledge_parsed, new_wait, setup, wait_for, expire_waits, timeout,
}
use build_your_own_redis.Middleware.Steps.{
  Call, sets, restores, gets, xadds, adds_replica, removes_replica, times_out, sets_state, confs,
  waits_for, step, run, count_waits,
}

-- The answers to WAIT among the messages sent: those of type Integer.
unfoldable pub answers : List (ℕ × Message) → ℕ
answers [] = 0
answers ((slot, integer n) ∷ out) = suc (answers out)
answers ((slot, m) ∷ out) = answers out

answers-append : (a b : List (ℕ × Message)) → answers (a ++ b) ≡ answers a + answers b
unfolding answers
answers-append [] b = omega arith
answers-append ((slot, integer n) ∷ a) b = omega (arith, answers-append a b)
answers-append ((slot, m) ∷ a) b = answers-append a b

answers-push_handle :
    (c : Command) (h : ReplicaHandle) → answers (push_handle (construct c) h).1 ≡ 0
unfolding answers push_handle construct
answers-push_handle c h = ground arith

answers-push_all :
    (c : Command) (hs : List ReplicaHandle) → answers (push_all (construct c) hs).1 ≡ 0
unfolding push_all
answers-push_all c [] = unfold answers in refl
answers-push_all c (h ∷ hs) =
    answers-append (push_handle (construct c) h).1 (push_all (construct c) hs).1
    ∙ omega (arith, answers-push_handle c h, answers-push_all c hs)

answers-push_if : (o : Option ℕ) (h : ReplicaHandle) → answers (push_if o h).1 ≡ 0
unfolding push_if
answers-push_if none h = unfold answers in refl
answers-push_if (some n) h = answers-push_handle (replconf (text "GETACK" ∷ text "*" ∷ [])) h

answers-push_to : (l : List (ℕ × ℕ)) (hs : List ReplicaHandle) → answers (push_to l hs).1 ≡ 0
unfolding push_to
answers-push_to l [] = unfold answers in refl
answers-push_to l (h ∷ hs) =
    answers-append (push_if (find_ack h.id l) h).1 (push_to l hs).1
    ∙ omega (arith, answers-push_if (find_ack h.id l) h, answers-push_to l hs)

-- Waits that go on and waits that reply are all the waits.
update_all-length :
    (id b : ℕ) (ws : List WaitHandle)
    → length (update_all id b ws).0 + answers (update_all id b ws).1 ≡ length ws
unfolding update_all answers
update_all-length id b [] = omega arith
update_all-length id b (w ∷ ws) = ground (arith, update_all-length id b ws)

expire_waits-length :
    (serial : ℕ) (ws : List WaitHandle)
    → length (expire_waits serial ws).0 + answers (expire_waits serial ws).1 ≡ length ws
unfolding expire_waits answers
expire_waits-length serial [] = omega arith
expire_waits-length serial (w ∷ ws) = ground (arith, expire_waits-length serial ws)

-- Waits on the list and answers sent.
unfoldable pub accounted : Middleware → ℕ
accounted s = length s.waits + answers s.sent

accounted-push : (c : Command) (s : Middleware) → accounted (push (construct c) s) ≡ accounted s
unfolding accounted push
accounted-push c s = omega (
  arith,
  answers-append s.sent (push_all (construct c) s.replicas).1,
  answers-push_all c s.replicas,
)

accounted-acknowledge : (id b : ℕ) (s : Middleware) → accounted (acknowledge id b s) ≡ accounted s
unfolding accounted acknowledge
accounted-acknowledge id b s =
    omega (arith, answers-append s.sent (update_all id b s.waits).1, update_all-length id b s.waits)

accounted-timeout : (serial : ℕ) (s : Middleware) → accounted (timeout serial s) ≡ accounted s
unfolding accounted timeout
accounted-timeout serial s = omega (
  arith,
  answers-append s.sent (expire_waits serial s.waits).1,
  expire_waits-length serial s.waits,
)

accounted-setup : (w : WaitHandle) (s : Middleware) → accounted (setup w s) ≡ suc (accounted s)
unfolding accounted setup
accounted-setup w s = elim (Bool-cases (leb w.replicas_expected w.replicas_ready)) [
  | inl e ↦ rw e (omega (arith, answers-append s.sent (reply_of w ∷ []), answers_one))
  | inr e ↦ rw e (
      omega (
        arith,
        length-append s.waits (w ∷ []),
        answers-append s.sent (push_to w.replica_ack_waitlist s.replicas).1,
        answers-push_to w.replica_ack_waitlist s.replicas,
      ))
]
  where
    answers_one : answers (reply_of w ∷ []) ≡ 1
    answers_one = unfold answers reply_of in refl

accounted-parsed :
    (id : ℕ) (o : Option ℤ) (s : Middleware) → accounted (acknowledge_parsed id o s) ≡ accounted s
unfolding acknowledge_parsed
accounted-parsed id none s = refl
accounted-parsed id (some n) s = accounted-acknowledge id (to_size n) s

accounted-process_conf :
    (id : ℕ) (args : List Bytes) (s : Middleware) (r : Middleware × Bool)
    → process_conf id args s ≡ ok r
    → accounted r.0 ≡ accounted s
unfolding process_conf
accounted-process_conf id [] s r e = cc
accounted-process_conf id (a ∷ []) s r e = ground arith
accounted-process_conf id (a ∷ b ∷ rest) s r e = ground (arith, accounted-parsed id (parse_int b) s)

accounted-conf :
    (id : ℕ) (args : List Bytes) (s : Middleware) (r : Middleware × Bool)
    → replica_process_conf id args s ≡ ok r
    → accounted r.0 ≡ accounted s
unfolding replica_process_conf
accounted-conf id args s r e = ground (arith, accounted-process_conf id args s r)

accounted-set :
    (now : ℕ) (key value : Bytes) (expire_ms : Option ℕ) (s : Middleware)
    → accounted (set_and_push now key value expire_ms s) ≡ accounted s
unfolding set_and_push
accounted-set now key value expire_ms s =
    accounted-push (set key value expire_ms) _ ∙ (unfold accounted in refl)

accounted-wait_for :
    (count timeout_ms slot : ℕ) (s : Middleware)
    → accounted (wait_for count timeout_ms slot s) ≡ suc (accounted s)
unfolding wait_for
accounted-wait_for count timeout_ms slot s = accounted-setup (new_wait count timeout_ms slot s) s

-- The calls of wait_for that a call makes: one or none.
abbrev waits_of : Call → ℕ
waits_of (waits_for count timeout_ms slot) = 1
waits_of _ = 0

accounted-step :
    (c : Call) (s t : Middleware) → step c s ≡ ok t → accounted t ≡ waits_of c + accounted s
unfolding step
accounted-step (sets now key value expire_ms) s t e =
    ground (arith, accounted-set now key value expire_ms s)
accounted-step (confs id args) s t e =
    let (r, e₁, e₂) = >>=-eq-ok (replica_process_conf id args s) (λ r. ok r.0) e in
    ground (arith, accounted-conf id args s r e₁)
accounted-step (waits_for count timeout_ms slot) s t e =
    ground (arith, accounted-wait_for count timeout_ms slot s)
accounted-step (times_out serial) s t e = ground (arith, accounted-timeout serial s)
accounted-step (adds_replica slot) s t e = unfold accounted add_replica in ground arith
accounted-step (removes_replica id) s t e = unfold accounted remove_replica in ground arith
accounted-step (sets_state id state) s t e = unfold accounted replica_set_state in ground arith
accounted-step (restores now key value expire_time) s t e = unfold accounted restore in ground arith
accounted-step (gets now key) s t e = unfold accounted get in ground arith
accounted-step (xadds now key id values) s t e = unfold accounted xadd in ground arith

count_waits-cons : (c : Call) (cs : List Call) → count_waits (c ∷ cs) ≡ waits_of c + count_waits cs
unfolding count_waits
count_waits-cons (waits_for count timeout_ms slot) cs = omega arith
count_waits-cons _ cs = omega arith

-- From any state, whatever calls are served and in whatever order, where they return: the number of
-- waits on the list and of answers sent grows by one for each WAIT and by nothing else.
pub accounted-run :
    (cs : List Call) (s t : Middleware)
    → run cs s ≡ ok t
    → accounted t ≡ count_waits cs + accounted s
unfolding run
accounted-run [] s t e = unfold count_waits in ground arith
accounted-run (c ∷ cs) s t e =
    let (u, e₁, e₂) = >>=-eq-ok (step c s) (run cs) e in
    omega (arith, accounted-run cs u t e₂, accounted-step c s u e₁, count_waits-cons c cs)
