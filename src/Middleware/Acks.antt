-- ===== src/Middleware/Acks.antt =====
-- Acknowledgements and the waits on the list: ReplicaHandle::process_conf and WaitHandle of
-- src/storage_middleware.cpp.
use mathlib.Core.Path.{subst}
use build_your_own_redis.Prelude.{
  ℕ, ◌+◌, ◌<◌, ◌≡◌, refl, ◌&&◌, Bool, true, false, Option, none, some, List, [], ◌∷◌, arith, ltb,
  leb, ◌==◌, if◌then◌else◌, All, All-append, Bool-cases, Option-cases, ◌⊎◌, inl, inr,
}
use build_your_own_redis.Text.{Bytes, text, same, to_lower_case}
use build_your_own_redis.Text.Decimal.{ℤ, to_size, parse_int}
use build_your_own_redis.Outcome.{ok, >>=-eq-ok}
use build_your_own_redis.Message.{Message}
use build_your_own_redis.Middleware.Replicas.{
  Middleware, WaitHandle, set_and_push, push, restore, get, xadd, add_replica, remove_replica,
  replica_set_state, find_replica,
}
use build_your_own_redis.Middleware.WaitList.{
  Waiting, goes_on, replied, settle, update_replica_ack, sort_out, update_all, acknowledge,
  acknowledge_parsed, process_conf, replica_process_conf, find_ack, erase_ack, setup, new_wait,
  wait_for, expire_waits, timeout,
}
use build_your_own_redis.Middleware.Steps.{
  Call, sets, restores, gets, xadds, adds_replica, removes_replica, times_out, sets_state, confs,
  waits_for, step, run,
}

-- A wait that counts fewer replicas than it expects.
abbrev pub IsPending : WaitHandle → Type 0
IsPending w = w.replicas_ready < w.replicas_expected

-- A wait that goes on still lacks replicas; one that replied has exactly the replicas it waited for.
abbrev pub IsSettled : Waiting → Type 0
IsSettled (goes_on w) = IsPending w
IsSettled (replied w) = w.replicas_ready ≡ w.replicas_expected

-- A wait that lacks replicas goes on after an acknowledgement only where it still lacks some; where
-- it replies instead, it counts exactly as many replicas as it expected.
update_replica_ack-IsSettled :
    (id bytes_ack : ℕ) (w : WaitHandle)
    → IsPending w
    → IsSettled (update_replica_ack id bytes_ack w)
unfolding update_replica_ack
update_replica_ack-IsSettled id bytes_ack w h = go (find_ack id w.replica_ack_waitlist)
  where
    go :
        (o : Option ℕ)
        → IsSettled (elim o [
          | none ↦ goes_on w
          | some expected_bytes ↦
              let w' = record w { replica_ack_waitlist = erase_ack id w.replica_ack_waitlist } in
              if ltb bytes_ack expected_bytes
              then goes_on w'
              else settle (record w' { replicas_ready = w.replicas_ready + 1 })
        ])
    go none = h
    go (some n) = elim (Bool-cases (ltb bytes_ack n)) [
      | inl e ↦ rw e h
      | inr e ↦ elim (Bool-cases (leb w.replicas_expected (w.replicas_ready + 1))) [
        | inl f ↦ rw (e, f) (ground arith)
        | inr f ↦ rw (e, f) (ground arith)
      ]
    ]

sort_out-IsPending :
    (x : Waiting) (r : List WaitHandle × List (ℕ × Message))
    → IsSettled x
    → All IsPending r.0
    → All IsPending (sort_out x r).0
unfolding sort_out
sort_out-IsPending (goes_on w) r h a = (h, a)
sort_out-IsPending (replied w) r h a = a

update_all-IsPending :
    (id b : ℕ) (ws : List WaitHandle) → All IsPending ws → All IsPending (update_all id b ws).0
unfolding update_all
update_all-IsPending id b [] h = tt
update_all-IsPending id b (w ∷ ws) h =
    sort_out-IsPending (update_replica_ack id b w) (update_all id b ws)
      (update_replica_ack-IsSettled id b w h.0) (update_all-IsPending id b ws h.1)

expire_waits-IsPending :
    (serial : ℕ) (ws : List WaitHandle)
    → All IsPending ws
    → All IsPending (expire_waits serial ws).0
unfolding expire_waits
expire_waits-IsPending serial [] h = tt
expire_waits-IsPending serial (w ∷ ws) h = elim (Bool-cases (w.serial == serial)) [
  | inl e ↦ rw e h.1
  | inr e ↦ rw e (h.0, expire_waits-IsPending serial ws h.1)
]

setup-IsPending :
    (w : WaitHandle) (s : Middleware) → All IsPending s.waits → All IsPending (setup w s).waits
unfolding setup
setup-IsPending w s h = elim (Bool-cases (leb w.replicas_expected w.replicas_ready)) [
  | inl e ↦ rw e h
  | inr e ↦ rw e (All-append IsPending s.waits (w ∷ []) h (ground arith, tt))
]

parsed-IsPending :
    (id : ℕ) (o : Option ℤ) (s : Middleware)
    → All IsPending s.waits
    → All IsPending (acknowledge_parsed id o s).waits
unfolding acknowledge_parsed acknowledge
parsed-IsPending id none s h = h
parsed-IsPending id (some n) s h = update_all-IsPending id (to_size n) s.waits h

ok_injective {ℓ} : {A : Type ℓ} {a b : A} → ok a ≡ ok b → a ≡ b
ok_injective e = cc

-- REPLCONF leaves the middleware as it was, or takes the acknowledgement.
process_conf_cases :
    (id : ℕ) (args : List Bytes) (s : Middleware) (r : Middleware × Bool)
    → process_conf id args s ≡ ok r
    → (s ≡ r.0) ⊎ ((o : Option ℤ) × (acknowledge_parsed id o s ≡ r.0))
unfolding process_conf
process_conf_cases id [] s r e = cc
process_conf_cases id (a ∷ []) s r e = inl (ground arith)
process_conf_cases id (a ∷ b ∷ rest) s r e =
    elim (Bool-cases (same (to_lower_case a) (text "ack"))) [
      | inl q ↦ inr (parse_int b, ground arith)
      | inr q ↦ inl (ground arith)
    ]

conf-IsPending :
    (id : ℕ) (args : List Bytes) (s : Middleware) (r : Middleware × Bool)
    → All IsPending s.waits
    → replica_process_conf id args s ≡ ok r
    → All IsPending r.0.waits
unfolding replica_process_conf
conf-IsPending id args s r h e = elim (Option-cases (find_replica id s.replicas)) [
  | inl n ↦
      let same_state : s ≡ r.0 = ground arith in
      subst (λ (t : Middleware). All IsPending t.waits) same_state h
  | inr (x, n) ↦ elim (process_conf_cases id args s r (ground arith)) [
    | inl q ↦ subst (λ (t : Middleware). All IsPending t.waits) q h
    | inr (o, q) ↦ subst (λ (t : Middleware). All IsPending t.waits) q (parsed-IsPending id o s h)
  ]
]

carry : {s t : Middleware} → ok s ≡ ok t → All IsPending s.waits → All IsPending t.waits
carry e h = subst (λ (u : Middleware). All IsPending u.waits) (ok_injective e) h

step-IsPending :
    (c : Call) (s t : Middleware) → All IsPending s.waits → step c s ≡ ok t → All IsPending t.waits
unfolding step
step-IsPending (confs id args) s t h e =
    let (r, e₁, e₂) = >>=-eq-ok (replica_process_conf id args s) (λ r. ok r.0) e in
    carry e₂ (conf-IsPending id args s r h e₁)
step-IsPending (waits_for count timeout_ms slot) s t h e =
    carry e (unfold wait_for in setup-IsPending (new_wait count timeout_ms slot s) s h)
step-IsPending (times_out serial) s t h e =
    carry e (unfold timeout in expire_waits-IsPending serial s.waits h)
step-IsPending (sets now key value expire_ms) s t h e = carry e (unfold set_and_push push in h)
step-IsPending (restores now key value expire_time) s t h e = carry e (unfold restore in h)
step-IsPending (gets now key) s t h e = carry e (unfold get in h)
step-IsPending (xadds now key id values) s t h e = carry e (unfold xadd in h)
step-IsPending (adds_replica slot) s t h e = carry e (unfold add_replica in h)
step-IsPending (removes_replica id) s t h e = carry e (unfold remove_replica in h)
step-IsPending (sets_state id state) s t h e = carry e (unfold replica_set_state in h)

-- If each wait on the list counts fewer replicas as ready than it expects, then so does each wait on it
-- after any calls that return.
pub run-IsPending :
    (cs : List Call) (s t : Middleware)
    → All IsPending s.waits
    → run cs s ≡ ok t
    → All IsPending t.waits
unfolding run
run-IsPending [] s t h e = carry e h
run-IsPending (c ∷ cs) s t h e =
    let (u, e₁, e₂) = >>=-eq-ok (step c s) (run cs) e in
    run-IsPending cs u t (step-IsPending c s u h e₁) e₂

unfoldable pub replies : Waiting → Bool
replies (goes_on w) = false
replies (replied w) = true

-- The acknowledgement reaches what the wait asks of the replica, and the replica is the last one
-- that the wait lacks.
unfoldable pub brings_last : Option ℕ → ℕ → WaitHandle → Bool
brings_last none bytes_ack w = false
brings_last (some expected_bytes) bytes_ack w =
    leb expected_bytes bytes_ack && (w.replicas_ready + 1 == w.replicas_expected)

-- A wait that lacks replicas replies to an acknowledgement exactly where the replica is on its list,
-- acknowledges at least the bytes that are asked of it, and is the last one that the wait lacks.
pub replies-update_replica_ack :
    (id bytes_ack : ℕ) (w : WaitHandle)
    → IsPending w
    → replies (update_replica_ack id bytes_ack w)
      ≡ brings_last (find_ack id w.replica_ack_waitlist) bytes_ack w
unfolding update_replica_ack replies brings_last
replies-update_replica_ack id bytes_ack w h =
    elim (Option-cases (find_ack id w.replica_ack_waitlist)) [
      | inl e ↦ rw (e, update_replica_ack) refl
      | inr (n, e) ↦ rw (e, update_replica_ack) (ground arith)
    ]
