-- ===== src/Talker/Pushes.antt =====
-- What a master sends to a replica for the SETs that it serves (StorageMiddleware::set and push of
-- src/storage_middleware.cpp).
use build_your_own_redis.Prelude.{
  append-nil, append_assoc, ℕ, zero, suc, ◌≡◌, refl, ap, sym, ◌∙◌, List, [], ◌∷◌, ◌++◌, map, arith,
  Bool-cases, inl, inr, ◌==◌, if◌then◌else◌,
}
use build_your_own_redis.Message.{Message}
use build_your_own_redis.Command.Construct.{construct}
use build_your_own_redis.Middleware.Replicas.{
  Middleware, ReplicaHandle, write, push_handle, push_all, push, set_and_push,
}
use build_your_own_redis.Talker.Replication.{SetCall, command_of, serve}

-- The messages that went through a slot, in order.
unfoldable pub messages_for : ℕ → List (ℕ × Message) → List Message
messages_for slot [] = []
messages_for slot ((s, m) ∷ out) =
    let rest = messages_for slot out in if s == slot then m ∷ rest else rest

-- The replicas behind a slot that are past the handshake.
unfoldable pub writers : ℕ → List ReplicaHandle → ℕ
writers slot [] = 0
writers slot (h ∷ hs) = elim h.state [
  | write ↦ if h.slot_message == slot then suc (writers slot hs) else writers slot hs
  | _ ↦ writers slot hs
]

unfoldable times : ℕ → Message → List Message → List Message
times zero m rest = rest
times (suc n) m rest = m ∷ times n m rest

messages_for-append :
    (slot : ℕ) (out more : List (ℕ × Message))
    → messages_for slot (out ++ more) ≡ messages_for slot out ++ messages_for slot more
unfolding messages_for
messages_for-append slot [] more = refl
messages_for-append slot ((s, m) ∷ out) more = elim (Bool-cases (s == slot)) [
  | inl e ↦ rw e (ap (λ l. m ∷ l) (messages_for-append slot out more))
  | inr e ↦ rw e (messages_for-append slot out more)
]

writers-push_all :
    (slot : ℕ) (m : Message) (hs : List ReplicaHandle)
    → writers slot (push_all m hs).0 ≡ writers slot hs
unfolding writers push_all push_handle
writers-push_all slot m [] = refl
writers-push_all slot m (h ∷ hs) = ground (arith, writers-push_all slot m hs)

messages_for-push_all :
    (slot : ℕ) (m : Message) (hs : List ReplicaHandle)
    → messages_for slot (push_all m hs).1 ≡ times (writers slot hs) m []
unfolding messages_for writers push_all push_handle times
messages_for-push_all slot m [] = refl
messages_for-push_all slot m (h ∷ hs) = ground (arith, messages_for-push_all slot m hs)

sent-set_and_push :
    (slot : ℕ) (c : SetCall) (s : Middleware)
    → writers slot s.replicas ≡ 1
    → messages_for slot (set_and_push c.now c.key c.value c.expire_ms s).sent
      ≡ messages_for slot s.sent ++ construct (command_of c) ∷ []
unfolding set_and_push push
sent-set_and_push slot c s one =
    messages_for-append slot s.sent (push_all (construct (command_of c)) s.replicas).1
    ∙ ap (λ l. messages_for slot s.sent ++ l)
        (messages_for-push_all slot (construct (command_of c)) s.replicas
          ∙ rw one (unfold times in refl))

writers-set_and_push :
    (slot : ℕ) (c : SetCall) (s : Middleware)
    → writers slot (set_and_push c.now c.key c.value c.expire_ms s).replicas
      ≡ writers slot s.replicas
unfolding set_and_push push
writers-set_and_push slot c s = writers-push_all slot (construct (command_of c)) s.replicas

-- Whatever SETs the master serves, the slot behind which exactly one replica is past the handshake
-- gets the message of each, once and in their order, behind what it got before.
pub sent-serve :
    (slot : ℕ) (cs : List SetCall) (s : Middleware)
    → writers slot s.replicas ≡ 1
    → messages_for slot (serve cs s).sent
      ≡ messages_for slot s.sent ++ map (λ c. construct (command_of c)) cs
unfolding serve
sent-serve slot [] s one = sym (append-nil _)
sent-serve slot (c ∷ cs) s one =
    sent-serve slot cs (set_and_push c.now c.key c.value c.expire_ms s)
      (writers-set_and_push slot c s ∙ one)
    ∙ rw (sent-set_and_push slot c s one) (
        append_assoc (messages_for slot s.sent) (construct (command_of c) ∷ [])
          (map (λ d. construct (command_of d)) cs))
