-- ===== src/Talker/Arrives.antt =====
-- What a master pushes (src/storage_middleware.cpp), as bytes on the connection of a replica
-- (src/handler.cpp, src/replica_talker.cpp).
use build_your_own_redis.Prelude.{ℕ, ◌≡◌, refl, sym, ap, ◌∙◌, Bool, false, List, [], ◌∷◌, map, All}
use build_your_own_redis.Text.{Bytes}
use build_your_own_redis.Outcome.{Outcome, ok, err, undefined, >>=-eq-ok}
use build_your_own_redis.Message.{Message}
use build_your_own_redis.MessageParser.{on_buffer, try_parse}
use build_your_own_redis.MessageParser.Chunks.{IsSendable}
use build_your_own_redis.Handler.{
  Listened, listened, raised, lost, TalkerOps, Handler, no_more, append_all, process_read,
  process_write,
}
use build_your_own_redis.Handler.Hears.{texts_onto, open_with, Hears, process_read-texts_onto}
use build_your_own_redis.Command.Construct.{construct}
use build_your_own_redis.Command.RoundTrip.{IsLifetime}
use build_your_own_redis.Middleware.Replicas.{Middleware}
use build_your_own_redis.Talker.Replica.{
  ReplicaTalker, State, wait_server_commands, expects_file, process, listen_in, listen,
}
use build_your_own_redis.Talker.Handshake.{process-state}
use build_your_own_redis.Talker.Replication.{
  SetCall, command_of, serve, follow, IsSynced, follow-IsSynced,
}

abbrev pub listened_or : ReplicaTalker → Outcome ReplicaTalker → Listened ReplicaTalker
listened_or t (ok u) = listened u
listened_or t (err reason) = raised reason t
listened_or t undefined = lost

-- The virtual functions of a ReplicaTalker, at a time. Where the load of a file throws, what it had
-- restored is not in the talker here.
unfoldable pub replica_ops : (ℕ → ℕ) → ℕ → ℕ → TalkerOps ReplicaTalker
replica_ops clock port now = record {
  listen = λ m t. listened_or t (listen clock port now m t);
  interrupt = λ t. t;
  expects_file = expects_file;
  pending = λ t. t.pending;
  with_pending = λ ms t. record t { pending = ms };
}

-- The messages that are pushed for SETs
abbrev pub messages : List SetCall → List Message
messages cs = map (λ c. construct (command_of c)) cs

expects_file-waiting : (t : ReplicaTalker) → t.state ≡ wait_server_commands → expects_file t ≡ false
unfolding expects_file
expects_file-waiting t e = ap expects e
  where
    expects : State → Bool
    expects s = expects_file (record t { state = s })

listen-waiting :
    (clock : ℕ → ℕ) (port now : ℕ) (m : Message) (t : ReplicaTalker)
    → t.state ≡ wait_server_commands
    → listen clock port now m t ≡ process now m t
unfolding listen listen_in
listen-waiting clock port now m t e = ap (λ s. listen_in clock port now s m t) e

follow-Hears :
    (clock : ℕ → ℕ) (port now : ℕ) (cs : List SetCall) (t u : ReplicaTalker)
    → All (λ c. c.now ≡ now) cs
    → t.state ≡ wait_server_commands
    → follow cs t ≡ ok u
    → Hears (replica_ops clock port now) (messages cs) t u
unfolding follow replica_ops
follow-Hears clock port now [] t u n w e = (expects_file-waiting t w, cc)
follow-Hears clock port now (c ∷ cs) t u n w e =
    let (v, p, q) = >>=-eq-ok (process c.now (construct (command_of c)) t) (follow cs) e in
    let m = construct (command_of c) in
    (
      expects_file-waiting t w,
      v,
      ap (listened_or t)
          (listen-waiting clock port now m t w ∙ ap (λ k. process k m t) (sym n.0) ∙ p),
      follow-Hears clock port now cs v u n.1 (process-state c.now m t v p ∙ w) q,
    )

-- The bytes of the messages that a master pushes for SETs arrive, in any pieces, at a replica that is in
-- step with it and waits for its commands: the read returns, and the replica is in step with the master
-- that has served the SETs. These are served and arrive at one time, their lifetimes are positive ints,
-- and their messages are ones that their text brings across: no key or value is empty.
pub process_read-IsSynced :
    (clock : ℕ → ℕ) (port now id : ℕ) (chunks : List Bytes) (cs : List SetCall) (s : Middleware)
    (t : ReplicaTalker) (h : Handler ReplicaTalker)
    → All (λ c. c.now ≡ now) cs
    → All (λ c. IsLifetime c.expire_ms) cs
    → All IsSendable (messages cs)
    → t.state ≡ wait_server_commands
    → IsSynced id s t
    → append_all chunks [] ≡ texts_onto (messages cs) []
    → (u : ReplicaTalker) × (process_read
          (replica_ops clock port now)
          chunks
          no_more
          (open_with (on_buffer []) h t)
        ≡ process_write (replica_ops clock port now) (open_with (on_buffer []) h u))
      × IsSynced id (serve cs s) u
process_read-IsSynced clock port now id chunks cs s t h n l m w y a =
    let (u, e, z) = follow-IsSynced id cs s t l y in
    (
      u,
      process_read-texts_onto (replica_ops clock port now) chunks (messages cs) [] (on_buffer []) h
          t u m (unfold try_parse in refl) a (follow-Hears clock port now cs t u n w e),
      z,
    )
