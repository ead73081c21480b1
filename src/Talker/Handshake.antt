-- ===== src/Talker/Handshake.antt =====
-- The handshake of ReplicaTalker with its master (src/replica_talker.cpp).
use build_your_own_redis.Prelude.{
  ℕ, ◌+◌, ◌≡◌, ◌⊎◌, refl, sym, ap, true, List, [], ◌∷◌, arith, Bool-cases, inl, inr,
}
use build_your_own_redis.Text.{Bytes, text, same, to_lower_case}
use build_your_own_redis.Text.Decimal.{decimal}
use build_your_own_redis.Outcome.{Outcome, ok, err, undefined, ◌>>=◌, >>=-eq-ok}
use build_your_own_redis.Message.{Message, simple_string, sync_response}
use build_your_own_redis.Command.{Command, ping, set, replconf, psync}
use build_your_own_redis.Command.Construct.{construct}
use build_your_own_redis.Command.Parse.{try_parse}
use build_your_own_redis.Middleware.Replicas.{Middleware}
use build_your_own_redis.Storage.Keyspace.{Keyspace}
use build_your_own_redis.Storage.Restore.{load}
use build_your_own_redis.Talker.{next_say}
use build_your_own_redis.Talker.Replica.{
  State, initial, undefined_state, wait_first_pong, wait_ok_for_replconf_port,
  wait_ok_for_replconf_capa, wait_for_psync_answer, wait_for_rdb_file_sync, wait_server_commands,
  ReplicaTalker, start, hear, hear_psync, hear_file, answer_getack, obey, count_bytes,
  process_parsed, process, listen_in, listen,
}

-- The place of a state in the handshake: the value of its constant in the source.
abbrev pub rank : State → ℕ
rank initial = 0
rank undefined_state = 1
rank wait_first_pong = 2
rank wait_ok_for_replconf_port = 3
rank wait_ok_for_replconf_capa = 4
rank wait_for_psync_answer = 5
rank wait_for_rdb_file_sync = 6
rank wait_server_commands = 7

hear-rank :
    (m : Message) (word : Bytes) (state : State) (c : Command) (t : ReplicaTalker)
    → rank state ≡ rank t.state + 1
    → ((hear m word state c t).state ≡ t.state)
      ⊎ (rank (hear m word state c t).state ≡ rank t.state + 1)
unfolding hear
hear-rank (simple_string s) word state c t h = elim (Bool-cases (same (to_lower_case s) word)) [
  | inl e ↦ rw e (inr h)
  | inr e ↦ rw e (inl refl)
]
hear-rank _ word state c t h = inl refl

answer_getack-state :
    (args : List Bytes) (t u : ReplicaTalker) → answer_getack args t ≡ ok u → u.state ≡ t.state
unfolding answer_getack
answer_getack-state [] t u e = ground arith
answer_getack-state (a ∷ []) t u e = ground arith
answer_getack-state (a ∷ b ∷ rest) t u e = ground arith

obey-state : (now : ℕ) (c : Command) (t u : ReplicaTalker) → obey now c t ≡ ok u → u.state ≡ t.state
unfolding obey
obey-state now (set key value expire_ms) t u e = ground arith
obey-state now (replconf args) t u e = answer_getack-state args t u e
obey-state now _ t u e = ground arith

process_parsed-state :
    (now : ℕ) (m : Message) (c : Outcome Command) (t u : ReplicaTalker)
    → process_parsed now m c t ≡ ok u
    → u.state ≡ t.state
unfolding process_parsed count_bytes
process_parsed-state now m (ok c) t u e =
    let (v, p, q) = >>=-eq-ok (obey now c t) _ e in ground arith
process_parsed-state now m (err reason) t u e = ground arith
process_parsed-state now m undefined t u e = ground arith

pub process-state :
    (now : ℕ) (m : Message) (t u : ReplicaTalker) → process now m t ≡ ok u → u.state ≡ t.state
unfolding process
process-state now m t u e = process_parsed-state now m (try_parse m) t u e

hear_file-rank :
    (clock : ℕ → ℕ) (now : ℕ) (m : Message) (t u : ReplicaTalker)
    → t.state ≡ wait_for_rdb_file_sync
    → hear_file clock now m t ≡ ok u
    → (u.state ≡ t.state) ⊎ (rank u.state ≡ rank t.state + 1)
unfolding hear_file
hear_file-rank clock now (sync_response s) t u h e =
    let (d, p, q) = >>=-eq-ok (load clock now s t.storage.storage) _ e in
    inr (rw h (cong_rank (to_end q)))
  where
    to_end :
        {d : Keyspace}
        → ok (record t { state = wait_server_commands; storage = record t.storage { storage = d } })
          ≡ ok u
        → wait_server_commands ≡ u.state
    to_end q = cc

    cong_rank : {s : State} → wait_server_commands ≡ s → rank s ≡ 7
    cong_rank q = ap rank (sym q)
hear_file-rank clock now _ t u h e = inl (ground arith)

hear_psync-rank :
    (m : Message) (t : ReplicaTalker)
    → t.state ≡ wait_for_psync_answer
    → ((hear_psync m t).state ≡ t.state) ⊎ (rank (hear_psync m t).state ≡ rank t.state + 1)
unfolding hear_psync
hear_psync-rank (simple_string s) t h = inr (rw h refl)
hear_psync-rank _ t h = inl refl

-- What the two sides of the rank say of a result, for each result of the talker
moved :
    {v u : ReplicaTalker} (t : ReplicaTalker)
    → ok v ≡ ok u
    → (v.state ≡ t.state) ⊎ (rank v.state ≡ rank t.state + 1)
    → (u.state ≡ t.state) ⊎ (rank u.state ≡ rank t.state + 1)
moved {v} {u} t e h = let same_talker : v ≡ u = cc in rw (sym same_talker) h

listen_in-rank :
    (clock : ℕ → ℕ) (port now : ℕ) (s : State) (m : Message) (t u : ReplicaTalker)
    → t.state ≡ s
    → listen_in clock port now s m t ≡ ok u
    → (u.state ≡ t.state) ⊎ (rank u.state ≡ rank t.state + 1)
unfolding listen_in
listen_in-rank clock port now wait_first_pong m t u h e =
    moved t e (hear-rank m _ _ _ t (rw h refl))
listen_in-rank clock port now wait_ok_for_replconf_port m t u h e =
    moved t e (hear-rank m _ _ _ t (rw h refl))
listen_in-rank clock port now wait_ok_for_replconf_capa m t u h e =
    moved t e (hear-rank m _ _ _ t (rw h refl))
listen_in-rank clock port now wait_for_psync_answer m t u h e = moved t e (hear_psync-rank m t h)
listen_in-rank clock port now wait_for_rdb_file_sync m t u h e = hear_file-rank clock now m t u h e
listen_in-rank clock port now wait_server_commands m t u h e = inl (process-state now m t u e)
listen_in-rank clock port now undefined_state m t u h e = moved t e (inl refl)
listen_in-rank clock port now initial m t u h e = moved t e (inl refl)

-- Whatever message the talker hears, where it returns, its state either stays or moves to the next
-- one of the handshake: no state is skipped, and none is entered again.
pub listen-rank :
    (clock : ℕ → ℕ) (port now : ℕ) (m : Message) (t u : ReplicaTalker)
    → listen clock port now m t ≡ ok u
    → (u.state ≡ t.state) ⊎ (rank u.state ≡ rank t.state + 1)
unfolding listen
listen-rank clock port now m t u e = listen_in-rank clock port now t.state m t u refl e

-- The talker hears one message after another.
unfoldable pub listen_all : (ℕ → ℕ) → ℕ → ℕ → List Message → ReplicaTalker → Outcome ReplicaTalker
listen_all clock port now [] t = ok t
listen_all clock port now (m ∷ ms) t =
    listen clock port now m t >>= λ u. listen_all clock port now ms u

-- The handshake with a master that answers PONG, OK, OK (in any case of letters), one line for
-- PSYNC and a file that can be loaded: the replica has asked PING, its listening port, its
-- capabilities and PSYNC ? -1, in this order, holds what the file holds, has counted no byte of
-- it, and waits for the commands of the master.
pub handshake :
    (clock : ℕ → ℕ) (port now : ℕ) (pong first_ok second_ok resync file : Bytes) (s : Middleware)
    (loaded : Keyspace)
    → same (to_lower_case pong) (text "pong") ≡ true
    → same (to_lower_case first_ok) (text "ok") ≡ true
    → same (to_lower_case second_ok) (text "ok") ≡ true
    → load clock now file s.storage ≡ ok loaded
    → listen_all clock port now
        (simple_string pong
          ∷ simple_string first_ok
          ∷ simple_string second_ok
          ∷ simple_string resync
          ∷ sync_response file
          ∷ [])
        (start s)
      ≡ ok (record {
        state = wait_server_commands;
        pending =
            construct ping
            ∷ construct (replconf (text "listening-port" ∷ decimal port ∷ []))
            ∷ construct (replconf (text "capa" ∷ text "psync2" ∷ []))
            ∷ construct (psync (text "?" ∷ text "-1" ∷ []))
            ∷ [];
        bytes_in = 0;
        storage = record s { storage = loaded };
      })
unfolding listen_all listen listen_in hear hear_psync hear_file start next_say
handshake clock port now pong first_ok second_ok resync file s loaded p q r l = rw (p, q, r, l) refl
