-- ===== src/Handler/Terminates.antt =====
-- The loops of Handler (src/handler.cpp): over the messages in its buffer, and over ::write.
use mathlib.Core.Path.{subst}
use build_your_own_redis.Prelude.{
  ℕ, zero, suc, ◌*◌, ◌+◌, ◌<◌, ◌≢◌, refl, Bool, true, false, Option, none, some, List, [], ◌∷◌,
  ◌++◌, length, arith, drop, All, ◌≤◌, ◌≡◌, if◌then◌else◌,
}
use build_your_own_redis.Text.{Bytes, text}
use build_your_own_redis.Message.{Message, to_string}
use build_your_own_redis.MessageParser.{
  Tried, got, nothing_yet, threw, undefined_read, exhausted, is_empty,
}
use build_your_own_redis.MessageParser.Terminates.{measure, try_parse-ne-exhausted}
use build_your_own_redis.MessageParser.Shrinks.{Shrinks, try_parse-Shrinks, measure-lt}
use build_your_own_redis.Handler.{
  Listened, listened, raised, lost, TalkerOps, Handler, Run, ran, reset, threw_there,
  undefined_there, endless, ReadEnd, no_more, end_of_file, reset_by_peer, read_failed, Wrote, wrote,
  would_block, conn_reset, failed, Written, write_loop, min_size, write_size, after_write, write,
  send, close, is_leave, and_then, closing, say_all, read, after_listen, after_parse, listen_all,
  process_write, process_read,
}

abbrev with_more : List Wrote → Written → Written
with_more later w = record w { socket = w.socket ++ later }

drop-shorter : (n : ℕ) (b : Bytes) → length (drop n b) ≤ length b
drop-shorter zero b = omega arith
drop-shorter (suc n) [] = omega arith
drop-shorter (suc n) (c ∷ b) = omega (arith, drop-shorter n b)

drop-shorter_pos : (n c : ℕ) (b : Bytes) → 0 < n → length (drop n (c ∷ b)) ≤ length b
drop-shorter_pos zero c b h = absurd (omega arith)
drop-shorter_pos (suc n) c b h = drop-shorter n b

-- Where ::write never takes nothing, the loop over it is over after as many results as there are bytes: the
-- results that come later do not matter.
write_loop-ends :
    (ws later : List Wrote) (b taken : Bytes)
    → All (λ w. w ≢ wrote 0) ws
    → length b ≤ length ws
    → write_loop (ws ++ later) b taken ≡ with_more later (write_loop ws b taken)
unfolding write_loop
write_loop-ends ws later [] taken h l = refl
write_loop-ends [] later (c ∷ b) taken h l = absurd (omega arith)
write_loop-ends (wrote zero ∷ ws) later (c ∷ b) taken h l = absurd (h.0 refl)
write_loop-ends (wrote (suc n) ∷ ws) later (c ∷ b) taken h l =
    let count = min_size (suc n) (min_size write_size (suc (length b))) in
    let shorter = drop-shorter_pos count c b (ground arith) in
    write_loop-ends ws later (drop count (c ∷ b)) _ h.1 (omega (arith, l, shorter))
write_loop-ends (would_block ∷ ws) later (c ∷ b) taken h l = refl
write_loop-ends (conn_reset ∷ ws) later (c ∷ b) taken h l = refl
write_loop-ends (failed reason ∷ ws) later (c ∷ b) taken h l = refl

abbrev IsOver : {T : Type 0} → Run T → Type 0
IsOver endless = ⊥
IsOver _ = Unit

and_then-IsOver :
    {T : Type 0} (r : Run T) (f : Handler T → Run T)
    → IsOver r
    → ((h : Handler T) → IsOver (f h))
    → IsOver (and_then r f)
and_then-IsOver (ran h) f e k = k h
and_then-IsOver (reset h) f e k = tt
and_then-IsOver (threw_there reason h) f e k = tt
and_then-IsOver undefined_there f e k = tt
and_then-IsOver endless f e k = e

if-IsOver :
    {T : Type 0} (t : Bool) (p q : Run T) → IsOver p → IsOver q → IsOver (if t then p else q)
if-IsOver true p q h k = h
if-IsOver false p q h k = k

module _ {T : Type 0} (ops : TalkerOps T) where
  after_write-IsOver : (h : Handler T) (w : Written) → IsOver (after_write h w)
  unfolding after_write
  after_write-IsOver h w = ended w.ended
    where
      ended : (o : Option Wrote) → IsOver (after_write h (record w { ended = o }))
      ended none = tt
      ended (some (wrote n)) = tt
      ended (some would_block) = tt
      ended (some conn_reset) = tt
      ended (some (failed reason)) = tt

  write-IsOver : (h : Handler T) → IsOver (write h)
  unfolding write
  write-IsOver h =
      let on_socket = write_loop h.socket h.write_buffer [] in
      let no_socket = threw_there (text "bad optional access") h in
      if-IsOver {T = T} (is_empty h.write_buffer) (ran h)
        (if h.is_open then after_write h on_socket else no_socket) tt
        (if-IsOver {T = T} h.is_open (after_write h on_socket) no_socket
          (after_write-IsOver h on_socket) tt)

  send-IsOver : (m : Message) (h : Handler T) → IsOver (send m h)
  unfolding send
  send-IsOver m h = write-IsOver (record h { write_buffer = h.write_buffer ++ to_string m })

  say_all-IsOver : (ms : List Message) (h : Handler T) → IsOver (say_all ops ms h)
  unfolding say_all
  say_all-IsOver [] h = tt
  say_all-IsOver (m ∷ ms) h =
      by_type (is_leave m) (record h { talker = ops.with_pending ms h.talker }) (say_all-IsOver ms)
    where
      by_type :
          (b : Bool) (t : Handler T)
          → ((u : Handler T) → IsOver (say_all ops ms u))
          → IsOver
              (elim b [ true ↦ ran (close ops t) | false ↦ and_then (send m t) (say_all ops ms) ])
      by_type true t k = tt
      by_type false t k = and_then-IsOver (send m t) (say_all ops ms) (send-IsOver m t) k

  closing-IsOver : (r : Run T) → IsOver r → IsOver (closing ops r)
  closing-IsOver (ran h) e = tt
  closing-IsOver (reset h) e = tt
  closing-IsOver (threw_there reason h) e = tt
  closing-IsOver undefined_there e = tt
  closing-IsOver endless e = e

  process_write-IsOver : (h : Handler T) → IsOver (process_write ops h)
  unfolding process_write
  process_write-IsOver h = closing-IsOver _ (say_all-IsOver (ops.pending h.talker) h)

  after_parse-IsOver :
      (n : ℕ) (again : Handler T → Run T) (h : Handler T) (o : Tried)
      → Shrinks n o
      → o ≢ exhausted
      → ((t : Handler T) → measure t.parser < n → IsOver (again t))
      → IsOver (after_parse ops again h o)
  unfolding after_parse after_listen
  after_parse-IsOver n again h (got m p) s x k = by_answer (ops.listen m h.talker)
    where
      by_answer : (o : Listened T) → IsOver (after_listen ops again (record h { parser = p }) o)
      by_answer (listened t) = k (record h { parser = p; talker = t }) s
      by_answer (raised reason t) = tt
      by_answer lost = tt
  after_parse-IsOver n again h (nothing_yet p) s x k = tt
  after_parse-IsOver n again h (threw reason p) s x k = tt
  after_parse-IsOver n again h undefined_read s x k = tt
  after_parse-IsOver n again h exhausted s x k = x refl

  listen_all-IsOver : (n : ℕ) (h : Handler T) → measure h.parser < n → IsOver (listen_all ops n h)
  unfolding listen_all
  listen_all-IsOver zero h l = absurd (omega arith)
  listen_all-IsOver (suc n) h l =
      after_parse-IsOver (measure h.parser) (listen_all ops n) h _
        (try_parse-Shrinks (ops.expects_file h.talker) h.parser)
        (try_parse-ne-exhausted (ops.expects_file h.talker) h.parser)
        λ t g. listen_all-IsOver n t (omega (arith, l, g))

  read-IsOver :
      (chunks : List Bytes) (last : ReadEnd) (h : Handler T) → IsOver (read ops chunks last h)
  unfolding read
  read-IsOver chunks no_more h = if-IsOver h.is_open _ _ tt tt
  read-IsOver chunks end_of_file h = if-IsOver h.is_open _ _ tt tt
  read-IsOver chunks reset_by_peer h = if-IsOver h.is_open _ _ tt tt
  read-IsOver chunks (read_failed reason) h = if-IsOver h.is_open _ _ tt tt

  -- Where ::read gives finitely many chunks and then its end, and the loops over ::write are over within
  -- finitely many results, process_read comes to an end with its loop over the messages in the buffer,
  -- whatever the bytes are and whatever the parser and the talker do: the fuel of this loop suffices.
  pub process_read-ne-endless :
      (chunks : List Bytes) (last : ReadEnd) (h : Handler T)
      → process_read ops chunks last h ≢ endless
  unfolding process_read
  process_read-ne-endless chunks last h e = subst IsOver e (
      and_then-IsOver _ (process_write ops)
        (closing-IsOver _ (
          and_then-IsOver (read ops chunks last h) _ (read-IsOver chunks last h)
            λ t. listen_all-IsOver (2 * length t.parser.buffer + 2) t (measure-lt t.parser)))
        process_write-IsOver)
