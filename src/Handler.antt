-- ===== src/Handler.antt =====
-- Handler of src/handler.h and src/handler.cpp: the bytes of one connection, between its socket and its
-- talker. The results of ::read and ::write are arguments.
pub mod Output
pub mod Hears
pub mod Events
pub mod Terminates
use build_your_own_redis.Prelude.{
  ℕ, zero, suc, ◌+◌, ◌*◌, ◌-◌, Bool, true, false, Option, none, some, List, [], ◌∷◌, ◌++◌, ltb,
  if◌then◌else◌, length, take, drop,
}
use build_your_own_redis.Text.{Bytes, text}
use build_your_own_redis.Message.{Message, leave, to_string}
use build_your_own_redis.MessageParser.{
  Parser, Tried, got, nothing_yet, threw, undefined_read, exhausted, try_parse, is_empty,
}

-- What a talker does with a message: it goes on, it throws, or its behaviour is undefined.
pub data Listened (T : Type 0) : Type 0 where
  listened : T → Listened T
  raised : Bytes → T → Listened T
  lost : Listened T

-- The virtual functions of Talker, and its queue of messages
pub record TalkerOps (T : Type 0) : Type 0 where
  pub listen : Message → T → Listened T
  pub interrupt : T → T
  pub expects_file : T → Bool
  pub pending : T → List Message
  pub with_pending : List Message → T → T

-- A result of ::write
pub data Wrote : Type 0 where
  wrote : ℕ → Wrote
  would_block conn_reset : Wrote
  failed : Bytes → Wrote

-- What ends the loop of ::read
pub data ReadEnd : Type 0 where
  no_more end_of_file reset_by_peer : ReadEnd
  read_failed : Bytes → ReadEnd

-- What is emitted: the descriptor is to be watched, also for writing or not, or no longer.
pub data Emitted : Type 0 where
  watched : Bool → Emitted
  removed : Emitted

-- `socket` are the results of ::write to come, `written` are the bytes that it took.
pub record Handler (T : Type 0) : Type 0 where
  pub is_open : Bool
  pub talker : T
  pub parser : Parser
  pub write_buffer : Bytes
  pub socket : List Wrote
  pub written : Bytes
  pub emitted : List Emitted

-- A function of the handler returns, throws ConnReset, or throws another exception;
-- `undefined_there` is undefined behaviour, and `endless` is no outcome, its loop ran out of fuel.
pub data Run (T : Type 0) : Type 0 where
  ran : Handler T → Run T
  reset : Handler T → Run T
  threw_there : Bytes → Handler T → Run T
  undefined_there : Run T
  endless : Run T

abbrev pub write_size : ℕ
write_size = 1024

abbrev pub min_size : ℕ → ℕ → ℕ
min_size a b = if ltb a b then a else b

-- The loop of write over the bytes that are left: these at its end, what was taken, the results to
-- come, and the result that ended it, if one did. ::write takes no more than it is given, and blocks
-- where no further result is left: a loop that goes on for ever, as ::write takes nothing each time, is
-- left out.
pub record Written : Type 0 where
  pub left : Bytes
  pub taken : Bytes
  pub socket : List Wrote
  pub ended : Option Wrote

unfoldable pub write_loop : List Wrote → Bytes → Bytes → Written
write_loop socket [] taken = record { left = []; taken = taken; socket = socket; ended = none }
write_loop [] (c ∷ left) taken = record {
  left = c ∷ left;
  taken = taken;
  socket = [];
  ended = some would_block;
}
write_loop (wrote n ∷ socket) (c ∷ left) taken =
    let count = min_size n (min_size write_size (length (c ∷ left))) in
    write_loop socket (drop count (c ∷ left)) (taken ++ take count (c ∷ left))
write_loop (w ∷ socket) (c ∷ left) taken = record {
  left = c ∷ left;
  taken = taken;
  socket = socket;
  ended = some w;
}

module _ {T : Type 0} where
  abbrev pub setup_poll : Bool → Handler T → Handler T
  setup_poll write h = record h { emitted = h.emitted ++ watched write ∷ [] }

  -- An exception leaves the buffer as it was, with the bytes that were taken.
  unfoldable pub after_write : Handler T → Written → Run T
  unfolding is_empty
  after_write h w =
      let t = record h { socket = w.socket; written = h.written ++ w.taken } in
      let u = record t { write_buffer = w.left } in
      elim w.ended [
        | none ↦ ran (setup_poll false u)
        | some conn_reset ↦ reset t
        | some (failed reason) ↦ threw_there reason t
        | some (wrote n) ↦ ran (setup_poll true u)
        | some would_block ↦ ran (setup_poll true u)
      ]

  -- Handler::write
  unfoldable pub write : Handler T → Run T
  unfolding after_write write_loop is_empty
  write h =
      if is_empty h.write_buffer
      then ran h
      else if h.is_open
      then after_write h (write_loop h.socket h.write_buffer [])
      else threw_there (text "bad optional access") h

  -- Handler::send
  unfoldable pub send : Message → Handler T → Run T
  unfolding write
  send m h = write (record h { write_buffer = h.write_buffer ++ to_string m })

unfoldable pub append_all : List Bytes → Bytes → Bytes
append_all [] b = b
append_all (c ∷ cs) b = append_all cs (b ++ c)

abbrev pub is_leave : Message → Bool
is_leave leave = true
is_leave m = false

abbrev pub and_then : {T : Type 0} → Run T → (Handler T → Run T) → Run T
and_then (ran h) f = f h
and_then (reset h) f = reset h
and_then (threw_there reason h) f = threw_there reason h
and_then undefined_there f = undefined_there
and_then endless f = endless

module _ {T : Type 0} (ops : TalkerOps T) where
  -- Handler::close
  unfoldable pub close : Handler T → Handler T
  close h =
      if h.is_open
      then record h {
        is_open = false;
        talker = ops.interrupt h.talker;
        emitted = h.emitted ++ removed ∷ [];
      }
      else h

  -- The loop of process_write over the messages that the talker says
  unfoldable pub say_all : List Message → Handler T → Run T
  unfolding send close
  say_all [] h = ran h
  say_all (m ∷ ms) h =
      let t = record h { talker = ops.with_pending ms h.talker } in
      elim (is_leave m) [ true ↦ ran (close t) | false ↦ and_then (send m t) (say_all ms) ]

  abbrev pub closing : Run T → Run T
  closing (reset h) = ran (close h)
  closing r = r

  -- Handler::process_write
  unfoldable pub process_write : Handler T → Run T
  unfolding say_all
  process_write h = closing (say_all (ops.pending h.talker) h)

  -- Handler::read: what ::read returned, one after another, and its end. That it comes to an end, and bytes
  -- do not arrive for ever faster than they are read, is taken for granted.
  unfoldable pub read : List Bytes → ReadEnd → Handler T → Run T
  unfolding append_all
  read chunks last h =
      let t = record h {
        parser = record h.parser { buffer = append_all chunks h.parser.buffer };
      } in
      if h.is_open
      then elim last [
        | no_more ↦ ran t
        | end_of_file ↦ reset t
        | reset_by_peer ↦ reset t
        | read_failed reason ↦ threw_there reason t
      ]
      else threw_there (text "bad optional access") h

  unfoldable pub after_listen : (Handler T → Run T) → Handler T → Listened T → Run T
  after_listen again h (listened t) = again (record h { talker = t })
  after_listen again h (raised reason t) = threw_there reason (record h { talker = t })
  after_listen again h lost = undefined_there

  unfoldable pub after_parse : (Handler T → Run T) → Handler T → Tried → Run T
  unfolding after_listen
  after_parse again h (got m p) =
      after_listen again (record h { parser = p }) (ops.listen m h.talker)
  after_parse again h (nothing_yet p) = ran (record h { parser = p })
  after_parse again h (threw reason p) = threw_there reason (record h { parser = p })
  after_parse again h undefined_read = undefined_there
  after_parse again h exhausted = endless

  -- The loop of process_read over the messages in the buffer
  unfoldable pub listen_all : ℕ → Handler T → Run T
  unfolding after_parse
  listen_all zero h = endless
  listen_all (suc n) h =
      after_parse (listen_all n) h (try_parse (ops.expects_file h.talker) h.parser)

  -- Handler::process_read. Each message takes bytes, or is followed by one that does.
  unfoldable pub process_read : List Bytes → ReadEnd → Handler T → Run T
  unfolding read listen_all process_write
  process_read chunks last h =
      and_then
        (closing (and_then (read chunks last h) λ t. listen_all (2 * length t.parser.buffer + 2) t))
        process_write
