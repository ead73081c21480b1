-- ===== src/Handler/Hears.antt =====
-- The messages that Handler (src/handler.cpp) hands to its talker.
use build_your_own_redis.Prelude.{
  ℕ, zero, suc, ◌+◌, ◌*◌, ◌<◌, ◌≤◌, ◌≡◌, refl, ap, true, false, List, [], ◌∷◌, ◌++◌, arith, length,
  length-append, All,
}
use build_your_own_redis.Text.{Bytes}
use build_your_own_redis.Message.{Message, to_string}
use build_your_own_redis.MessageParser.{Parser, nothing_yet, try_parse, on_buffer}
use build_your_own_redis.MessageParser.Chunks.{IsSendable}
use build_your_own_redis.MessageParser.RoundTrip.{try_parse-to_string, length-to_string}
use build_your_own_redis.Handler.{
  listened, TalkerOps, Handler, ran, no_more, append_all, read, after_listen, after_parse,
  listen_all, process_write, process_read,
}

-- The texts of messages before a tail
abbrev pub texts_onto : List Message → Bytes → Bytes
texts_onto [] tail = tail
texts_onto (m ∷ ms) tail = to_string m ++ texts_onto ms tail

length-texts_onto :
    (ms : List Message) (tail : Bytes) → All IsSendable ms → length ms ≤ length (texts_onto ms tail)
length-texts_onto [] tail h = omega arith
length-texts_onto (m ∷ ms) tail h = omega (
  arith,
  length-append (to_string m) (texts_onto ms tail),
  length-to_string m h.0,
  length-texts_onto ms tail h.1,
)

-- An open connection whose parser is in this state
abbrev pub open_with : {T : Type 0} → Parser → Handler T → T → Handler T
open_with p h t = record h { is_open = true; parser = p; talker = t }

module _ {T : Type 0} (ops : TalkerOps T) where
  -- The talker, which expects no file, listens to one message after another without an exception.
  abbrev pub Hears : List Message → T → T → Type 0
  Hears [] t u = (ops.expects_file t ≡ false) × (t ≡ u)
  Hears (m ∷ ms) t u =
      (ops.expects_file t ≡ false) × (v : T) × (ops.listen m t ≡ listened v) × Hears ms v u

  listen_all-texts_onto :
      (ms : List Message) (n : ℕ) (tail : Bytes) (p : Parser) (h : Handler T) (t u : T)
      → All IsSendable ms
      → try_parse false (on_buffer tail) ≡ nothing_yet p
      → length ms < n
      → Hears ms t u
      → listen_all ops n (open_with (on_buffer (texts_onto ms tail)) h t) ≡ ran (open_with p h u)
  unfolding listen_all after_parse after_listen
  listen_all-texts_onto ms zero tail p h t u s q l e = absurd (omega arith)
  listen_all-texts_onto [] (suc n) tail p h t u s q l (x, same_talker) =
      rw (x, q) (ap (λ v. ran (open_with p h v)) same_talker)
  listen_all-texts_onto (m ∷ ms) (suc n) tail p h t u s q l (x, v, e, d) =
      rw (x, try_parse-to_string m (texts_onto ms tail) s.0, e)
        (listen_all-texts_onto ms n tail p h v u s.1 q (omega arith) d)

  -- Bytes that arrive in any pieces on a connection with nothing in its buffer, and that are the texts
  -- of messages and a tail that holds no whole message: the talker listens to just these messages, one
  -- after another, the tail stays with the parser, and the handler goes on to write. The messages are
  -- ones that their text brings across, the talker expects no file at any of them or behind them, and
  -- takes them without an exception.
  pub process_read-texts_onto :
      (chunks : List Bytes) (ms : List Message) (tail : Bytes) (p : Parser) (h : Handler T)
      (t u : T)
      → All IsSendable ms
      → try_parse false (on_buffer tail) ≡ nothing_yet p
      → append_all chunks [] ≡ texts_onto ms tail
      → Hears ms t u
      → process_read ops chunks no_more (open_with (on_buffer []) h t)
        ≡ process_write ops (open_with p h u)
  unfolding process_read read
  process_read-texts_onto chunks ms tail p h t u s q c e =
      rw
        (
          c,
          listen_all-texts_onto ms (2 * length (texts_onto ms tail) + 2) tail p h t u s q
              (omega (arith, length-texts_onto ms tail s)) e,
        )
        refl
