-- ===== src/Handler/Output.antt =====
-- The bytes that Handler (src/handler.cpp) writes.
use mathlib.Core.Path.{subst}
use build_your_own_redis.Prelude.{
  take-drop, ◌≡◌, refl, sym, ap, ◌∙◌, Bool, true, false, Option, none, some, List, [], ◌∷◌, ◌++◌,
  append_assoc, append-nil, length, take, drop, Bool-cases, inl, inr, if◌then◌else◌,
}
use build_your_own_redis.Text.{Bytes}
use build_your_own_redis.Message.{Message, to_string}
use build_your_own_redis.MessageParser.{is_empty}
use build_your_own_redis.Handler.{
  TalkerOps, Wrote, wrote, would_block, conn_reset, failed, Handler, Run, ran, reset, threw_there,
  undefined_there, endless, Written, write_loop, write_size, min_size, after_write, write, send,
  close, is_leave, and_then, say_all,
}

-- What was taken and what is left are the bytes that there were.
write_loop-append :
    (socket : List Wrote) (left taken : Bytes)
    → (write_loop socket left taken).taken ++ (write_loop socket left taken).left ≡ taken ++ left
unfolding write_loop
write_loop-append socket [] taken = refl
write_loop-append [] (c ∷ left) taken = refl
write_loop-append (wrote n ∷ socket) (c ∷ left) taken =
    let count = min_size n (min_size write_size (length (c ∷ left))) in
    write_loop-append socket (drop count (c ∷ left)) (taken ++ take count (c ∷ left))
    ∙ append_assoc taken (take count (c ∷ left)) (drop count (c ∷ left))
    ∙ ap (λ t. taken ++ t) (take-drop count (c ∷ left))
write_loop-append (would_block ∷ socket) (c ∷ left) taken = refl
write_loop-append (conn_reset ∷ socket) (c ∷ left) taken = refl
write_loop-append (failed reason ∷ socket) (c ∷ left) taken = refl

-- All bytes that were given to the socket or wait for it
abbrev pub output : {T : Type 0} → Handler T → Bytes
output h = h.written ++ h.write_buffer

-- Where it returns, the output is this.
abbrev pub Outputs : {T : Type 0} → Bytes → Run T → Type 0
Outputs b (ran h) = output h ≡ b
Outputs b (reset h) = Unit
Outputs b (threw_there reason h) = Unit
Outputs b undefined_there = Unit
Outputs b endless = Unit

module _ {T : Type 0} where
  after_write-Outputs :
      (h : Handler T) (w : Written)
      → w.taken ++ w.left ≡ h.write_buffer
      → Outputs (output h) (after_write h w)
  unfolding after_write
  after_write-Outputs h w e = ended w.ended
    where
      same_output : (h.written ++ w.taken) ++ w.left ≡ output h
      same_output = append_assoc h.written w.taken w.left ∙ ap (λ t. h.written ++ t) e

      ended : (o : Option Wrote) → Outputs (output h) (after_write h (record w { ended = o }))
      ended none = same_output
      ended (some (wrote n)) = same_output
      ended (some would_block) = same_output
      ended (some conn_reset) = tt
      ended (some (failed reason)) = tt

  if-Outputs :
      (b : Bytes) (t : Bool) (p q : Run T)
      → Outputs b p
      → Outputs b q
      → Outputs b (if t then p else q)
  if-Outputs b true p q h k = h
  if-Outputs b false p q h k = k

  write-Outputs : (h : Handler T) → Outputs (output h) (write h)
  unfolding write
  write-Outputs h = if-Outputs (output h) (is_empty h.write_buffer) _ _ refl (
      if-Outputs (output h) h.is_open _ _
        (after_write-Outputs h (write_loop h.socket h.write_buffer [])
          (write_loop-append h.socket h.write_buffer []))
        tt)

  send-Outputs : (m : Message) (h : Handler T) → Outputs (output h ++ to_string m) (send m h)
  unfolding send
  send-Outputs m h =
      subst (λ b. Outputs b (write (record h { write_buffer = h.write_buffer ++ to_string m })))
        (sym (append_assoc h.written h.write_buffer (to_string m)))
        (write-Outputs (record h { write_buffer = h.write_buffer ++ to_string m }))

-- The texts of the messages before the first one that asks the handler to leave
abbrev pub texts : List Message → Bytes
texts [] = []
texts (m ∷ ms) = elim (is_leave m) [ true ↦ [] | false ↦ to_string m ++ texts ms ]

and_then-Outputs :
    {T : Type 0} (b d : Bytes) (r : Run T) (f : Handler T → Run T)
    → Outputs b r
    → ((h : Handler T) → output h ≡ b → Outputs d (f h))
    → Outputs d (and_then r f)
and_then-Outputs b d (ran h) f e k = k h e
and_then-Outputs b d (reset h) f e k = tt
and_then-Outputs b d (threw_there reason h) f e k = tt
and_then-Outputs b d undefined_there f e k = tt
and_then-Outputs b d endless f e k = tt

module _ {T : Type 0} (ops : TalkerOps T) where
  close-output : (h : Handler T) → output (close ops h) ≡ output h
  unfolding close
  close-output h = elim (Bool-cases h.is_open) [ inl e ↦ rw e refl | inr e ↦ rw e refl ]

  -- A message that asks to leave, or another one
  said-Outputs :
      (b : Bool) (m : Message) (ms : List Message) (h t : Handler T)
      → output t ≡ output h
      → ((u : Handler T) → Outputs (output u ++ texts ms) (say_all ops ms u))
      → Outputs
          (output h ++ (elim b [ true ↦ [] | false ↦ to_string m ++ texts ms ]))
          (elim b [ true ↦ ran (close ops t) | false ↦ and_then (send m t) (say_all ops ms) ])
  said-Outputs true m ms h t e k = close-output t ∙ e ∙ sym (append-nil (output h))
  said-Outputs false m ms h t e k =
      and_then-Outputs (output t ++ to_string m) _ (send m t) (say_all ops ms) (send-Outputs m t)
        λ u d.
          subst (λ b. Outputs b (say_all ops ms u))
            (ap (λ b. b ++ texts ms) (d ∙ ap (λ b. b ++ to_string m) e)
              ∙ append_assoc (output h) (to_string m) (texts ms))
            (k u)

  -- What a talker says goes to the socket, in order and without a gap: where the loop returns, the
  -- bytes that the socket took and those that wait for it are those of before and the texts of the
  -- messages behind them, up to one that asks to leave, whatever the socket takes at a time.
  pub say_all-Outputs :
      (ms : List Message) (h : Handler T) → Outputs (output h ++ texts ms) (say_all ops ms h)
  unfolding say_all
  say_all-Outputs [] h = sym (append-nil (output h))
  say_all-Outputs (m ∷ ms) h =
      said-Outputs (is_leave m) m ms h (record h { talker = ops.with_pending ms h.talker }) refl
        (say_all-Outputs ms)
