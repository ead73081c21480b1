-- ===== src/Handler/Events.antt =====
-- The events of a connection: the slot that Handler (src/handler.cpp) gives to the poller, its start and
-- the job that it repeats, with what becomes of an exception.
use mathlib.Core.Path.{subst}
use build_your_own_redis.Prelude.{
  ◌≡◌, ◌≢◌, ◌↔◌, refl, sym, ap, ◌∙◌, true, false, Option, none, some, List, [], ◌∷◌, if◌then◌else◌,
  Bool-cases, inl, inr,
}
use build_your_own_redis.Text.{Bytes, text}
use build_your_own_redis.MessageParser.{is_empty}
use build_your_own_redis.Poller.{
  PollEventType, ready_to_read, ready_to_write, hang_up, error, invalid_fd,
}
use build_your_own_redis.Handler.{
  TalkerOps, Handler, Run, ran, reset, threw_there, undefined_there, endless, ReadEnd, Wrote, wrote,
  would_block, conn_reset, failed, Written, write_loop, after_write, write, close, and_then,
  closing, setup_poll, say_all, process_write, process_read,
}

-- What a call by the event loop comes to. The loop catches each std::exception; ConnReset derives from
-- std::runtime_error privately, so it is none, and nothing catches it.
pub data Fired (T : Type 0) : Type 0 where
  fired : Handler T → Fired T
  logged : Bytes → Handler T → Fired T
  terminated : Handler T → Fired T
  undefined_fire : Fired T
  endless_fire : Fired T

nothing_ended :
    (socket : List Wrote) (b : Bytes) → is_empty b ≡ true → (write_loop socket b []).ended ≡ none
unfolding write_loop is_empty
nothing_ended socket [] e = refl
nothing_ended socket (c ∷ b) e = cc

module _ {T : Type 0} where
  unfoldable pub caught : Run T → Fired T
  caught (ran h) = fired h
  caught (reset h) = terminated h
  caught (threw_there reason h) = logged reason h
  caught undefined_there = undefined_fire
  caught endless = endless_fire

  -- Handler::start, up to the job that it repeats
  unfoldable pub start : Handler T → Handler T
  start h = if h.is_open then setup_poll false h else h

  -- The connection was reset by the other side before all that waits was written.
  abbrev pub IsResetThere : Handler T → Type 0
  IsResetThere h = (write_loop h.socket h.write_buffer []).ended ≡ some conn_reset

  abbrev Terminates : Fired T → Type 0
  Terminates f = (t : Handler T) × (f ≡ terminated t)

  after_write-Terminates :
      (h : Handler T) (w : Written)
      → Terminates (caught (after_write h w)) ↔ (w.ended ≡ some conn_reset)
  unfolding caught after_write
  after_write-Terminates h w = ended w.ended
    where
      ended :
          (o : Option Wrote)
          → Terminates (caught (after_write h (record w { ended = o }))) ↔ (o ≡ some conn_reset)
      ended none = (λ (t, e). cc, λ e. cc)
      ended (some (wrote n)) = (λ (t, e). cc, λ e. cc)
      ended (some would_block) = (λ (t, e). cc, λ e. cc)
      ended (some conn_reset) = (λ x. refl, λ e. (_, refl))
      ended (some (failed reason)) = (λ (t, e). cc, λ e. cc)

  write-Terminates :
      (h : Handler T) → h.is_open ≡ true → Terminates (caught (write h)) ↔ IsResetThere h
  unfolding write caught
  write-Terminates h o = elim (Bool-cases (is_empty h.write_buffer)) [
    | inl e ↦
        let none_ended = nothing_ended h.socket h.write_buffer e in
        rw e (λ (t, f). cc, λ f. cc (none_ended))
    | inr e ↦
        let taken = write_loop h.socket h.write_buffer [] in
        let no_socket = threw_there (text "bad optional access") h in
        let on_socket : write h ≡ after_write h taken =
          ap (λ b. if b then ran h else if h.is_open then after_write h taken else no_socket) e
          ∙ ap (λ b. if b then after_write h taken else no_socket) o in
        subst (λ r. Terminates (caught r) ↔ IsResetThere h) (sym on_socket)
          (after_write-Terminates h taken)
  ]

module _ {T : Type 0} (ops : TalkerOps T) where
  unfoldable pub on_open : PollEventType → List Bytes → ReadEnd → Handler T → Fired T
  unfolding caught process_read write close
  on_open ready_to_read chunks last h = caught (process_read ops chunks last h)
  on_open ready_to_write chunks last h = caught (write h)
  on_open hang_up chunks last h = fired (close ops h)
  on_open error chunks last h = logged (text "Handler got unexpected poll event") (close ops h)
  on_open invalid_fd chunks last h = logged (text "Handler got unexpected poll event") (close ops h)

  -- The slot of the handler, with the results of ::read
  unfoldable pub on_event : PollEventType → List Bytes → ReadEnd → Handler T → Fired T
  unfolding on_open
  on_event event chunks last h = if h.is_open then on_open event chunks last h else fired h

  -- The job that Handler::start repeats
  unfoldable pub on_repeat : Handler T → Fired T
  unfolding caught process_write
  on_repeat h = caught (process_write ops h)

  -- No ConnReset leaves.
  abbrev IsCaught : Run T → Type 0
  IsCaught r = (h : Handler T) → caught r ≢ terminated h

  closing-IsCaught : (r : Run T) → IsCaught (closing ops r)
  unfolding caught
  closing-IsCaught (ran h) t e = cc
  closing-IsCaught (reset h) t e = cc
  closing-IsCaught (threw_there reason h) t e = cc
  closing-IsCaught undefined_there t e = cc
  closing-IsCaught endless t e = cc

  and_then-IsCaught :
      (r : Run T) (f : Handler T → Run T)
      → IsCaught r
      → ((h : Handler T) → IsCaught (f h))
      → IsCaught (and_then r f)
  unfolding caught
  and_then-IsCaught (ran h) f k n = n h
  and_then-IsCaught (reset h) f k n = k
  and_then-IsCaught (threw_there reason h) f k n = k
  and_then-IsCaught undefined_there f k n = k
  and_then-IsCaught endless f k n = k

  process_write-IsCaught : (h : Handler T) → IsCaught (process_write ops h)
  unfolding process_write
  process_write-IsCaught h = closing-IsCaught (say_all ops (ops.pending h.talker) h)

  process_read-IsCaught :
      (chunks : List Bytes) (last : ReadEnd) (h : Handler T)
      → IsCaught (process_read ops chunks last h)
  unfolding process_read
  process_read-IsCaught chunks last h =
      and_then-IsCaught _ (process_write ops) (closing-IsCaught _) process_write-IsCaught

  -- A ConnReset leaves the slot of a connection uncaught, which terminates the server, exactly where the
  -- event is that an open connection can be written to and this turns out to be reset by the other side
  -- while the bytes that wait are written.
  pub on_event-terminated_iff :
      (event : PollEventType) (chunks : List Bytes) (last : ReadEnd) (h : Handler T)
      → ((t : Handler T) × (on_event event chunks last h ≡ terminated t))
        ↔ ((event ≡ ready_to_write) × (h.is_open ≡ true) × IsResetThere h)
  unfolding on_event on_open
  on_event-terminated_iff event chunks last h = elim (Bool-cases h.is_open) [
    | inl o ↦
        subst (λ f. Terminates f ↔ Ends event)
          (sym (ap (λ b. if b then on_open event chunks last h else fired h) o)) (by_event event o)
    | inr o ↦
        subst (λ f. Terminates f ↔ Ends event)
          (sym (ap (λ b. if b then on_open event chunks last h else fired h) o))
          (λ (t, e). cc, λ (e, f, g). cc)
  ]
    where
      Ends : PollEventType → Type 0
      Ends e = (e ≡ ready_to_write) × (h.is_open ≡ true) × IsResetThere h

      by_event :
          (e : PollEventType) → h.is_open ≡ true → Terminates (on_open e chunks last h) ↔ Ends e
      by_event ready_to_read o =
          (λ (t, e). absurd (process_read-IsCaught chunks last h t e), λ (e, f, g). cc)
      by_event ready_to_write o =
          (λ e. (refl, o, (write-Terminates h o).0 e), λ (e, f, g). (write-Terminates h o).1 g)
      by_event hang_up o = (λ (t, e). cc, λ (e, f, g). cc)
      by_event error o = (λ (t, e). cc, λ (e, f, g). cc)
      by_event invalid_fd o = (λ (t, e). cc, λ (e, f, g). cc)
