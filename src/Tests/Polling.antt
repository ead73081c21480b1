-- ===== src/Tests/Polling.antt =====
-- The poller, the events of a connection and the signals at concrete inputs.
use build_your_own_redis.Prelude.{
  ℕ, suc, ◌≡◌, ◌↔◌, refl, true, false, none, some, List, [], ◌∷◌, ◌++◌, arith, inr,
}
use build_your_own_redis.MessageParser.{on_buffer}
use build_your_own_redis.Outcome.{ok}
use build_your_own_redis.Descriptors.{find, assign}
use build_your_own_redis.Poller.{
  PollEventType, ready_to_read, ready_to_write, Flags, PollEventTypeList, SocketEventHandler,
  Poller, Request, adds, removes, request_all, flags_of,
}
use build_your_own_redis.Poller.Rounds.{
  Revents, Round, Reaction, polled, undefined_poll, went_on, visit, poll_round,
}
use build_your_own_redis.Poller.Watched.{
  IsValid, no_poller, no_poller-IsValid, added_new, added_new-IsValid,
}
use build_your_own_redis.Poller.Added.{last_added, AsksAdded}
use build_your_own_redis.Poller.Refines.{request_all-AsksFor}
use build_your_own_redis.Poller.Tells.{Alike, shown}
use build_your_own_redis.Poller.Rewatches.{IsCalm}
use build_your_own_redis.Poller.Expected.{expected, raised_count}
use build_your_own_redis.Poller.Delivers.{poll_round-Tells}
use build_your_own_redis.Poller.Closing.{visit-closing}
use build_your_own_redis.Handler.{Handler, TalkerOps, listened, conn_reset, ReadEnd, write_loop}
use build_your_own_redis.Handler.Events.{
  IsResetThere, on_event, terminated, on_event-terminated_iff,
}
use build_your_own_redis.Signal.{emit}
use build_your_own_redis.Signal.Emits.{Reaches, live_slot, live_signal, call_list, emit-Reaches}
use build_your_own_redis.Wiring.{
  connections, connections-Below, rank, handler_removed_fd, poller_remove, manager_remove,
  called_by, handler_new_fd, poller_add,
}

abbrev no_bits : Flags
no_bits = record { pollin = false; pollout = false; others = 0 }

abbrev reading : PollEventTypeList
reading = record { has_ready_to_read = true; has_ready_to_write = false }

abbrev calls : List Request
calls = adds no_bits 5 reading 1 ∷ adds no_bits 7 reading 2 ∷ removes 5 ∷ []

request_all-AsksFor_example :
    (q : Poller) × ((request_all calls no_poller ≡ ok q)
      × AsksAdded q.fds (last_added calls (λ k. none)))
request_all-AsksFor_example =
    request_all-AsksFor calls (λ e. absurd (omega arith), (λ e. absurd (omega arith), (tt, tt)))

-- What an uninitialised variable held is asked for: writing, where only reading was.
abbrev garbage : Flags
garbage = record { pollin = false; pollout = true; others = 0 }

garbage_kept : (flags_of garbage reading).pollout ≡ true
garbage_kept = refl

abbrev one : Poller
one = added_new no_bits 5 1 reading no_poller

one-IsValid : IsValid one
unfolding find
one-IsValid =
    added_new-IsValid no_bits 5 1 reading no_poller (λ e. absurd (omega arith)) refl
      no_poller-IsValid

abbrev world : Round ℕ
world = record { poller = one; world = 0; emitted = [] }

abbrev readable : Revents
readable = record {
  pollnval = false;
  pollerr = false;
  pollhup = false;
  pollin = true;
  pollout = false;
}

-- The handler of the descriptor adds it once more, to write as well.
abbrev answering : ℕ → PollEventType → ℕ → Reaction ℕ
answering signal event n = record {
  world = suc n;
  requests = adds no_bits 5 (record { has_ready_to_read = true; has_ready_to_write = true }) 1 ∷ [];
  thrown = none;
}

abbrev entry : SocketEventHandler
entry = record {
  fd = 5;
  flags = record { pollin = true; pollout = false; others = 0 };
  signal = some 1;
  pos_in_fds = 0;
  node = 0;
}

answering-IsCalm : IsCalm answering false one
unfolding find assign
answering-IsCalm s e w = (((entry, refl, refl, refl, (λ x. cc)), tt), refl)

poll_round-Tells_example :
    (t : Round ℕ) × ((poll_round answering
          (polled (raised_count (readable ∷ [])) (readable ∷ []))
          world
        ≡ went_on t)
      × (IsValid t.poller × Alike false one t.poller)
      × (shown false t.emitted ≡ shown false ([] ++ expected one one.fds (readable ∷ []))))
poll_round-Tells_example =
    poll_round-Tells answering false (readable ∷ []) world one-IsValid answering-IsCalm
      (λ e. absurd (omega arith), refl)

told_once : expected one one.fds (readable ∷ []) ≡ (1, ready_to_read) ∷ []
unfolding expected find assign
told_once = refl

-- A client that is gone: its handler closes.
abbrev closing : ℕ → PollEventType → ℕ → Reaction ℕ
closing signal event n = record { world = n; requests = removes 5 ∷ []; thrown = none }

entry_found : find 5 one.handlers ≡ some entry
unfolding find assign
entry_found = refl

visit-closing_example : visit closing 5 readable world ≡ undefined_poll
visit-closing_example =
    visit-closing closing 5 1 entry world one-IsValid entry_found refl readable refl refl
      (inr (refl, refl, refl, λ w. (refl, refl)))

abbrev silent : TalkerOps ℕ
silent = record {
  listen = λ m n. listened n;
  interrupt = λ n. n;
  expects_file = λ n. false;
  pending = λ n. [];
  with_pending = λ ms n. n;
}

abbrev waiting : Handler ℕ
waiting = record {
  is_open = true;
  talker = 0;
  parser = on_buffer [];
  write_buffer = 43 ∷ [];
  socket = conn_reset ∷ [];
  written = [];
  emitted = [];
}

on_event-terminated_iff_example :
    ((t : Handler ℕ) × (on_event silent ready_to_write [] ReadEnd.no_more waiting ≡ terminated t))
    ↔ ((ready_to_write ≡ ready_to_write) × (waiting.is_open ≡ true) × IsResetThere waiting)
on_event-terminated_iff_example =
    on_event-terminated_iff silent ready_to_write [] ReadEnd.no_more waiting

waiting_is_reset : IsResetThere waiting
unfolding write_loop
waiting_is_reset = refl

-- A handler that closes reaches the poller and then the manager.
abbrev log : ℕ → List ℕ → List ℕ
log k l = k ∷ l

emit-Reaches_example :
    emit log connections 2 handler_removed_fd []
    ≡ call_list log ((poller_remove ∷ []) ++ manager_remove ∷ []) []
unfolding connections
emit-Reaches_example =
    emit-Reaches log connections rank connections-Below 2 handler_removed_fd []
      (live_signal refl (live_slot refl Reaches.no_more) (live_slot refl Reaches.no_more))
      (omega arith)

closing_calls : called_by handler_removed_fd [] ≡ manager_remove ∷ poller_remove ∷ []
unfolding called_by
closing_calls = refl

starting_calls : called_by handler_new_fd [] ≡ poller_add ∷ []
unfolding called_by
starting_calls = refl
