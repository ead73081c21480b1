-- ===== src/Server/Acceptor.antt =====
-- Server of src/server.h and src/server.cpp: the socket that accepts connections. The results of the calls
-- of the system and the texts of strerror are arguments.
use build_your_own_redis.Prelude.{
  ℕ, zero, suc, Option, none, some, List, [], ◌∷◌, ◌++◌, ◌==◌, if◌then◌else◌,
}
use build_your_own_redis.Text.{Bytes, text}
use build_your_own_redis.Text.Decimal.{decimal, decimal_int, ℤ}
use build_your_own_redis.Poller.{
  PollEventType, ready_to_read, ready_to_write, hang_up, error, invalid_fd,
}

-- What the signals of the server emit: its own descriptor to watch or no longer, and a client.
pub data ServerSignal : Type 0 where
  new_server_fd removed_server_fd new_fd : ℕ → ServerSignal

pub record Acceptor : Type 0 where
  pub tcp_port : ℤ
  pub server_fd : Option ℕ
  pub emitted : List ServerSignal

-- A function returns or throws.
pub data Done : Type 0 where
  done : Acceptor → Done
  threw_done : Bytes → Acceptor → Done

-- The results of the calls of Server::start: a descriptor or errno, and errno where a call fails. The
-- result of ::bind depends on the try.
pub record StartCalls : Type 0 where
  pub socket : Option ℕ
  pub socket_errno : ℕ
  pub setsockopt_errno : Option ℕ
  pub bind_errno : ℕ → Option ℕ
  pub listen_errno : Option ℕ

abbrev pub max_tries : ℕ
max_tries = 8

module _ (strerror : ℕ → Bytes) (eaddrinuse : ℕ) where
  abbrev pub after_try : (ℕ → Option ℕ) → Option ℕ → Option ℕ
  after_try again none = none
  after_try again (some e) = if e == eaddrinuse then again e else some e

  -- The loop over the tries to bind, from a try on: none where one succeeded, or errno.
  unfoldable pub bind_loop : ℕ → ℕ → ℕ → (ℕ → Option ℕ) → Option ℕ
  bind_loop zero tries errno bind_errno = some errno
  bind_loop (suc left) tries errno bind_errno =
      after_try (λ e. bind_loop left (suc tries) e bind_errno) (bind_errno tries)

  abbrev listening : Option ℕ → ℕ → Acceptor → Done
  listening none fd a = done (record a { emitted = a.emitted ++ new_server_fd fd ∷ [] })
  listening (some e) fd a = threw_done (text "Listen failed: " ++ strerror e) a

  abbrev bound : Option ℕ → StartCalls → ℕ → Acceptor → Done
  bound none calls fd a = listening calls.listen_errno fd a
  bound (some e) calls fd a =
      threw_done
        (text "Failed to bind to port " ++ (decimal_int a.tcp_port ++ (text ": " ++ strerror e))) a

  abbrev optioned : Option ℕ → StartCalls → ℕ → Acceptor → Done
  optioned (some e) calls fd a = threw_done (text "Setsockopt failed: " ++ strerror e) a
  optioned none calls fd a = bound (bind_loop max_tries 0 0 calls.bind_errno) calls fd a

  abbrev opened : Option ℕ → StartCalls → Acceptor → Done
  opened none calls a =
      threw_done (text "Failed to create server socket: " ++ strerror calls.socket_errno) a
  opened (some fd) calls a =
      optioned calls.setsockopt_errno calls fd (record a { server_fd = some fd })

  -- Server::start
  unfoldable pub start : StartCalls → Acceptor → Done
  unfolding bind_loop
  start calls a = opened calls.socket calls a

-- Server::close, up to ::close
unfoldable pub close : Acceptor → Acceptor
close a = elim a.server_fd [
  | none ↦ a
  | some fd ↦ record a { server_fd = none; emitted = a.emitted ++ removed_server_fd fd ∷ [] }
]

-- A result of ::accept
pub data AcceptResult : Type 0 where
  accepted : ℕ → AcceptResult
  would_block : AcceptResult
  accept_failed : ℕ → AcceptResult

-- The loop of the slot over Server::accept, and the text of the exception that it logs, if one; `hand` is
-- what the slots of new_fd do with a descriptor, and the text of what they throw. ::accept would block
-- where no further result is left.
pub record Hearing (S : Type 0) : Type 0 where
  pub world : S
  pub handed : List ℕ
  pub log : Option Bytes

module _ {S : Type 0} (hand : ℕ → S → S × Option Bytes) where
  unfoldable pub accept_all : List AcceptResult → Hearing S → Hearing S
  accept_all [] r = r
  accept_all (would_block ∷ rest) r = r
  accept_all (accept_failed e ∷ rest) r = record r {
    log = some (text "Server got error on accept: errno=" ++ decimal e);
  }
  accept_all (accepted fd ∷ rest) r =
      let (world, thrown) = hand fd r.world in
      let t = record r { world = world; handed = r.handed ++ fd ∷ [] } in
      elim thrown [ none ↦ accept_all rest t | some reason ↦ record t { log = some reason } ]

  -- The slot of the descriptor of the server; none stands for the exception about another event.
  unfoldable pub on_server_event :
      PollEventType → List AcceptResult → Hearing S → Option (Hearing S)
  unfolding accept_all
  on_server_event ready_to_read results r = some (accept_all results r)
  on_server_event ready_to_write results r = none
  on_server_event hang_up results r = none
  on_server_event error results r = none
  on_server_event invalid_fd results r = none
