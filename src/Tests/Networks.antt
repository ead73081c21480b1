-- ===== src/Tests/Networks.antt =====
-- The connections of the server, its start and that of a replica at concrete inputs.
use build_your_own_redis.Prelude.{
  ℕ, suc, ◌<◌, ◌≡◌, ◌≢◌, ◌↔◌, ◌⊎◌, refl, true, false, none, some, List, [], ◌∷◌, ◌++◌, arith, ltb,
  ◌==◌, if◌then◌else◌, get_elem?,
}
use build_your_own_redis.Text.{text}
use build_your_own_redis.Text.Decimal.{pos}
use build_your_own_redis.Outcome.{ok, undefined}
use build_your_own_redis.Descriptors.{minus_one, find, assign, erase}
use build_your_own_redis.Poller.{Flags, PollFd}
use build_your_own_redis.Poller.Asks.{watched}
use build_your_own_redis.Network.{
  Network, Link, Happening, server_starts, accepts, starts, writes, closes, holds, no_network,
  happen_all,
}
use build_your_own_redis.Network.Runs.{happen_all-IsWired}
use build_your_own_redis.Server.Acceptor.{
  Acceptor, StartCalls, done, start, new_server_fd, accepted, accept_all,
}
use build_your_own_redis.Server.Starts.{Binds, start-done_iff}

abbrev max : ℕ → ℕ → ℕ
max a b = if ltb a b then b else a

abbrev greatest : List ℕ → ℕ
greatest [] = 0
greatest (k ∷ ks) = max k (greatest ks)

above_greatest : (n : ℕ) (l : List ℕ) → greatest l < n → holds n l ≡ false
above_greatest n [] h = refl
above_greatest n (k ∷ ks) h = ground (arith, above_greatest n ks)

abbrev unused : List ℕ → ℕ
unused l = if suc (greatest l) == minus_one then suc (suc (greatest l)) else suc (greatest l)

unused_opens : (l : List ℕ) → (holds (unused l) l ≡ false) × (unused l ≢ minus_one)
unused_opens l = (above_greatest (unused l) l (ground arith), λ e. absurd (ground arith))

abbrev no_bits : Flags
no_bits = record { pollin = false; pollout = false; others = 0 }

abbrev day : List Happening
day =
    server_starts no_bits
    ∷ accepts
    ∷ starts no_bits 2
    ∷ accepts
    ∷ writes no_bits true 2
    ∷ closes 2
    ∷ accepts
    ∷ []

happen_all-IsWired_example :
    (before : List Happening) × (n : Network) × (happen_all unused before no_network ≡ ok n)
    × ((day ≡ before)
        ⊎ ((fd : ℕ) × (after : List Happening) × (l : Link) × (day ≡ before ++ closes fd ∷ after)
            × (find fd n.manager ≡ some l)
            × (happen_all unused day no_network ≡ undefined)))
    × ((i : ℕ) (e : PollFd)
        → get_elem? n.poller.fds i ≡ some e
        → (e.fd ≡ minus_one)
          ⊎ ((holds e.fd n.opened ≡ true)
              × ((n.server_fd ≡ some e.fd)
                  ⊎ ((l : Link) × (find e.fd n.manager ≡ some l)
                      × (watched n.poller e.fd ≡ some (e.events, some l.signal))))))
happen_all-IsWired_example = happen_all-IsWired unused unused_opens day

-- Client 2 closes, and its handler is gone under its close.
day_closed : happen_all unused day no_network ≡ undefined
unfolding happen_all find assign erase
day_closed = refl

-- The third try finds the address free.
abbrev system : StartCalls
system = record {
  socket = some 3;
  socket_errno = 0;
  setsockopt_errno = none;
  bind_errno = λ k. if ltb k 2 then some 98 else none;
  listen_errno = none;
}

abbrev acceptor : Acceptor
acceptor = record { tcp_port = pos 6379; server_fd = none; emitted = [] }

start-done_iff_example :
    ((fd : ℕ) × (start (λ e. []) 98 system acceptor
        ≡ done (record acceptor { server_fd = some fd; emitted = [] ++ new_server_fd fd ∷ [] })))
    ↔ (((fd : ℕ) × (system.socket ≡ some fd))
        × (system.setsockopt_errno ≡ none)
        × (system.listen_errno ≡ none)
        × Binds (λ e. []) 98 0 8 system.bind_errno)
start-done_iff_example = start-done_iff (λ e. []) 98 system acceptor

starts_at_third :
    start (λ e. []) 98 system acceptor
    ≡ done (record acceptor { server_fd = some 3; emitted = new_server_fd 3 ∷ [] })
unfolding start
starts_at_third = refl

-- An exception for one client leaves those behind it to the next event.
accepts_until :
    (accept_all {S = ℕ}
      (λ fd n. (suc n, if fd == 6 then some (text "no") else none))
      (accepted 5 ∷ accepted 6 ∷ accepted 7 ∷ [])
      (record { world = 0; handed = []; log = none })).handed
    ≡ 5 ∷ 6 ∷ []
unfolding accept_all
accepts_until = refl
