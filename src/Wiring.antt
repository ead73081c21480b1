-- ===== src/Wiring.antt =====
-- The signals that src/main.cpp and the constructors connect: those of the server, of the manager of the
-- handlers, and of one handler of this.
use build_your_own_redis.Prelude.{ℕ, true, List, [], ◌∷◌, leb, if◌then◌else◌, All, arith}
use build_your_own_redis.Signal.Emits.{Below, connect_all-Below}
use build_your_own_redis.Signal.{
  Connected, slot_pointer, signal_pointer, Signals, connect_all, emit,
}

-- The signals
abbrev pub server_new_server_fd : ℕ
server_new_server_fd = 0

abbrev pub server_removed_server_fd : ℕ
server_removed_server_fd = 1

abbrev pub server_new_fd : ℕ
server_new_fd = 2

abbrev pub server_removed_fd : ℕ
server_removed_fd = 3

abbrev pub manager_new_fd : ℕ
manager_new_fd = 4

abbrev pub manager_removed_fd : ℕ
manager_removed_fd = 5

abbrev pub handler_new_fd : ℕ
handler_new_fd = 6

abbrev pub handler_removed_fd : ℕ
handler_removed_fd = 7

-- The slots
abbrev pub poller_add : ℕ
poller_add = 10

abbrev pub poller_remove : ℕ
poller_remove = 11

abbrev pub manager_add : ℕ
manager_add = 12

abbrev pub manager_remove : ℕ
manager_remove = 13

abbrev unconnected : Signals
unconnected = record { slot_alive = λ k. true; signal_alive = λ k. true; slots = λ k. [] }

-- The connections of main, and those of a handler that HandlersManager::add made
abbrev pub main_connections : List (ℕ × Connected)
main_connections =
    (manager_new_fd, slot_pointer poller_add)
    ∷ (manager_removed_fd, slot_pointer poller_remove)
    ∷ (server_new_server_fd, slot_pointer poller_add)
    ∷ (server_removed_server_fd, slot_pointer poller_remove)
    ∷ (server_new_fd, slot_pointer manager_add)
    ∷ (server_removed_fd, slot_pointer manager_remove)
    ∷ []

abbrev pub handler_connections : List (ℕ × Connected)
handler_connections =
    (handler_new_fd, signal_pointer manager_new_fd)
    ∷ (handler_removed_fd, signal_pointer manager_removed_fd)
    ∷ (handler_removed_fd, slot_pointer manager_remove)
    ∷ []

unfoldable pub connections : Signals
unfolding connect_all
connections = connect_all handler_connections (connect_all main_connections unconnected)

-- What an emission calls, in order
unfoldable pub called_by : ℕ → List ℕ → List ℕ
unfolding emit connections
called_by signal log = emit (λ k l. k ∷ l) connections 3 signal log

-- The rank of a signal: how many signals stand behind it
abbrev pub rank : ℕ → ℕ
rank k = if leb 6 k then 1 else 0

-- No signal is connected to itself through others.
pub connections-Below : (k : ℕ) → All (Below rank (rank k)) (connections.slots k)
unfolding connections
connections-Below =
    connect_all-Below rank handler_connections (connect_all main_connections unconnected)
      (omega arith) (connect_all-Below rank main_connections unconnected (omega arith) (λ k. tt))
