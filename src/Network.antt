-- ===== src/Network.antt =====
-- The connections as src/main.cpp puts them together: the descriptors of the server (src/server.cpp) and
-- of its clients, the manager of the handlers (src/handlers_manager.cpp), the poller (src/poller.cpp), and
-- what the constructor, the start and the end of a handler (src/handler.cpp) do to these.
pub mod Wired
pub mod Links
pub mod Opens
pub mod Runs
use build_your_own_redis.Prelude.{
  ℕ, suc, Bool, true, false, ◌||◌, Option, none, some, List, [], ◌∷◌, ◌==◌, if◌then◌else◌,
}
use build_your_own_redis.Outcome.{Outcome, ok, err, undefined, ◌>>=◌}
use build_your_own_redis.Descriptors.{Table, find, assign}
use build_your_own_redis.Poller.{Poller, Flags, PollEventTypeList}
use build_your_own_redis.Poller.Watched.{no_poller}
use build_your_own_redis.Poller
use build_your_own_redis.HandlersManager

-- A handler of the manager: the signal of its events, and whether its start has run.
pub record Link : Type 0 where
  pub signal : ℕ
  pub started : Bool

-- `opened` are the descriptors that are open.
pub record Network : Type 0 where
  pub opened : List ℕ
  pub server_fd : Option ℕ
  pub manager : Table Link
  pub poller : Poller
  pub next_signal : ℕ

abbrev pub holds : ℕ → List ℕ → Bool
holds k [] = false
holds k (j ∷ js) = j == k || holds k js

unfoldable pub without : ℕ → List ℕ → List ℕ
without k [] = []
without k (j ∷ js) = let rest = without k js in if j == k then rest else j ∷ rest

abbrev pub to_read : PollEventTypeList
to_read = record { has_ready_to_read = true; has_ready_to_write = false }

abbrev pub to_both : PollEventTypeList
to_both = record { has_ready_to_read = true; has_ready_to_write = true }

-- What happens: the server starts, a client is accepted, the start that a handler posted runs, a handler
-- writes and is to be watched anew, or it closes, each in a job or in a slot under the loop of the poller.
-- What that loop holds and emits meanwhile is left out. The flags are what an uninitialised variable holds.
pub data Happening : Type 0 where
  server_starts : Flags → Happening
  accepts : Happening
  starts : Flags → ℕ → Happening
  writes : Flags → Bool → ℕ → Happening
  closes : ℕ → Happening

abbrev pub no_network : Network
no_network = record {
  opened = [];
  server_fd = none;
  manager = [];
  poller = no_poller;
  next_signal = 0;
}

-- The slot of the poller behind a new_fd signal
abbrev watch : Flags → ℕ → PollEventTypeList → ℕ → Network → Outcome Network
watch garbage fd types signal n =
    Poller.add garbage fd types signal n.poller >>= λ p. ok (record n { poller = p })

-- The connection of a new client enters the manager through the signal new_fd of the server.
abbrev enter : ℕ → Network → Outcome Network
enter fd n =
    HandlersManager.add (λ k. record { signal = n.next_signal; started = false }) fd n.manager
    >>= λ handlers.
        ok
          (record n { opened = fd ∷ n.opened; manager = handlers; next_signal = suc n.next_signal })

-- Handler::start of a handler that the manager holds
unfoldable pub start_link : Flags → ℕ → Option Link → Network → Outcome Network
unfolding Poller.add
start_link garbage fd none n = ok n
start_link garbage fd (some l) n =
    if l.started
    then ok n
    else watch garbage fd to_read l.signal
        (record n { manager = assign fd (record l { started = true }) n.manager })

-- Handler::setup_poll of a handler that has started
unfoldable pub watch_link : Flags → Bool → ℕ → Option Link → Network → Outcome Network
unfolding Poller.add
watch_link garbage write fd none n = ok n
watch_link garbage write fd (some l) n =
    if l.started then watch garbage fd (if write then to_both else to_read) l.signal n else ok n

-- The rest of Handler::close: the loop of emit over the slots of the signal, which is the handler's own, goes
-- on, and then the descriptor is closed. The handler is gone where the manager no longer holds it.
abbrev pub close_rest : ℕ → Option Link → Network → Outcome Network
close_rest fd none n = undefined
close_rest fd (some l) n = ok (record n { opened = without fd n.opened })

-- Handler::close: the signal removed_fd reaches the poller and then the manager, which destroys the
-- handler, and with it the signal that emits.
unfoldable pub close_link : ℕ → Option Link → Network → Outcome Network
unfolding Poller.remove HandlersManager.remove
close_link fd none n = ok n
close_link fd (some l) n = Poller.remove fd n.poller >>= λ p.
    let handlers = HandlersManager.remove fd n.manager in
    close_rest fd (find fd handlers) (record n { manager = handlers; poller = p })

-- The descriptor that the system opens, of those that are not open, is an argument.
module _ (fresh : List ℕ → ℕ) where
  unfoldable pub start_server : Flags → Option ℕ → Network → Outcome Network
  unfolding Poller.add
  start_server garbage (some fd) n = ok n
  start_server garbage none n =
      let fd = fresh n.opened in
      watch garbage fd to_read n.next_signal
        (record n { opened = fd ∷ n.opened; server_fd = some fd; next_signal = suc n.next_signal })

  unfoldable pub happen : Happening → Network → Outcome Network
  unfolding start_server start_link watch_link close_link HandlersManager.add
  happen (server_starts garbage) n = start_server garbage n.server_fd n
  happen accepts n = enter (fresh n.opened) n
  happen (starts garbage fd) n = start_link garbage fd (find fd n.manager) n
  happen (writes garbage write fd) n = watch_link garbage write fd (find fd n.manager) n
  happen (closes fd) n = close_link fd (find fd n.manager) n

  unfoldable pub happen_all : List Happening → Network → Outcome Network
  unfolding happen
  happen_all [] n = ok n
  happen_all (e ∷ es) n = happen e n >>= happen_all es
