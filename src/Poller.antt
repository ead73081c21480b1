-- ===== src/Poller.antt =====
-- Poller of src/poller.h and src/poller.cpp: the descriptors that ::poll is asked about, and the signals
-- that its answer is emitted to. What the slots of a signal do is an argument, as the answer of ::poll is.
pub mod Rounds
pub mod Watched
pub mod Asks
pub mod Added
pub mod Refines
pub mod Tells
pub mod Visits
pub mod Rewatches
pub mod Expected
pub mod Delivers
pub mod Closing
use build_your_own_redis.Prelude.{
  ℕ, zero, suc, ◌-◌, ◌≡◌, Bool, true, false, ◌&&◌, ◌||◌, Option, none, some, List, [], ◌∷◌, ◌++◌,
  ◌==◌, if◌then◌else◌, length, get_elem?, set,
}
use build_your_own_redis.Text.{Bytes, text}
use build_your_own_redis.Text.Decimal.{decimal}
use build_your_own_redis.Outcome.{Outcome, ok, err, undefined, ◌>>=◌}
use build_your_own_redis.Descriptors.{Table, minus_one, find, assign, erase}

-- PollEventType
pub data PollEventType : Type 0 where
  ready_to_read ready_to_write hang_up error invalid_fd : PollEventType

-- PollEventTypeList, a set of which only these two are asked for.
pub record PollEventTypeList : Type 0 where
  pub has_ready_to_read : Bool
  pub has_ready_to_write : Bool

-- A short with the bits POLLIN and POLLOUT and the other ones
pub record Flags : Type 0 where
  pub pollin : Bool
  pub pollout : Bool
  pub others : ℕ

-- pollfd, without the answer; a negative descriptor is not asked about.
pub record PollFd : Type 0 where
  pub fd : ℕ
  pub events : Flags

-- Poller::SocketEventHandler. A signal is a number, none the null pointer; `node` is the address of
-- the entry in the map.
pub record SocketEventHandler : Type 0 where
  pub fd : ℕ
  pub flags : Flags
  pub signal : Option ℕ
  pub pos_in_fds : ℕ
  pub node : ℕ

-- Poller
pub record Poller : Type 0 where
  pub fds : List PollFd
  pub handlers : Table SocketEventHandler
  pub next_node : ℕ

-- The bits are added to what the uninitialised variable holds.
abbrev pub flags_of : Flags → PollEventTypeList → Flags
flags_of garbage types = record {
  pollin = types.has_ready_to_read || garbage.pollin;
  pollout = types.has_ready_to_write || garbage.pollout;
  others = garbage.others;
}

unfoldable pub add_found : ℕ → Flags → ℕ → Option SocketEventHandler → Poller → Outcome Poller
add_found fd flags signal none p = ok (record {
  fds = p.fds ++ record { fd = fd; events = flags } ∷ [];
  handlers =
      assign fd
        (record {
          fd = fd;
          flags = flags;
          signal = some signal;
          pos_in_fds = length p.fds;
          node = p.next_node;
        })
        p.handlers;
  next_node = suc p.next_node;
})
add_found fd flags signal (some h) p = elim (get_elem? p.fds h.pos_in_fds) [
  | none ↦ undefined
  | some e ↦ ok (record p {
    fds = set p.fds h.pos_in_fds (record e { events = flags });
    handlers = assign fd (record h { flags = flags; signal = some signal }) p.handlers;
  })
]

-- The slot of Poller::add_fd
unfoldable pub add : Flags → ℕ → PollEventTypeList → ℕ → Poller → Outcome Poller
unfolding add_found
add garbage fd types signal p = add_found fd (flags_of garbage types) signal (find fd p.handlers) p

-- The slot of Poller::remove_fd
unfoldable pub remove : ℕ → Poller → Outcome Poller
remove fd p = elim (find fd p.handlers) [
  | none ↦ ok p
  | some h ↦ elim (get_elem? p.fds h.pos_in_fds) [
    | none ↦ undefined
    | some e ↦ ok (record p {
      fds = set p.fds h.pos_in_fds (record e { fd = minus_one });
      handlers = erase fd p.handlers;
    })
  ]
]

-- A call of one of the two slots
pub data Request : Type 0 where
  adds : Flags → ℕ → PollEventTypeList → ℕ → Request
  removes : ℕ → Request

unfoldable pub request : Request → Poller → Outcome Poller
unfolding add remove
request (adds garbage fd types signal) p = add garbage fd types signal p
request (removes fd) p = remove fd p

unfoldable pub request_all : List Request → Poller → Outcome Poller
unfolding request
request_all [] p = ok p
request_all (r ∷ rs) p = request r p >>= request_all rs
