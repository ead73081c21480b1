-- ===== src/Poller/Rounds.antt =====
-- The round of Poller (src/poller.cpp): the answer of ::poll and the events that are emitted for it.
use build_your_own_redis.Prelude.{
  ℕ, zero, suc, ◌-◌, Bool, true, false, ◌||◌, Option, none, some, List, [], ◌∷◌, ◌++◌, ◌==◌,
  if◌then◌else◌, length, get_elem?,
}
use build_your_own_redis.Text.{Bytes, text}
use build_your_own_redis.Text.Decimal.{decimal}
use build_your_own_redis.Outcome.{Outcome, ok}
use build_your_own_redis.Descriptors.{Table, find, assign}
use build_your_own_redis.Poller.{
  PollEventType, ready_to_read, ready_to_write, hang_up, error, invalid_fd, Flags, PollFd,
  SocketEventHandler, Poller, Request, request_all,
}

-- pollfd::revents
pub record Revents : Type 0 where
  pub pollnval : Bool
  pub pollerr : Bool
  pub pollhup : Bool
  pub pollin : Bool
  pub pollout : Bool

-- What the slots of a signal do when they are called: to the world, to the poller, and an exception.
pub record Reaction (S : Type 0) : Type 0 where
  pub world : S
  pub requests : List Request
  pub thrown : Option Bytes

-- The poller in its world, with what it emitted
pub record Round (S : Type 0) : Type 0 where
  pub poller : Poller
  pub world : S
  pub emitted : List (ℕ × PollEventType)

pub data Polling (S : Type 0) : Type 0 where
  went_on : Round S → Polling S
  threw_out : Bytes → Round S → Polling S
  undefined_poll : Polling S

abbrev pub and_then : {S : Type 0} → Polling S → (Round S → Polling S) → Polling S
and_then (went_on r) f = f r
and_then (threw_out reason r) f = threw_out reason r
and_then undefined_poll f = undefined_poll

-- What ::poll returns
pub data Polled : Type 0 where
  poll_failed : ℕ → Polled
  polled : ℕ → List Revents → Polled

abbrev pub is_raised : Revents → Bool
is_raised v = v.pollnval || v.pollerr || v.pollhup || v.pollin || v.pollout

-- The references of the loop: to the entry of a descriptor, which is gone when it was erased, and
-- into the vector, which is lost when it grew.
pub record Refers : Type 0 where
  pub fd : ℕ
  pub node : ℕ
  pub size : ℕ

module _ {S : Type 0} (act : ℕ → PollEventType → S → Reaction S) where
  abbrev reacted : Round S → List (ℕ × PollEventType) → Reaction S → Outcome Poller → Polling S
  reacted r emitted a (ok p) =
      let t : Round S = record { poller = p; world = a.world; emitted = emitted } in
      elim a.thrown [ none ↦ went_on t | some reason ↦ threw_out reason t ]
  reacted r emitted a other = undefined_poll

  -- Signal::emit through the pointer of an entry
  unfoldable pub emit : PollEventType → Option ℕ → Round S → Polling S
  unfolding request_all
  emit event none r = undefined_poll
  emit event (some signal) r =
      let a = act signal event r.world in
      reacted r (r.emitted ++ (signal, event) ∷ []) a (request_all a.requests r.poller)

  abbrev through_entry :
      Refers → Round S → (SocketEventHandler → Polling S) → Option SocketEventHandler → Polling S
  through_entry c r f none = undefined_poll
  through_entry c r f (some h) = if h.node == c.node then f h else undefined_poll

  abbrev in_vector : Refers → Round S → Polling S → Polling S
  in_vector c r next = if length r.poller.fds == c.size then next else undefined_poll

  -- `if (fd.revents & ...) handler.signal->emit(...)`
  unfoldable pub notify : Refers → PollEventType → Bool → Round S → Polling S
  unfolding emit
  notify c event raised r = in_vector c r (
      if raised
      then through_entry c r (λ h. emit event h.signal r) (find c.fd r.poller.handlers)
      else went_on r)

  -- `if (handler.flags & ... && fd.revents & ...) handler.signal->emit(...)`
  unfoldable pub notify_asked : Refers → PollEventType → (Flags → Bool) → Bool → Round S → Polling S
  unfolding emit
  notify_asked c event asked raised r =
      through_entry c r
        (λ h.
          if asked h.flags
          then in_vector c r (if raised then emit event h.signal r else went_on r)
          else went_on r)
        (find c.fd r.poller.handlers)

  abbrev null_handler : ℕ → SocketEventHandler
  null_handler node = record {
    fd = 0;
    flags = record { pollin = false; pollout = false; others = 0 };
    signal = none;
    pos_in_fds = 0;
    node = node;
  }

  -- `this->_handlers[fd.fd]`
  abbrev pub entry_of : ℕ → Option SocketEventHandler → Round S → Round S × ℕ
  entry_of fd (some h) r = (r, h.node)
  entry_of fd none r = (
    record r {
      poller = record r.poller {
        handlers = assign fd (null_handler r.poller.next_node) r.poller.handlers;
        next_node = suc r.poller.next_node;
      };
    },
    r.poller.next_node,
  )

  unfoldable pub notify_all : Refers → Revents → Round S → Polling S
  unfolding notify notify_asked
  notify_all c v r = and_then (notify c invalid_fd v.pollnval r) λ r1.
      and_then (notify c error v.pollerr r1) λ r2. and_then (notify c hang_up v.pollhup r2) λ r3.
        and_then (notify_asked c ready_to_read (λ f. f.pollin) v.pollin r3)
          (notify_asked c ready_to_write (λ f. f.pollout) v.pollout)

  -- The body of the loop for a descriptor with an answer
  unfoldable pub visit : ℕ → Revents → Round S → Polling S
  unfolding notify_all
  visit fd v r =
      let (t, node) = entry_of fd (find fd r.poller.handlers) r in
      notify_all (record { fd = fd; node = node; size = length r.poller.fds }) v t

  abbrev pub resume : Bool → Bool → (ℕ → Round S → Polling S) → ℕ → Round S → Polling S
  resume true whole again count r = went_on r
  resume false true again count r = again count r
  resume false false again count r = undefined_poll

  -- The end of a round of the loop; `count` is poll_res, and the vector may not have grown.
  abbrev pub go_on : ℕ → (ℕ → Round S → Polling S) → ℕ → Round S → Polling S
  go_on size again count r = resume (count == 0) (length r.poller.fds == size) again count r

  unfoldable pub visit_at :
      ℕ → (ℕ → Round S → Polling S) → ℕ → Bool → Option PollFd → Revents → Round S → Polling S
  unfolding visit
  visit_at size again count raised none v r = undefined_poll
  visit_at size again count true (some e) v r =
      and_then (visit e.fd v r) (go_on size again (count - 1))
  visit_at size again count false (some e) v r = go_on size again count r

  -- The loop over the vector from a position on, with the answers from there
  unfoldable pub visit_all : ℕ → ℕ → ℕ → List Revents → Round S → Polling S
  unfolding visit_at
  visit_all size i count [] r = went_on r
  visit_all size i count (v ∷ vs) r =
      visit_at size (λ left t. visit_all size (suc i) left vs t) count (is_raised v)
        (get_elem? r.poller.fds i) v r

  unfoldable pub answered : Table SocketEventHandler → Polled → Round S → Polling S
  unfolding visit_all
  answered [] answer r = went_on r
  answered (h ∷ hs) (poll_failed errno) r =
      threw_out (text "Poller got error on poll: errno=" ++ decimal errno) r
  answered (h ∷ hs) (polled zero vs) r = went_on r
  answered (h ∷ hs) (polled (suc n) vs) r = visit_all (length r.poller.fds) 0 (suc n) vs r

  -- The job that Poller::start repeats
  unfoldable pub poll_round : Polled → Round S → Polling S
  unfolding answered
  poll_round answer r = answered r.poller.handlers answer r
