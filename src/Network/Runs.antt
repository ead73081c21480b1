-- ===== src/Network/Runs.antt =====
-- Runs of the connections of the server (src/main.cpp).
use build_your_own_redis.Prelude.{
  ℕ, ◌≡◌, ◌≢◌, refl, ap, ◌∙◌, ◌⊎◌, inl, inr, true, false, Option, none, some, List, [], ◌∷◌, ◌++◌,
  ◌==◌, ==_iff, Bool-cases, Option-cases, get_elem?,
}
use build_your_own_redis.Outcome.{Outcome, ok, undefined}
use build_your_own_redis.Descriptors.{minus_one, find}
use build_your_own_redis.Poller.{PollFd}
use build_your_own_redis.Poller.Watched.{no_poller-IsValid}
use build_your_own_redis.Poller.Asks.{watched, asked-watched}
use build_your_own_redis.Network.{
  Link, Network, holds, Happening, server_starts, accepts, starts, writes, closes, no_network,
  start_link, watch_link, close_link, happen, happen_all,
}
use build_your_own_redis.Network.Wired.{IsWired}
use build_your_own_redis.Network.Links.{
  Goes, start_link-Goes, watch_link-Goes, close_link-undefined,
}
use build_your_own_redis.Network.Opens.{accepts-Goes, start_server-Goes}

no_network-IsWired : IsWired no_network
unfolding find
no_network-IsWired = record {
  valid = no_poller-IsValid;
  client_open = λ k l e. cc;
  server_open = λ k e. cc;
  owned = λ k f s e. cc;
}

module _ (fresh : List ℕ → ℕ)
    (opens : (l : List ℕ) → (holds (fresh l) l ≡ false) × (fresh l ≢ minus_one)) where
  module _ (n : Network) (w : IsWired n) where
    by_link :
        (fd : ℕ) (o : Option Link) (step : Option Link → Outcome Network)
        → find fd n.manager ≡ o
        → step none ≡ ok n
        → ((l : Link) → find fd n.manager ≡ some l → Goes (step (some l)))
        → Goes (step o)
    by_link fd none step e idle busy = (n, (idle, w))
    by_link fd (some l) step e idle busy = busy l e

    -- A handler that the manager holds closes.
    abbrev Closes : Happening → Type 0
    Closes e =
        (fd : ℕ) × (l : Link) × (e ≡ closes fd)
        × (find fd n.manager ≡ some l)
        × (happen fresh e n ≡ undefined)

    happen-Goes : (e : Happening) → Goes (happen fresh e n) ⊎ Closes e
    unfolding happen start_link watch_link close_link
    happen-Goes (server_starts garbage) =
        inl (start_server-Goes fresh opens n w garbage n.server_fd refl)
    happen-Goes accepts = inl (accepts-Goes fresh opens n w)
    happen-Goes (starts garbage fd) = inl (
        by_link fd _ (λ o. start_link garbage fd o n) refl refl
          λ l found. start_link-Goes garbage n w fd l found)
    happen-Goes (writes garbage write fd) = inl (
        by_link fd _ (λ o. watch_link garbage write fd o n) refl refl
          λ l found. watch_link-Goes garbage n w fd l found write)
    happen-Goes (closes fd) = elim (Option-cases (find fd n.manager)) [
      | inl e ↦ inl (n, (ap (λ o. close_link fd o n) e, w))
      | inr (l, e) ↦
          inr (fd, l, refl, e, ap (λ o. close_link fd o n) e ∙ close_link-undefined n fd l w)
    ]

  happen_all-Goes :
      (es : List Happening) (n : Network)
      → IsWired n
      → (before : List Happening) × (m : Network) × (happen_all fresh before n ≡ ok m)
        × IsWired m
        × ((es ≡ before)
            ⊎ ((fd : ℕ) × (after : List Happening) × (l : Link) × (es ≡ before ++ closes fd ∷ after)
                × (find fd m.manager ≡ some l)
                × (happen_all fresh es n ≡ undefined)))
  unfolding happen_all
  happen_all-Goes [] n w = ([], n, refl, w, inl refl)
  happen_all-Goes (e ∷ es) n w = elim (happen-Goes n w e) [
    | inl (m, (goes, wired)) ↦
        let (before, t, goes', wired', end) = happen_all-Goes es m wired in
        (
          e ∷ before,
          t,
          rw goes goes',
          wired',
          elim end [
            | inl all ↦ inl (ap (λ x. e ∷ x) all)
            | inr (fd, after, l, split, found, stops) ↦
                inr (fd, after, l, ap (λ x. e ∷ x) split, found, rw goes stops)
          ],
        )
    | inr (fd, l, close, found, stops) ↦
        ([], n, refl, w, inr (fd, es, l, ap (λ x. x ∷ es) close, found, rw stops refl))
  ]

  asked-Owned :
      (n : Network) (w : IsWired n) (i : ℕ) (e : PollFd)
      → get_elem? n.poller.fds i ≡ some e
      → e.fd ≢ minus_one
      → (holds e.fd n.opened ≡ true)
        × ((n.server_fd ≡ some e.fd)
            ⊎ ((l : Link) × (find e.fd n.manager ≡ some l)
                × (watched n.poller e.fd ≡ some (e.events, some l.signal))))
  asked-Owned n w i e at real =
      let (s, watches) = asked-watched n.poller w.valid e.fd i e.events real at in
      elim (w.owned e.fd e.events (some s) watches) [
        | inl server ↦ ((w.server_open e.fd server).0, inl server)
        | inr (l, held, own) ↦ (
          (w.client_open e.fd l held).0,
          inr (l, held, watches ∙ ap (λ x. some (e.events, x)) own),
        )
      ]

  -- However the server starts and its clients are accepted, start, write and close, where the system opens
  -- descriptors that were not open: the run is without an exception, and defined up to the first close of
  -- a handler that the manager holds, if there is one, which makes all of it undefined. Up to there no
  -- client is refused as added twice, the slots of the poller never read or write out of range, and
  -- what it watches is open, and is the descriptor of the server, or that of a client whose handler the
  -- manager holds and whose own signal the events are emitted to.
  pub happen_all-IsWired :
      (es : List Happening)
      → (before : List Happening) × (n : Network) × (happen_all fresh before no_network ≡ ok n)
        × ((es ≡ before)
            ⊎ ((fd : ℕ) × (after : List Happening) × (l : Link) × (es ≡ before ++ closes fd ∷ after)
                × (find fd n.manager ≡ some l)
                × (happen_all fresh es no_network ≡ undefined)))
        × ((i : ℕ) (e : PollFd)
            → get_elem? n.poller.fds i ≡ some e
            → (e.fd ≡ minus_one)
              ⊎ ((holds e.fd n.opened ≡ true)
                  × ((n.server_fd ≡ some e.fd)
                      ⊎ ((l : Link) × (find e.fd n.manager ≡ some l)
                          × (watched n.poller e.fd ≡ some (e.events, some l.signal))))))
  happen_all-IsWired es =
      let (before, n, goes, wired, end) = happen_all-Goes es no_network no_network-IsWired in
      (
        before,
        n,
        goes,
        end,
        λ i e at. elim (Bool-cases (e.fd == minus_one)) [
          | inl off ↦ inl ((==_iff e.fd minus_one).0 off)
          | inr on ↦ inr (asked-Owned n wired i e at (λ off. cc ((==_iff e.fd minus_one).1 off)))
        ],
      )
