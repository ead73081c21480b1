-- ===== src/Poller/Asks.antt =====
-- What ::poll is asked about by a poller (src/poller.cpp): each descriptor of its map, once.
use build_your_own_redis.Prelude.{
  ℕ, ◌≡◌, ◌≢◌, ◌↔◌, sym, ap, ◌∙◌, inl, inr, Option, none, some, List, get_elem?, Option-cases,
}
use build_your_own_redis.Descriptors.{minus_one, find}
use build_your_own_redis.Poller.{Flags, PollFd, SocketEventHandler, Poller}
use build_your_own_redis.Poller.Watched.{IsValid}

-- For each descriptor the events that are watched, and the signal that they are emitted to.
abbrev pub Watch : Type 0
Watch = ℕ → Option (Flags × Option ℕ)

abbrev pub watch_of : Option SocketEventHandler → Option (Flags × Option ℕ)
watch_of none = none
watch_of (some h) = some (h.flags, h.signal)

abbrev pub watched : Poller → Watch
watched p k = watch_of (find k p.handlers)

-- ::poll is asked about a descriptor and its events exactly where these are watched for a signal, and
-- about no descriptor twice.
abbrev pub AsksFor : List PollFd → Watch → Type 0
AsksFor fds w =
    ((k : ℕ) (f : Flags)
      → k ≢ minus_one
      → ((i : ℕ) × (get_elem? fds i ≡ some (record { fd = k; events = f })))
        ↔ ((s : ℕ) × (w k ≡ some (f, some s))))
    × ((i j : ℕ) (e g : PollFd)
        → get_elem? fds i ≡ some e
        → get_elem? fds j ≡ some g
        → e.fd ≢ minus_one
        → e.fd ≡ g.fd
        → i ≡ j)

same_events : (a b : PollFd) → some a ≡ some b → a.events ≡ b.events
same_events a b e = cc

same_watch :
    (h : SocketEventHandler) (f : Flags) (s : ℕ)
    → watch_of (some h) ≡ some (f, some s)
    → h.flags ≡ f
same_watch h f s e = cc

same_pos : (h g : SocketEventHandler) → some h ≡ some g → h.pos_in_fds ≡ g.pos_in_fds
same_pos h g e = cc

module _ (p : Poller) (v : IsValid p) where
  pub asked-watched :
      (k i : ℕ) (f : Flags)
      → k ≢ minus_one
      → get_elem? p.fds i ≡ some (record { fd = k; events = f })
      → (s : ℕ) × (watched p k ≡ some (f, some s))
  asked-watched k i f real e = elim (v.watched_entry i _ e) [
    | inl off ↦ absurd (real off)
    | inr (h, found, at) ↦
        let (n, (s, held), w) = v.entry_watched k h found in
        let same_flags = same_events _ _ (sym w ∙ ap (get_elem? p.fds) at ∙ e) in
        (
          s,
          ap watch_of found ∙ ap (λ x. some (x, h.signal)) same_flags ∙ ap (λ x. some (f, x)) held,
        )
  ]

  watched-asked :
      (k : ℕ) (f : Flags) (s : ℕ)
      → watched p k ≡ some (f, some s)
      → (i : ℕ) × (get_elem? p.fds i ≡ some (record { fd = k; events = f }))
  watched-asked k f s e = elim (Option-cases (find k p.handlers)) [
    | inl new ↦ cc (ap watch_of new)
    | inr (h, found) ↦
        let (n, signal, w) = v.entry_watched k h found in
        (
          h.pos_in_fds,
          w
              ∙ ap (λ x. some (let y : PollFd = record { fd = k; events = x } in y))
                  (same_watch h f s (sym (ap watch_of found) ∙ e)),
        )
  ]

  asked_once :
      (i j : ℕ) (e g : PollFd)
      → get_elem? p.fds i ≡ some e
      → get_elem? p.fds j ≡ some g
      → e.fd ≢ minus_one
      → e.fd ≡ g.fd
      → i ≡ j
  asked_once i j e g ei ej real same_fd = elim (v.watched_entry i e ei) [
    | inl off ↦ absurd (real off)
    | inr (h, found, at) ↦ elim (v.watched_entry j g ej) [
      | inl off ↦ absurd (real (same_fd ∙ off))
      | inr (h', found', at') ↦
          sym at ∙ same_pos h h' (sym found ∙ ap (λ x. find x p.handlers) same_fd ∙ found') ∙ at'
    ]
  ]

  pub IsValid-AsksFor : AsksFor p.fds (watched p)
  IsValid-AsksFor = (
    λ k f real. (λ (i, e). asked-watched k i f real e, λ (s, e). watched-asked k f s e),
    asked_once,
  )
