-- ===== src/Poller/Visits.antt =====
-- The body of the loop of Poller::start (src/poller.cpp), where the slots keep what the poller watches.
use build_your_own_redis.Prelude.{
  ℕ, ◌≡◌, refl, sym, ap, ◌∙◌, Bool, true, false, ◌&&◌, some, [], ◌∷◌, ◌++◌, ==_iff, if◌then◌else◌,
  length,
}
use build_your_own_redis.Descriptors.{find}
use build_your_own_redis.Poller.{
  PollEventType, ready_to_read, ready_to_write, hang_up, error, invalid_fd, Flags,
  SocketEventHandler, Poller,
}
use build_your_own_redis.Poller.Rounds.{
  Revents, Round, went_on, Reaction, emit, Refers, notify, notify_asked, notify_all, visit,
}
use build_your_own_redis.Poller.Tells.{
  when, events_of, shown, shown-written, Keeps, Tells, Tells-nothing, Tells-then, Tells-shown,
}

module _ {S : Type 0} (act : ℕ → PollEventType → S → Reaction S) (whole : Bool) (p : Poller)
    (Inv : Poller → Type 0) (keeps : Keeps act whole p Inv) where
  emit-Tells :
      (s : ℕ) (event : PollEventType) (r : Round S)
      → Inv r.poller
      → Tells whole Inv r ((s, event) ∷ []) (emit act event (some s) r)
  unfolding emit
  emit-Tells s event r kept =
      let (q, granted, kept_on) = keeps.kept_requests r.poller s event r.world kept in
      (
        record {
          poller = q;
          world = (act s event r.world).world;
          emitted = r.emitted ++ (s, event) ∷ [];
        },
        (rw (granted, keeps.kept_calm s event r.world) refl, kept_on, refl),
      )

  -- The references of the loop are those of an entry.
  module _ (c : Refers) (h : SocketEventHandler) (s : ℕ) (signalled : h.signal ≡ some s)
      (found : find c.fd p.handlers ≡ some h) (node : h.node ≡ c.node)
      (size : length p.fds ≡ c.size) where
    notify-Tells :
        (event : PollEventType) (raised : Bool) (r : Round S)
        → Inv r.poller
        → Tells whole Inv r (when raised (s, event)) (notify act c event raised r)
    unfolding notify
    notify-Tells event true r kept =
        let a = keeps.kept_alike r.poller kept in
        let (f, reads, writes, found') = a.entry_alike c.fd h found in
        rw (found', (==_iff _ _).1 node, (==_iff _ _).1 (a.size_alike ∙ size), signalled)
          (emit-Tells s event r kept)
    notify-Tells event false r kept =
        let a = keeps.kept_alike r.poller kept in
        rw ((==_iff _ _).1 (a.size_alike ∙ size)) (Tells-nothing whole Inv r kept)

    notify_asked-Tells :
        (event : PollEventType) (asked : Flags → Bool) (raised : Bool) (r : Round S)
        → Inv r.poller
        → ((f : Flags)
            → f.pollin ≡ h.flags.pollin
            → (whole ≡ true → f.pollout ≡ h.flags.pollout)
            → shown whole (when (asked f && raised) (s, event))
              ≡ shown whole (when (asked h.flags && raised) (s, event)))
        → Tells whole Inv r
            (when (asked h.flags && raised) (s, event))
            (notify_asked act c event asked raised r)
    unfolding notify_asked
    notify_asked-Tells event asked raised r kept same =
        let a = keeps.kept_alike r.poller kept in
        let (f, reads, writes, found') = a.entry_alike c.fd h found in
        Tells-shown whole Inv r _ _ _ (same f reads writes) (
          rw (found', (==_iff _ _).1 node, (==_iff _ _).1 (a.size_alike ∙ size), signalled)
            (by_asked (asked f) raised))
      where
        by_asked :
            (a b : Bool)
            → Tells whole Inv r
                (when (a && b) (s, event))
                (if a then if b then emit act event (some s) r else went_on r else went_on r)
        by_asked true true = emit-Tells s event r kept
        by_asked true false = Tells-nothing whole Inv r kept
        by_asked false b = Tells-nothing whole Inv r kept

    notify_all-Tells :
        (v : Revents) (r : Round S)
        → Inv r.poller
        → Tells whole Inv r (events_of s h.flags v) (notify_all act c v r)
    unfolding notify_all events_of
    notify_all-Tells v r k =
        Tells-then whole Inv r _ _ _ _ (notify-Tells invalid_fd v.pollnval r k) λ r1 k1.
          Tells-then whole Inv r1 _ _ _ _ (notify-Tells error v.pollerr r1 k1) λ r2 k2.
            Tells-then whole Inv r2 _ _ _ _ (notify-Tells hang_up v.pollhup r2 k2) λ r3 k3.
              Tells-then whole Inv r3 _ _ _ _
                (notify_asked-Tells ready_to_read (λ f. f.pollin) v.pollin r3 k3
                  λ f reads writes.
                    ap (λ b. shown whole (when (b && v.pollin) (s, ready_to_read))) reads)
                λ r4 k4.
                  notify_asked-Tells ready_to_write (λ f. f.pollout) v.pollout r4 k4
                    λ f reads writes. shown-written whole s _ _ v.pollout writes

  -- With one entry for the descriptor, its signal is told.
  pub visit-Tells :
      (fd : ℕ) (v : Revents) (h : SocketEventHandler) (s : ℕ) (r : Round S)
      → Inv r.poller
      → find fd p.handlers ≡ some h
      → h.signal ≡ some s
      → Tells whole Inv r (events_of s h.flags v) (visit act fd v r)
  unfolding visit
  visit-Tells fd v h s r kept found signalled =
      let a = keeps.kept_alike r.poller kept in
      let (f, reads, writes, found') = a.entry_alike fd h found in
      rw found' (
        notify_all-Tells (record { fd = fd; node = h.node; size = length r.poller.fds }) h s
          signalled found refl (sym a.size_alike) v r kept)
