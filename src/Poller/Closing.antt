-- ===== src/Poller/Closing.antt =====
-- A connection that closes while the poller (src/poller.cpp) tells it of an event: Handler::close
-- (src/handler.cpp) calls the slot that takes its descriptor off, under the loop.
use build_your_own_redis.Prelude.{
  ℕ, ◌≡◌, refl, ap, ◌∙◌, ◌⊎◌, inl, inr, Bool, true, false, none, some, [], ◌∷◌, ◌++◌, ◌==◌, ==_iff,
  if◌then◌else◌, length,
}
use build_your_own_redis.Outcome.{ok}
use build_your_own_redis.Descriptors.{find, find-erase}
use build_your_own_redis.Poller.{
  PollEventType, ready_to_read, ready_to_write, hang_up, error, invalid_fd, Flags,
  SocketEventHandler, removes, remove, request, request_all,
}
use build_your_own_redis.Poller.Rounds.{
  Revents, Round, Polling, went_on, undefined_poll, and_then, Reaction, emit, Refers, notify,
  notify_asked, notify_all, visit,
}
use build_your_own_redis.Poller.Watched.{IsValid, taken_off}

module _ {S : Type 0} (act : ℕ → PollEventType → S → Reaction S) where
  -- On this event the slots of the signal take this descriptor off.
  abbrev pub Closes : ℕ → PollEventType → ℕ → Type 0
  Closes s event fd =
      (w : S) → ((act s event w).requests ≡ removes fd ∷ []) × ((act s event w).thrown ≡ none)

  -- The entry of a descriptor is gone.
  abbrev IsGone : ℕ → Polling S → Type 0
  IsGone fd m = (t : Round S) × ((m ≡ went_on t) × (find fd t.poller.handlers ≡ none))

  module _ (fd s : ℕ) (h : SocketEventHandler) (r : Round S) (valid : IsValid r.poller)
      (found : find fd r.poller.handlers ≡ some h) (signalled : h.signal ≡ some s) where
    close_request : request_all (removes fd ∷ []) r.poller ≡ ok (taken_off fd r.poller h h.flags)
    unfolding request_all request remove
    close_request =
        let (n, signal, at) = valid.entry_watched fd h found in rw (found, remove, at) refl

    emit-IsGone :
        (event : PollEventType) → Closes s event fd → IsGone fd (emit act event (some s) r)
    unfolding emit
    emit-IsGone event closes =
        let (requests, calm) = closes r.world in
        (
          record {
            poller = taken_off fd r.poller h h.flags;
            world = (act s event r.world).world;
            emitted = r.emitted ++ (s, event) ∷ [];
          },
          (
            rw (requests, close_request, calm) refl,
            find-erase fd fd r.poller.handlers
                ∙ ap (λ b. if b then none else find fd r.poller.handlers) ((==_iff fd fd).1 refl),
          ),
        )

    abbrev refs : Refers
    refs = record { fd = fd; node = h.node; size = length r.poller.fds }

    whole : (length r.poller.fds == length r.poller.fds) ≡ true
    whole = (==_iff _ _).1 refl

    same_node : (h.node == h.node) ≡ true
    same_node = (==_iff _ _).1 refl

    -- The loop reads the flags of the entry behind an event.
    gone-undefined :
        (event : PollEventType) (asked : Flags → Bool) (raised : Bool) (m : Polling S)
        (next : Round S → Polling S)
        → IsGone fd m
        → and_then m (λ t. and_then (notify_asked act refs event asked raised t) next)
          ≡ undefined_poll
    unfolding notify_asked
    gone-undefined event asked raised m next (t, (e, gone)) = rw (e, gone) refl

    gone-undefined_last :
        (event : PollEventType) (asked : Flags → Bool) (raised : Bool) (m : Polling S)
        → IsGone fd m
        → and_then m (notify_asked act refs event asked raised) ≡ undefined_poll
    unfolding notify_asked
    gone-undefined_last event asked raised m (t, (e, gone)) = rw (e, gone) refl

    quiet_step :
        (event : PollEventType) (raised : Bool)
        → raised ≡ false
        → notify act refs event raised r ≡ went_on r
    unfolding notify
    quiet_step event raised e = rw (e, whole) refl

    loud_step :
        (event : PollEventType) (raised : Bool)
        → raised ≡ true
        → notify act refs event raised r ≡ emit act event (some s) r
    unfolding notify
    loud_step event raised e = rw (e, whole, found, same_node, signalled) refl

    asked_step :
        (raised : Bool)
        → raised ≡ true
        → h.flags.pollin ≡ true
        → notify_asked act refs ready_to_read (λ f. f.pollin) raised r
          ≡ emit act ready_to_read (some s) r
    unfolding notify_asked
    asked_step raised e asked = rw (e, whole, found, same_node, asked, signalled) refl

    -- Where a descriptor is told, without an error, that it hung up, or that it can be read, and its
    -- handler closes on this, as it does for a client that is gone, the round reads the entry of the
    -- descriptor after it was erased.
    pub visit-closing :
        (v : Revents)
        → v.pollnval ≡ false
        → v.pollerr ≡ false
        → ((v.pollhup ≡ true) × Closes s hang_up fd)
          ⊎ ((v.pollhup ≡ false)
              × (v.pollin ≡ true)
              × (h.flags.pollin ≡ true)
              × Closes s ready_to_read fd)
        → visit act fd v r ≡ undefined_poll
    unfolding visit notify_all
    visit-closing v n e (inl (hup, closes)) =
        rw
          (
            found,
            quiet_step invalid_fd v.pollnval n,
            quiet_step error v.pollerr e,
            loud_step hang_up v.pollhup hup,
          )
          (gone-undefined ready_to_read (λ f. f.pollin) v.pollin _ _ (emit-IsGone hang_up closes))
    visit-closing v n e (inr (hup, pin, asked, closes)) =
        rw
          (
            found,
            quiet_step invalid_fd v.pollnval n,
            quiet_step error v.pollerr e,
            quiet_step hang_up v.pollhup hup,
            asked_step v.pollin pin asked,
          )
          (gone-undefined_last ready_to_write (λ f. f.pollout) v.pollout _
            (emit-IsGone ready_to_read closes))
