-- ===== src/Poller/Tells.antt =====
-- What the poller (src/poller.cpp) emits for one descriptor, where its slots keep what it watches.
use build_your_own_redis.Prelude.{
  ℕ, ◌≡◌, refl, sym, ap, ◌∙◌, Bool, true, false, ◌&&◌, ◌||◌, none, some, List, [], ◌∷◌, ◌++◌,
  append_assoc, append-nil, if◌then◌else◌, length, get_elem?,
}
use build_your_own_redis.Outcome.{ok}
use build_your_own_redis.Descriptors.{find}
use build_your_own_redis.Poller.{
  PollEventType, ready_to_read, ready_to_write, hang_up, error, invalid_fd, Flags, PollFd,
  SocketEventHandler, Poller, request_all,
}
use build_your_own_redis.Poller.Rounds.{Revents, Round, Polling, went_on, and_then, Reaction}

abbrev pub when : {A : Type 0} → Bool → A → List A
when b x = if b then x ∷ [] else []

-- What the signal of a descriptor is told of an answer: errors always, and what is asked for.
unfoldable pub events_of : ℕ → Flags → Revents → List (ℕ × PollEventType)
events_of s f v =
    when v.pollnval (s, invalid_fd)
    ++ (when v.pollerr (s, error)
        ++ (when v.pollhup (s, hang_up)
            ++ (when (f.pollin && v.pollin) (s, ready_to_read)
                ++ when (f.pollout && v.pollout) (s, ready_to_write))))

abbrev is_unwritten : PollEventType → Bool
is_unwritten ready_to_read = true
is_unwritten ready_to_write = false
is_unwritten hang_up = true
is_unwritten error = true
is_unwritten invalid_fd = true

-- All events, or all but those of descriptors that can be written
unfoldable pub shown : Bool → List (ℕ × PollEventType) → List (ℕ × PollEventType)
shown whole [] = []
shown whole (e ∷ es) = when (whole || is_unwritten e.1) e ++ shown whole es

shown-append :
    (whole : Bool) (es fs : List (ℕ × PollEventType))
    → shown whole (es ++ fs) ≡ shown whole es ++ shown whole fs
unfolding shown
shown-append whole [] fs = refl
shown-append whole (e ∷ es) fs =
    rw (shown-append whole es fs)
      (sym (append_assoc (when (whole || is_unwritten e.1) e) (shown whole es) (shown whole fs)))

pub shown-whole : (es : List (ℕ × PollEventType)) → shown true es ≡ es
unfolding shown
shown-whole [] = refl
shown-whole (e ∷ es) = ap (λ l. e ∷ l) (shown-whole es)

-- Where writing is not shown, it does not matter whether it is asked for.
pub shown-written :
    (whole : Bool) (s : ℕ) (a b c : Bool)
    → (whole ≡ true → a ≡ b)
    → shown whole (when (a && c) (s, ready_to_write))
      ≡ shown whole (when (b && c) (s, ready_to_write))
unfolding shown
shown-written true s a b c same = rw (same refl) refl
shown-written false s true true c same = refl
shown-written false s false false c same = refl
shown-written false s true false true same = refl
shown-written false s true false false same = refl
shown-written false s false true true same = refl
shown-written false s false true false same = refl

-- Apart from what is asked for, the entries and the vector of the second poller are those of the first one.
-- It asks to read the same descriptors, and to write them too where all events are shown.
pub record Alike (whole : Bool) (p q : Poller) : Type 0 where
  pub fds_alike :
      (i : ℕ) (e : PollFd)
      → get_elem? p.fds i ≡ some e
      → (f : Flags) × (get_elem? q.fds i ≡ some (record e { events = f }))
  pub size_alike : length q.fds ≡ length p.fds
  pub entry_alike :
      (k : ℕ) (h : SocketEventHandler)
      → find k p.handlers ≡ some h
      → (f : Flags) × (f.pollin ≡ h.flags.pollin)
        × (whole ≡ true → f.pollout ≡ h.flags.pollout)
        × (find k q.handlers ≡ some (record h { flags = f }))

pub Alike-refl : (whole : Bool) (p : Poller) → Alike whole p p
Alike-refl whole p = record {
  fds_alike = λ i e at. (e.events, at);
  size_alike = refl;
  entry_alike = λ k h found. (h.flags, refl, (λ w. refl), found);
}

-- The slots keep a property of the poller, and do not throw.
pub record Keeps {S : Type 0} (act : ℕ → PollEventType → S → Reaction S) (whole : Bool) (p : Poller)
    (Inv : Poller → Type 0) : Type 0 where
  pub kept_alike : (q : Poller) → Inv q → Alike whole p q
  pub kept_requests :
      (q : Poller) (s : ℕ) (event : PollEventType) (w : S)
      → Inv q
      → (t : Poller) × (request_all (act s event w).requests q ≡ ok t) × Inv t
  pub kept_calm : (s : ℕ) (event : PollEventType) (w : S) → (act s event w).thrown ≡ none

module _ {S : Type 0} (whole : Bool) (Inv : Poller → Type 0) where
  -- The round goes on with a poller that has the property, and has told of these events, as far as they
  -- are shown.
  abbrev pub Tells : Round S → List (ℕ × PollEventType) → Polling S → Type 0
  Tells r events m =
      (t : Round S) × ((m ≡ went_on t)
        × Inv t.poller
        × (shown whole t.emitted ≡ shown whole (r.emitted ++ events)))

  pub Tells-nothing : (r : Round S) → Inv r.poller → Tells r [] (went_on r)
  Tells-nothing r kept = (r, (refl, kept, ap (shown whole) (sym (append-nil r.emitted))))

  pub Tells-then :
      (r : Round S) (es fs : List (ℕ × PollEventType)) (m : Polling S) (f : Round S → Polling S)
      → Tells r es m
      → ((t : Round S) → Inv t.poller → Tells t fs (f t))
      → Tells r (es ++ fs) (and_then m f)
  Tells-then r es fs m f (t, (e, p, h)) next =
      let (u, (e', p', h')) = next t p in
      (
        u,
        (
          rw e e',
          p',
          h'
              ∙ shown-append whole t.emitted fs
              ∙ ap (λ x. x ++ shown whole fs) h
              ∙ sym (shown-append whole (r.emitted ++ es) fs)
              ∙ ap (shown whole) (append_assoc r.emitted es fs),
        ),
      )

  pub Tells-shown :
      (r : Round S) (es fs : List (ℕ × PollEventType)) (m : Polling S)
      → shown whole es ≡ shown whole fs
      → Tells r es m
      → Tells r fs m
  Tells-shown r es fs m same (t, (e, p, h)) = (
    t,
    (
      e,
      p,
      h
          ∙ shown-append whole r.emitted es
          ∙ ap (λ x. shown whole r.emitted ++ x) same
          ∙ sym (shown-append whole r.emitted fs),
    ),
  )
