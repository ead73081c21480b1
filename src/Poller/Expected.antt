-- ===== src/Poller/Expected.antt =====
-- What the poller (src/poller.cpp) owes its signals for an answer of ::poll.
use build_your_own_redis.Prelude.{
  ℕ, ◌+◌, ◌≡◌, refl, ap, ◌∙◌, false, Option, none, some, List, [], ◌∷◌, ◌++◌, arith, if◌then◌else◌,
}
use build_your_own_redis.Descriptors.{minus_one, find}
use build_your_own_redis.Poller.{PollEventType, PollFd, SocketEventHandler, Poller}
use build_your_own_redis.Poller.Rounds.{Revents, is_raised}
use build_your_own_redis.Poller.Tells.{events_of}

abbrev pub events_for : Revents → Option SocketEventHandler → List (ℕ × PollEventType)
events_for v none = []
events_for v (some h) = elim h.signal [ none ↦ [] | some s ↦ events_of s h.flags v ]

-- What all are told, in the order of the vector.
unfoldable pub expected : Poller → List PollFd → List Revents → List (ℕ × PollEventType)
unfolding events_of
expected p [] vs = []
expected p (e ∷ es) [] = []
expected p (e ∷ es) (v ∷ vs) = events_for v (find e.fd p.handlers) ++ expected p es vs

-- The number that ::poll returns
abbrev pub raised_count : List Revents → ℕ
raised_count [] = 0
raised_count (v ∷ vs) = (if is_raised v then 1 else 0) + raised_count vs

-- An answer for each descriptor, and none for those that are not asked about
abbrev pub Answers : List PollFd → List Revents → Type 0
Answers [] vs = vs ≡ []
Answers (e ∷ es) [] = ⊥
Answers (e ∷ es) (v ∷ vs) = (e.fd ≡ minus_one → is_raised v ≡ false) × Answers es vs

-- Where nothing is raised, nobody is told.
pub events_for-unraised :
    (v : Revents) (o : Option SocketEventHandler) → is_raised v ≡ false → events_for v o ≡ []
unfolding events_of
events_for-unraised v none e = refl
events_for-unraised v (some h) e = by_signal h.signal
  where
    by_signal : (o : Option ℕ) → (elim o [ none ↦ [] | some s ↦ events_of s h.flags v ]) ≡ []
    by_signal none = refl
    by_signal (some s) = ground arith

pub expected-unraised :
    (p : Poller) (es : List PollFd) (vs : List Revents)
    → raised_count vs ≡ 0
    → expected p es vs ≡ []
unfolding expected
expected-unraised p [] vs e = refl
expected-unraised p (x ∷ es) [] e = refl
expected-unraised p (x ∷ es) (v ∷ vs) e =
    rw
      (
        events_for-unraised v (find x.fd p.handlers) (ground arith),
        expected-unraised p es vs (omega arith),
      )
      refl

pub expected-nobody :
    (p : Poller) (es : List PollFd) (vs : List Revents) → p.handlers ≡ [] → expected p es vs ≡ []
unfolding expected find
expected-nobody p [] vs e = refl
expected-nobody p (x ∷ es) [] e = refl
expected-nobody p (x ∷ es) (v ∷ vs) e =
    ap (λ t. events_for v (find x.fd t) ++ expected p es vs) e ∙ expected-nobody p es vs e
