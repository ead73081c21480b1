-- ===== src/Poller/Delivers.antt =====
-- A round of the poller (src/poller.cpp) whose slots keep what it watches: who hears of what.
use mathlib.Core.Path.{subst}
use build_your_own_redis.Prelude.{
  ℕ, zero, suc, ◌+◌, ◌-◌, ◌≡◌, ◌≢◌, refl, sym, ap, ◌∙◌, inl, inr, Bool, true, none, some, List, [],
  ◌∷◌, ◌++◌, append_assoc, arith, ◌==◌, ==_iff, length, get_elem?, get_elem?-length, Bool-cases,
  length-append,
}
use build_your_own_redis.Descriptors.{Table, minus_one, find}
use build_your_own_redis.Poller.{PollEventType, PollFd, SocketEventHandler, Poller, request_all}
use build_your_own_redis.Poller.Rounds.{
  Revents, Round, Polling, went_on, Reaction, is_raised, polled, go_on, visit, visit_at, visit_all,
  answered, poll_round,
}
use build_your_own_redis.Poller.Watched.{IsValid}
use build_your_own_redis.Poller.Tells.{
  shown, shown-whole, Alike, Alike-refl, Keeps, Tells, Tells-nothing, Tells-then,
}
use build_your_own_redis.Poller.Visits.{visit-Tells}
use build_your_own_redis.Poller.Rewatches.{IsCalm, IsCalm-Keeps}
use build_your_own_redis.Poller.Expected.{
  events_for, expected, raised_count, Answers, events_for-unraised, expected-unraised,
  expected-nobody,
}

module _ {S : Type 0} (whole : Bool) (Inv : Poller → Type 0) where
  Tells-events :
      (r : Round S) (es fs : List (ℕ × PollEventType)) (m : Polling S)
      → es ≡ fs
      → Tells whole Inv r es m
      → Tells whole Inv r fs m
  Tells-events r es fs m e told = subst (λ l. Tells whole Inv r l m) e told

module _ {S : Type 0} (act : ℕ → PollEventType → S → Reaction S) (whole : Bool) (p : Poller)
    (valid : IsValid p) (Inv : Poller → Type 0) (keeps : Keeps act whole p Inv) where
  -- The step to the next position
  go_on-Tells :
      (es : List PollFd) (vs : List Revents) (i left : ℕ) (t : Round S)
      → Inv t.poller
      → left ≡ raised_count vs
      → Tells whole Inv t (expected p es vs) (visit_all act (length p.fds) i left vs t)
      → Tells whole Inv t
          (expected p es vs)
          (go_on act (length p.fds) (λ n u. visit_all act (length p.fds) i n vs u) left t)
  go_on-Tells es vs i left t kept counted again = elim (Bool-cases (left == 0)) [
    | inl done ↦
        rw (done, expected-unraised p es vs (ground arith)) (Tells-nothing whole Inv t kept)
    | inr more ↦
        let a = keeps.kept_alike t.poller kept in rw (more, (==_iff _ _).1 a.size_alike) again
  ]

  visit-expected :
      (e : PollFd) (v : Revents) (i : ℕ) (r : Round S)
      → Inv r.poller
      → get_elem? p.fds i ≡ some e
      → e.fd ≢ minus_one
      → Tells whole Inv r (events_for v (find e.fd p.handlers)) (visit act e.fd v r)
  visit-expected e v i r kept at real = elim (valid.watched_entry i e at) [
    | inl off ↦ absurd (real off)
    | inr (h, found, place) ↦
        let (n, (s, signalled), w) = valid.entry_watched e.fd h found in
        rw (found, signalled) (visit-Tells act whole p Inv keeps e.fd v h s r kept found signalled)
  ]

  visit_all-Tells :
      (before es : List PollFd) (vs : List Revents) (count : ℕ) (r : Round S)
      → Inv r.poller
      → p.fds ≡ before ++ es
      → Answers es vs
      → count ≡ raised_count vs
      → Tells whole Inv r
          (expected p es vs)
          (visit_all act (length p.fds) (length before) count vs r)
  unfolding visit_all visit_at expected
  visit_all-Tells before [] [] count r kept split answers counted = Tells-nothing whole Inv r kept
  visit_all-Tells before [] (v ∷ vs) count r kept split answers counted = cc
  visit_all-Tells before (e ∷ es) [] count r kept split answers counted = absurd answers
  visit_all-Tells before (e ∷ es) (v ∷ vs) count r kept split answers counted =
      let at : get_elem? p.fds (length before) ≡ some e =
        ap (λ l. get_elem? l (length before)) split ∙ get_elem?-length before es e in
      let a = keeps.kept_alike r.poller kept in
      let (f, at_r) = a.fds_alike (length before) e at in
      let longer : length (before ++ e ∷ []) ≡ suc (length before) =
        omega (arith, length-append before (e ∷ [])) in
      let next =
        λ (t : Round S) (left : ℕ) (kept' : Inv t.poller) (counted' : left ≡ raised_count vs).
          go_on-Tells es vs (suc (length before)) left t kept' counted' (
            subst
              (λ n. Tells whole Inv t (expected p es vs) (visit_all act (length p.fds) n left vs t))
              longer
              (visit_all-Tells (before ++ e ∷ []) es vs left t kept'
                (split ∙ sym (append_assoc before (e ∷ []) es)) answers.1 counted')) in
      elim (Bool-cases (is_raised v)) [
        | inl up ↦
            let counted_on : count ≡ 1 + raised_count vs = rw up at counted in
            let real : e.fd ≢ minus_one = λ off. cc (answers.0 off) in
            rw (at_r, up)
              (Tells-then whole Inv r _ _ _ _ (visit-expected e v (length before) r kept at real)
                λ t kept'. next t (count - 1) kept' (omega (arith, counted_on)))
        | inr down ↦
            let counted_on : count ≡ 0 + raised_count vs = rw down at counted in
            rw (at_r, down)
              (Tells-events whole Inv r _ _ _
                (ap (λ l. l ++ expected p es vs)
                  (sym (events_for-unraised v (find e.fd p.handlers) down)))
                (next r count kept (omega (arith, counted_on))))
      ]

-- A round, for slots that keep a property of the poller
poll_round-Keeps :
    {S : Type 0} (act : ℕ → PollEventType → S → Reaction S) (whole : Bool) (vs : List Revents)
    (r : Round S)
    → IsValid r.poller
    → (Inv : Poller → Type 0) → Keeps act whole r.poller Inv
    → Inv r.poller
    → Answers r.poller.fds vs
    → Tells whole Inv r
        (expected r.poller r.poller.fds vs)
        (poll_round act (polled (raised_count vs) vs) r)
unfolding poll_round answered
poll_round-Keeps {S} act whole vs r valid Inv keeps kept answers =
    by_handlers r.poller.handlers refl (raised_count vs) refl
  where
    by_handlers :
        (t : Table SocketEventHandler)
        → r.poller.handlers ≡ t
        → (n : ℕ) → n ≡ raised_count vs
        → Tells whole Inv r (expected r.poller r.poller.fds vs) (answered act t (polled n vs) r)
    by_handlers [] e n counted =
        Tells-events whole Inv r _ _ _ (sym (expected-nobody r.poller r.poller.fds vs e))
          (Tells-nothing whole Inv r kept)
    by_handlers (h ∷ hs) e zero counted =
        Tells-events whole Inv r _ _ _
          (sym (expected-unraised r.poller r.poller.fds vs (sym counted)))
          (Tells-nothing whole Inv r kept)
    by_handlers (h ∷ hs) e (suc n) counted =
        visit_all-Tells act whole r.poller valid Inv keeps [] r.poller.fds vs (suc n) r kept refl
          answers counted

-- Take a poller that is well-formed, answers of ::poll for each descriptor it is asked about with the number
-- of those that are raised, and slots that do not throw and call the poller only to add a watched descriptor
-- once more for its own signal, to be read as before, as a handler does when it has written. Then a
-- round goes on, and leaves the poller well-formed and with the same descriptors watched. But for
-- events of descriptors that can be written, it tells the signal of each descriptor of its errors and
-- of what was asked for at the start, in the order of the vector, and nobody else. Where the slots
-- also ask to write as before, those events are told in this way too.
pub poll_round-Tells :
    {S : Type 0} (act : ℕ → PollEventType → S → Reaction S) (whole : Bool) (vs : List Revents)
    (r : Round S)
    → IsValid r.poller
    → IsCalm act whole r.poller
    → Answers r.poller.fds vs
    → (t : Round S) × ((poll_round act (polled (raised_count vs) vs) r ≡ went_on t)
        × (IsValid t.poller × Alike whole r.poller t.poller)
        × (shown whole t.emitted ≡ shown whole (r.emitted ++ expected r.poller r.poller.fds vs)))
poll_round-Tells act whole vs r valid calm answers =
    poll_round-Keeps act whole vs r valid (λ q. IsValid q × Alike whole r.poller q)
      (IsCalm-Keeps act whole r.poller calm) (valid, Alike-refl whole r.poller) answers

-- Slots that do not call the poller leave it as it is, and are told of all events.
poll_round-quiet :
    {S : Type 0} (act : ℕ → PollEventType → S → Reaction S) (vs : List Revents) (r : Round S)
    → IsValid r.poller
    → ((s : ℕ) (event : PollEventType) (w : S)
        → ((act s event w).requests ≡ []) × ((act s event w).thrown ≡ none))
    → Answers r.poller.fds vs
    → (t : Round S) × (poll_round act (polled (raised_count vs) vs) r ≡ went_on t)
      × (t.poller ≡ r.poller)
      × (t.emitted ≡ r.emitted ++ expected r.poller r.poller.fds vs)
unfolding request_all
poll_round-quiet act vs r valid quiet answers =
    let keeps : Keeps act true r.poller (λ q. q ≡ r.poller) = record {
      kept_alike = λ q e. subst (Alike true r.poller) (sym e) (Alike-refl true r.poller);
      kept_requests = λ q s event w e. (q, rw ((quiet s event w).0) refl, e);
      kept_calm = λ s event w. (quiet s event w).1;
    } in
    let (t, (done, same, told)) =
      poll_round-Keeps act true vs r valid (λ q. q ≡ r.poller) keeps refl answers in
    (
      t,
      done,
      same,
      sym (shown-whole t.emitted)
          ∙ told
          ∙ shown-whole (r.emitted ++ expected r.poller r.poller.fds vs),
    )
