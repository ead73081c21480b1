-- ===== src/Poller/Rewatches.antt =====
-- Calls of the slots of the poller (src/poller.cpp) that only change what is asked for a descriptor, as
-- those of Handler::setup_poll (src/handler.cpp) do while a round runs.
use build_your_own_redis.Prelude.{
  ℕ, ◌≡◌, refl, sym, ap, ◌∙◌, inl, inr, Bool, true, none, ◌||◌, Option, some, List, [], ◌∷◌, ◌==◌,
  ==_iff, All, get_elem?, set, get_elem?-set_self, get_elem?-set_ne, length-set, Bool-cases,
}
use build_your_own_redis.Outcome.{ok}
use build_your_own_redis.Descriptors.{find, find-assign_self, find-assign_ne}
use build_your_own_redis.Poller.{
  PollEventType, PollEventTypeList, Flags, PollFd, SocketEventHandler, Poller, flags_of, add,
  Request, adds, removes, add_found, request, request_all,
}
use build_your_own_redis.Poller.Rounds.{Reaction}
use build_your_own_redis.Poller.Watched.{IsValid, added_old, added_old-IsValid}
use build_your_own_redis.Poller.Tells.{Alike, Alike-refl, Keeps}

Alike-trans : (whole : Bool) (p q t : Poller) → Alike whole p q → Alike whole q t → Alike whole p t
Alike-trans whole p q t a b = record {
  fds_alike = λ i e at. let (f, at') = a.fds_alike i e at in b.fds_alike i _ at';
  size_alike = b.size_alike ∙ a.size_alike;
  entry_alike = λ k h found.
      let (f, reads, writes, found') = a.entry_alike k h found in
      let (g, reads', writes', found'') = b.entry_alike k _ found' in
      (g, reads' ∙ reads, (λ w. writes' w ∙ writes w), found'');
}

-- A call that adds a watched descriptor once more for its own signal, to be read as before, and to be
-- written as before too where all events are shown
abbrev pub Rewatches : Bool → Poller → Request → Type 0
Rewatches whole p (adds garbage fd types signal) =
    (h : SocketEventHandler) × (find fd p.handlers ≡ some h)
    × (h.signal ≡ some signal)
    × ((types.has_ready_to_read || garbage.pollin) ≡ h.flags.pollin)
    × (whole ≡ true → (types.has_ready_to_write || garbage.pollout) ≡ h.flags.pollout)
Rewatches whole p (removes fd) = ⊥

Rewatches-Alike :
    (whole : Bool) (p q : Poller) (r : Request)
    → Alike whole p q
    → Rewatches whole p r
    → Rewatches whole q r
Rewatches-Alike whole p q (adds garbage fd types signal) a (h, found, own, reads, writes) =
    let (f, reads', writes', found') = a.entry_alike fd h found in
    (record h { flags = f }, found', own, reads ∙ sym reads', (λ w. writes w ∙ sym (writes' w)))
Rewatches-Alike whole p q (removes fd) a never = never

All-Rewatches :
    (whole : Bool) (p q : Poller) (rs : List Request)
    → Alike whole p q
    → All (Rewatches whole p) rs
    → All (Rewatches whole q) rs
All-Rewatches whole p q [] a h = h
All-Rewatches whole p q (r ∷ rs) a (h, hs) =
    (Rewatches-Alike whole p q r a h, All-Rewatches whole p q rs a hs)

module _ (whole : Bool) (garbage : Flags) (fd signal : ℕ) (types : PollEventTypeList) (p : Poller)
    (h : SocketEventHandler) (v : IsValid p) (found : find fd p.handlers ≡ some h)
    (own : h.signal ≡ some signal)
    (reads : (types.has_ready_to_read || garbage.pollin) ≡ h.flags.pollin)
    (writes : whole ≡ true → (types.has_ready_to_write || garbage.pollout) ≡ h.flags.pollout) where
  abbrev asked_flags : Flags
  asked_flags = flags_of garbage types

  rewatched-Alike : Alike whole p (added_old garbage fd signal types p h)
  rewatched-Alike = record {
    fds_alike = λ i e at. elim (Bool-cases (h.pos_in_fds == i)) [
      | inl q ↦
          let (n, signalled, w) = v.entry_watched fd h found in
          let place = (==_iff h.pos_in_fds i).0 q in
          let item : record { fd = fd; events = h.flags } ≡ e =
            cc (w, ap (get_elem? p.fds) place, at) in
          (
            asked_flags,
            ap (get_elem? (set p.fds h.pos_in_fds (record { fd = fd; events = asked_flags })))
                  (sym place)
                ∙ get_elem?-set_self p.fds h.pos_in_fds _ _ w
                ∙ ap (λ (y : PollFd). some (record { fd = y.fd; events = asked_flags })) item,
          )
      | inr q ↦ (
        e.events,
        get_elem?-set_ne p.fds h.pos_in_fds i _ (λ s. cc ((==_iff h.pos_in_fds i).1 s)) ∙ at,
      )
    ];
    size_alike = length-set p.fds h.pos_in_fds _;
    entry_alike = λ k x e. elim (Bool-cases (fd == k)) [
      | inl q ↦
          let same_fd = (==_iff fd k).0 q in
          let same : h ≡ x = cc (found, ap (λ j. find j p.handlers) same_fd, e) in
          (
            asked_flags,
            reads ∙ ap (λ (y : SocketEventHandler). y.flags.pollin) same,
            (λ w. writes w ∙ ap (λ (y : SocketEventHandler). y.flags.pollout) same),
            ap (λ j. find j (added_old garbage fd signal types p h).handlers) (sym same_fd)
                ∙ find-assign_self fd _ p.handlers
                ∙ ap {A = Option ℕ} {B = Option SocketEventHandler}
                    (λ s. some (record h { flags = asked_flags; signal = s })) (sym own)
                ∙ ap {A = SocketEventHandler} {B = Option SocketEventHandler}
                    (λ y. some (record y { flags = asked_flags })) same,
          )
      | inr q ↦ (
        x.flags,
        refl,
        (λ w. refl),
        find-assign_ne fd k _ p.handlers (λ s. cc ((==_iff fd k).1 s)) ∙ e,
      )
    ];
  }

  rewatched-ok :
      request (adds garbage fd types signal) p ≡ ok (added_old garbage fd signal types p h)
  unfolding request add add_found
  rewatched-ok =
      let (n, signalled, at) = v.entry_watched fd h found in rw (found, add_found, at) refl

-- Such calls are granted, and keep the poller.
request_all-Alike :
    (whole : Bool) (rs : List Request) (p : Poller)
    → IsValid p
    → All (Rewatches whole p) rs
    → (q : Poller) × (request_all rs p ≡ ok q) × IsValid q × Alike whole p q
unfolding request_all
request_all-Alike whole [] p v h = (p, refl, v, Alike-refl whole p)
request_all-Alike whole (adds garbage fd types signal ∷ rs) p v
      ((h, found, own, reads, writes), hs) =
    let p' = added_old garbage fd signal types p h in
    let a = rewatched-Alike whole garbage fd signal types p h v found own reads writes in
    let (q, granted, v', b) =
      request_all-Alike whole rs p' (added_old-IsValid garbage fd signal types p h found v)
        (All-Rewatches whole p p' rs a hs) in
    (
      q,
      rw (rewatched-ok whole garbage fd signal types p h v found own reads writes) granted,
      v',
      Alike-trans whole p p' q a b,
    )
request_all-Alike whole (removes fd ∷ rs) p v (never, hs) = absurd never

-- The slots do not throw, and only add watched descriptors once more.
abbrev pub IsCalm : {S : Type 0} → (ℕ → PollEventType → S → Reaction S) → Bool → Poller → Type 0
IsCalm {S} act whole p =
    (s : ℕ) (event : PollEventType) (w : S)
    → All (Rewatches whole p) (act s event w).requests × ((act s event w).thrown ≡ none)

pub IsCalm-Keeps :
    {S : Type 0} (act : ℕ → PollEventType → S → Reaction S) (whole : Bool) (p : Poller)
    → IsCalm act whole p
    → Keeps act whole p (λ q. IsValid q × Alike whole p q)
IsCalm-Keeps act whole p calm = record {
  kept_alike = λ q (v, a). a;
  kept_requests = λ q s event w (v, a).
      let (t, granted, v', b) =
        request_all-Alike whole (act s event w).requests q v
          (All-Rewatches whole p q (act s event w).requests a (calm s event w).0) in
      (t, granted, (v', Alike-trans whole p q t a b));
  kept_calm = λ s event w. (calm s event w).1;
}
