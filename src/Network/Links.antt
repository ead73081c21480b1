-- ===== src/Network/Links.antt =====
-- What a handler does to the connections of the server (src/handler.cpp): its start, a write, its end.
use build_your_own_redis.Prelude.{
  ℕ, ◌≡◌, ◌≢◌, refl, sym, ap, ◌∙◌, inl, inr, Bool, true, false, none, some, ==_iff, if◌then◌else◌,
}
use build_your_own_redis.Outcome.{Outcome, ok, undefined}
use build_your_own_redis.Descriptors.{
  Table, find, assign, find-assign_cases, find-assign_self, find-assign_ne, find-erase,
}
use build_your_own_redis.Poller.{Poller, Flags, PollFd, PollEventTypeList, flags_of}
use build_your_own_redis.Poller
use build_your_own_redis.Poller.Refines.{add-Follows, remove-Follows}
use build_your_own_redis.HandlersManager
use build_your_own_redis.Network.{
  Link, Network, to_read, to_both, start_link, watch_link, close_link,
}
use build_your_own_redis.Network.Wired.{IsWired, owned-add}

-- A step goes through, and what it leaves is wired.
abbrev pub Goes : Outcome Network → Type 0
Goes o = (m : Network) × ((o ≡ ok m) × IsWired m)

module _ (garbage : Flags) (n : Network) (w : IsWired n) (fd : ℕ) (l : Link)
    (found : find fd n.manager ≡ some l) where
  abbrev begun : Link
  begun = record l { started = true }

  watched-Goes :
      (types : PollEventTypeList) (handlers : Table Link)
      → ((x : Link) × (find fd handlers ≡ some x) × (x.signal ≡ l.signal))
      → ((k : ℕ) (x : Link) → find k handlers ≡ some x → (y : Link) × (find k n.manager ≡ some y))
      → ((k : ℕ) → fd ≢ k → find k handlers ≡ find k n.manager)
      → (q : Poller) × ((Poller.add garbage fd types l.signal n.poller ≡ ok q)
          × IsWired (record n { manager = handlers; poller = q }))
  watched-Goes types handlers here sub others =
      let (open_fd, real, not_server) = w.client_open fd l found in
      let (q, (runs, valid, follows)) =
        add-Follows garbage fd l.signal types n.poller real w.valid in
      let m = record n { manager = handlers; poller = q } in
      (
        q,
        (
          runs,
          record {
            valid = valid;
            client_open = λ k x e. let (y, f) = sub k x e in w.client_open k y f;
            server_open = w.server_open;
            owned =
                owned-add n m fd l.signal (flags_of garbage types) follows (inr here) λ k f s ne e.
                  elim (w.owned k f s e) [
                    | inl server ↦ inl server
                    | inr (x, held, own) ↦ inr (x, others k ne ∙ held, own)
                  ];
          },
        ),
      )

  pub start_link-Goes : Goes (start_link garbage fd (some l) n)
  unfolding start_link
  start_link-Goes = by_started l.started
    where
      started_now : Table Link
      started_now = assign fd begun n.manager

      entries :
          (k : ℕ) (x : Link)
          → find k started_now ≡ some x
          → (y : Link) × (find k n.manager ≡ some y)
      entries k x e = elim (find-assign_cases fd k begun x n.manager e) [
        | inl (same_fd, same_link) ↦ (l, ap (λ j. find j n.manager) (sym same_fd) ∙ found)
        | inr (ne, old) ↦ (x, old)
      ]

      by_started :
          (b : Bool)
          → Goes (if b then ok n else start_link garbage fd (some (record l { started = false })) n)
      by_started true = (n, (refl, w))
      by_started false =
          let (q, (runs, wired)) =
            watched-Goes to_read started_now (begun, find-assign_self fd begun n.manager, refl)
              entries (λ k ne. find-assign_ne fd k begun n.manager ne) in
          (record n { manager = started_now; poller = q }, (rw runs refl, wired))

  pub watch_link-Goes : (write : Bool) → Goes (watch_link garbage write fd (some l) n)
  unfolding watch_link
  watch_link-Goes write = by_started l.started
    where
      by_started :
          (b : Bool) → Goes (watch_link garbage write fd (some (record l { started = b })) n)
      by_started false = (n, (refl, w))
      by_started true =
          let (q, (runs, wired)) =
            watched-Goes (if write then to_both else to_read) n.manager (l, found, refl)
              (λ k x e. (x, e)) (λ k ne. refl) in
          (record n { poller = q }, (rw runs refl, wired))

-- A handler that closes is gone before its close is over.
pub close_link-undefined :
    (n : Network) (fd : ℕ) (l : Link) → IsWired n → close_link fd (some l) n ≡ undefined
unfolding close_link HandlersManager.remove
close_link-undefined n fd l w =
    let (q, (runs, valid, follows)) = remove-Follows fd n.poller w.valid in
    rw
      (
        runs,
        find-erase fd fd n.manager
            ∙ ap (λ b. if b then none else find fd n.manager) ((==_iff fd fd).1 refl),
      )
      refl
