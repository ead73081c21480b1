-- ===== src/Network/Opens.antt =====
-- What opens a descriptor (src/server.cpp): the start of the server and a new client.
use mathlib.Core.Path.{subst}
use build_your_own_redis.Prelude.{
  ℕ, suc, ◌≡◌, ◌≢◌, refl, ap, ◌∙◌, inl, inr, true, false, Option, none, some, List, ◌∷◌,
  Option-cases,
}
use build_your_own_redis.Descriptors.{minus_one, find, assign, find-assign_cases, find-assign_ne}
use build_your_own_redis.Poller.{Flags, flags_of}
use build_your_own_redis.Poller.Refines.{add-Follows}
use build_your_own_redis.HandlersManager
use build_your_own_redis.Network.{Link, Network, holds, to_read, accepts, start_server, happen}
use build_your_own_redis.Network.Wired.{IsWired, holds_self, holds_old, owned-add}
use build_your_own_redis.Network.Links.{Goes}

module _ (fresh : List ℕ → ℕ)
    (opens : (l : List ℕ) → (holds (fresh l) l ≡ false) × (fresh l ≢ minus_one)) where
  module _ (n : Network) (w : IsWired n) where
    abbrev new_one : ℕ
    new_one = fresh n.opened

    not_client : (l : Link) → find new_one n.manager ≢ some l
    not_client l e = let (o, real, ne) = w.client_open new_one l e in cc ((opens n.opened).0)

    not_server : n.server_fd ≢ some new_one
    not_server e = let (o, real) = w.server_open new_one e in cc ((opens n.opened).0)

    no_entry : find new_one n.manager ≡ none
    no_entry = elim (Option-cases (find new_one n.manager)) [
      | inl e ↦ e
      | inr (l, e) ↦ absurd (not_client l e)
    ]

    pub accepts-Goes : Goes (happen fresh accepts n)
    unfolding happen HandlersManager.add
    accepts-Goes =
        let link : Link = record { signal = n.next_signal; started = false } in
        let m : Network = record n {
          opened = new_one ∷ n.opened;
          manager = assign new_one link n.manager;
          next_signal = suc n.next_signal;
        } in
        (
          m,
          (
            rw (no_entry, HandlersManager.add) refl,
            record {
              valid = w.valid;
              client_open = λ k l e. elim (find-assign_cases new_one k link l n.manager e) [
                | inl (same_fd, same_link) ↦
                    subst
                      (λ j. (holds j m.opened ≡ true) × (j ≢ minus_one) × (n.server_fd ≢ some j))
                      same_fd (holds_self new_one n.opened, (opens n.opened).1, not_server)
                | inr (ne, old) ↦
                    let (o, real, other) = w.client_open k l old in
                    (holds_old k new_one n.opened o, real, other)
              ];
              server_open = λ k e.
                  let (o, real) = w.server_open k e in (holds_old k new_one n.opened o, real);
              owned = λ k f s e. elim (w.owned k f s e) [
                | inl server ↦ inl server
                | inr (l, held, own) ↦ inr (
                  l,
                  find-assign_ne new_one k link n.manager
                        (λ p. not_client l (ap (λ j. find j n.manager) p ∙ held))
                      ∙ held,
                  own,
                )
              ];
            },
          ),
        )

    pub start_server-Goes :
        (garbage : Flags) (o : Option ℕ) → n.server_fd ≡ o → Goes (start_server fresh garbage o n)
    unfolding start_server
    start_server-Goes garbage (some fd) e = (n, (refl, w))
    start_server-Goes garbage none e =
        let (q, (runs, valid, follows)) =
          add-Follows garbage new_one n.next_signal to_read n.poller (opens n.opened).1 w.valid in
        let m : Network = record n {
          opened = new_one ∷ n.opened;
          server_fd = some new_one;
          poller = q;
          next_signal = suc n.next_signal;
        } in
        (
          m,
          (
            rw runs refl,
            record {
              valid = valid;
              client_open = λ k l h.
                  let (o, real, other) = w.client_open k l h in
                  (
                    holds_old k new_one n.opened o,
                    real,
                    λ p. not_client l (ap (λ j. find j n.manager) (some_eq new_one k p) ∙ h),
                  );
              server_open = λ k p.
                  subst (λ j. (holds j m.opened ≡ true) × (j ≢ minus_one)) (some_eq new_one k p)
                    (holds_self new_one n.opened, (opens n.opened).1);
              owned =
                  owned-add n m new_one n.next_signal (flags_of garbage to_read) follows (inl refl)
                    λ k f s ne h. elim (w.owned k f s h) [
                      | inl server ↦ cc (e)
                      | inr held ↦ inr held
                    ];
            },
          ),
        )
      where
        some_eq : (a b : ℕ) → some a ≡ some b → a ≡ b
        some_eq a b p = cc
