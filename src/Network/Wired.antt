-- ===== src/Network/Wired.antt =====
-- The connections of the server (src/main.cpp): what the poller watches is open and has its handler.
use build_your_own_redis.Prelude.{
  ℕ, ◌≡◌, ◌≢◌, sym, ap, ◌∙◌, ◌⊎◌, inl, inr, true, Option, some, List, ◌∷◌, ◌==◌, ==_iff,
  if◌then◌else◌, arith, Bool-cases,
}
use build_your_own_redis.Descriptors.{minus_one, find}
use build_your_own_redis.Poller.{Flags}
use build_your_own_redis.Poller.Watched.{IsValid}
use build_your_own_redis.Poller.Asks.{watched}
use build_your_own_redis.Network.{Link, Network, holds}

-- A handler of the manager has an open descriptor of its own, so has the server, and what the poller
-- watches is that of the server, or of a handler to whose signal it emits.
pub record IsWired (n : Network) : Type 0 where
  pub valid : IsValid n.poller
  pub client_open :
      (k : ℕ) (l : Link)
      → find k n.manager ≡ some l
      → (holds k n.opened ≡ true) × (k ≢ minus_one) × (n.server_fd ≢ some k)
  pub server_open : (k : ℕ) → n.server_fd ≡ some k → (holds k n.opened ≡ true) × (k ≢ minus_one)
  pub owned :
      (k : ℕ) (f : Flags) (s : Option ℕ)
      → watched n.poller k ≡ some (f, s)
      → (n.server_fd ≡ some k) ⊎ ((l : Link) × (find k n.manager ≡ some l) × (s ≡ some l.signal))

pub holds_self : (k : ℕ) (js : List ℕ) → holds k (k ∷ js) ≡ true
holds_self k js = ground arith

pub holds_old : (k j : ℕ) (js : List ℕ) → holds k js ≡ true → holds k (j ∷ js) ≡ true
holds_old k j js h = ground arith

-- What the poller watches behind an add of one of the signals
pub owned-add :
    (n m : Network) (fd signal : ℕ) (g : Flags)
    → ((k : ℕ)
        → watched m.poller k ≡ (if fd == k then some (g, some signal) else watched n.poller k))
    → ((m.server_fd ≡ some fd) ⊎ ((l : Link) × (find fd m.manager ≡ some l) × (l.signal ≡ signal)))
    → ((k : ℕ) (f : Flags) (s : Option ℕ)
        → fd ≢ k
        → watched n.poller k ≡ some (f, s)
        → (m.server_fd ≡ some k) ⊎ ((l : Link) × (find k m.manager ≡ some l) × (s ≡ some l.signal)))
    → (k : ℕ) (f : Flags) (s : Option ℕ) → watched m.poller k ≡ some (f, s)
    → (m.server_fd ≡ some k) ⊎ ((l : Link) × (find k m.manager ≡ some l) × (s ≡ some l.signal))
owned-add n m fd signal g follows owner old k f s w = elim (Bool-cases (fd == k)) [
  | inl q ↦
      let same_fd = (==_iff fd k).0 q in
      let same_signal : some signal ≡ s = same_second g f (some signal) s (
        sym (ap (λ b. if b then some (g, some signal) else watched n.poller k) q)
        ∙ sym (follows k)
        ∙ w) in
      elim owner [
        | inl server ↦ inl (server ∙ ap some same_fd)
        | inr (l, found, own) ↦ inr (
          l,
          sym (ap (λ j. find j m.manager) same_fd) ∙ found,
          sym same_signal ∙ ap some (sym own),
        )
      ]
  | inr q ↦
      old k f s (λ e. cc ((==_iff fd k).1 e))
        (sym (ap (λ b. if b then some (g, some signal) else watched n.poller k) q)
          ∙ sym (follows k)
          ∙ w)
]
  where
    same_second :
        (a b : Flags) (s t : Option ℕ)
        → ◌≡◌ {A = Option (Flags × Option ℕ)} (some (a, s)) (some (b, t))
        → s ≡ t
    same_second a b s t e = cc
