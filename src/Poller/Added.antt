-- ===== src/Poller/Added.antt =====
-- What ::poll is to be asked about by a poller (src/poller.cpp), read off the calls of its slots.
use mathlib.Core.Path.{subst}
use build_your_own_redis.Prelude.{
  ℕ, ◌≡◌, ◌≢◌, ◌↔◌, ◌⊎◌, refl, sym, ap, ◌∙◌, inl, inr, Bool, true, false, ◌||◌, Option, none, some,
  List, [], ◌∷◌, ◌==◌, if◌then◌else◌, get_elem?,
}
use build_your_own_redis.Descriptors.{minus_one}
use build_your_own_redis.Poller.{PollEventTypeList, Flags, PollFd, flags_of, Request, adds, removes}
use build_your_own_redis.Poller.Asks.{Watch, AsksFor}

-- The last call that added a descriptor, where it was not removed since: what the uninitialised variable
-- held, the types of events, and the signal
abbrev pub Added : Type 0
Added = Flags × PollEventTypeList × ℕ

unfoldable pub last_added : List Request → (ℕ → Option Added) → ℕ → Option Added
last_added [] w k = w k
last_added (adds garbage fd types signal ∷ rs) w k =
    last_added rs (λ j. if fd == j then some (garbage, types, signal) else w j) k
last_added (removes fd ∷ rs) w k = last_added rs (λ j. if fd == j then none else w j) k

-- Reading is asked for where the types have it or the uninitialised variable held its bit, writing likewise,
-- and the other bits are those that the variable held.
abbrev Means : Flags → Added → Type 0
Means f (garbage, types, signal) =
    ((f.pollin ≡ true) ↔ ((types.has_ready_to_read ≡ true) ⊎ (garbage.pollin ≡ true)))
    × ((f.pollout ≡ true) ↔ ((types.has_ready_to_write ≡ true) ⊎ (garbage.pollout ≡ true)))
    × (f.others ≡ garbage.others)

bit-Means : (a b : Bool) → ((a || b) ≡ true) ↔ ((a ≡ true) ⊎ (b ≡ true))
bit-Means true b = (λ e. inl refl, λ x. refl)
bit-Means false b = (λ e. inr e, λ x. elim x [ inl e ↦ cc | inr e ↦ e ])

bits-eq : (a b : Bool) → (a ≡ true → b ≡ true) → (b ≡ true → a ≡ true) → a ≡ b
bits-eq true b f g = sym (f refl)
bits-eq false true f g = g refl
bits-eq false false f g = refl

flags_of-Means :
    (garbage : Flags) (types : PollEventTypeList) (signal : ℕ)
    → Means (flags_of garbage types) (garbage, types, signal)
flags_of-Means garbage types signal = (
  bit-Means types.has_ready_to_read garbage.pollin,
  bit-Means types.has_ready_to_write garbage.pollout,
  refl,
)

Means-flags_of :
    (f garbage : Flags) (types : PollEventTypeList) (signal : ℕ)
    → Means f (garbage, types, signal)
    → flags_of garbage types ≡ f
Means-flags_of f garbage types signal (i, o, n) =
    let r =
      bits-eq (types.has_ready_to_read || garbage.pollin) f.pollin
        (λ e. i.1 ((bit-Means types.has_ready_to_read garbage.pollin).0 e))
        (λ e. (bit-Means types.has_ready_to_read garbage.pollin).1 (i.0 e)) in
    let w =
      bits-eq (types.has_ready_to_write || garbage.pollout) f.pollout
        (λ e. o.1 ((bit-Means types.has_ready_to_write garbage.pollout).0 e))
        (λ e. (bit-Means types.has_ready_to_write garbage.pollout).1 (o.0 e)) in
    rw (r, w, sym n) refl

abbrev pub flags_added : Option Added → Option (Flags × Option ℕ)
flags_added none = none
flags_added (some (garbage, types, signal)) = some (flags_of garbage types, some signal)

pub if-flags_added :
    (b : Bool) (a z : Option Added) (y : Option (Flags × Option ℕ))
    → y ≡ flags_added z
    → (if b then flags_added a else y) ≡ flags_added (if b then a else z)
if-flags_added true a z y e = refl
if-flags_added false a z y e = e

-- ::poll is asked about a descriptor exactly where its last add stands, for what this add means, and about no
-- descriptor twice.
abbrev pub AsksAdded : List PollFd → (ℕ → Option Added) → Type 0
AsksAdded fds w =
    ((k : ℕ) (f : Flags)
      → k ≢ minus_one
      → ((i : ℕ) × (get_elem? fds i ≡ some (record { fd = k; events = f })))
        ↔ ((a : Added) × (w k ≡ some a) × Means f a))
    × ((i j : ℕ) (e g : PollFd)
        → get_elem? fds i ≡ some e
        → get_elem? fds j ≡ some g
        → e.fd ≢ minus_one
        → e.fd ≡ g.fd
        → i ≡ j)

added-of :
    (o : Option Added) (f : Flags) (s : ℕ)
    → flags_added o ≡ some (f, some s)
    → (a : Added) × (o ≡ some a) × Means f a
added-of none f s e = cc
added-of (some (garbage, types, signal)) f s e =
    let same_flags : flags_of garbage types ≡ f = flags_eq _ f _ (some s) e in
    (
      (garbage, types, signal),
      refl,
      subst (λ g. Means g (garbage, types, signal)) same_flags
          (flags_of-Means garbage types signal),
    )
  where
    flags_eq :
        (a b : Flags) (s t : Option ℕ)
        → ◌≡◌ {A = Option (Flags × Option ℕ)} (some (a, s)) (some (b, t))
        → a ≡ b
    flags_eq a b s t e = cc

pub AsksFor-AsksAdded :
    (fds : List PollFd) (x : Watch) (w : ℕ → Option Added)
    → ((k : ℕ) → x k ≡ flags_added (w k))
    → AsksFor fds x
    → AsksAdded fds w
AsksFor-AsksAdded fds x w h a = (
  λ k f real. (
    λ e. let (s, g) = (a.0 k f real).0 e in added-of (w k) f s (sym (h k) ∙ g),
    λ ((garbage, types, signal), g, m). (a.0 k f real).1 (
      signal,
      h k
          ∙ ap flags_added g
          ∙ ap (λ z. some (z, some signal)) (Means-flags_of f garbage types signal m),
    ),
  ),
  a.1,
)
