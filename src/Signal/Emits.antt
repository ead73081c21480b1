-- ===== src/Signal/Emits.antt =====
-- What is called by an emission (src/signal_slot.h).
use mathlib.Core.Path.{subst}
use build_your_own_redis.Prelude.{
  ℕ, zero, suc, ◌≤◌, ◌<◌, ◌≡◌, refl, sym, ap, ◌∙◌, true, false, List, [], ◌∷◌, ◌++◌, arith, All,
  ◌==◌, ==_iff, Bool-cases, inl, inr, All-append,
}
use build_your_own_redis.Signal.{
  Connected, slot_pointer, signal_pointer, function, Signals, call_one, call_each, emit, connect,
  connect_all,
}

-- What is to be called for a list of connections, in its order: the functions, the slots that are alive,
-- and, in the place of a signal that is alive, what is to be called for its own connections.
pub data Reaches (g : Signals) : List Connected → List ℕ → Type 0 where
  no_more : Reaches g [] []
  live_slot :
      {k : ℕ} {cs : List Connected} {ks : List ℕ}
      → g.slot_alive k ≡ true
      → Reaches g cs ks
      → Reaches g (slot_pointer k ∷ cs) (k ∷ ks)
  dead_slot :
      {k : ℕ} {cs : List Connected} {ks : List ℕ}
      → g.slot_alive k ≡ false
      → Reaches g cs ks
      → Reaches g (slot_pointer k ∷ cs) ks
  live_signal :
      {k : ℕ} {cs : List Connected} {js ks : List ℕ}
      → g.signal_alive k ≡ true
      → Reaches g (g.slots k) js
      → Reaches g cs ks
      → Reaches g (signal_pointer k ∷ cs) (js ++ ks)
  dead_signal :
      {k : ℕ} {cs : List Connected} {ks : List ℕ}
      → g.signal_alive k ≡ false
      → Reaches g cs ks
      → Reaches g (signal_pointer k ∷ cs) ks
  its_function :
      {k : ℕ} {cs : List Connected} {ks : List ℕ}
      → Reaches g cs ks
      → Reaches g (function k ∷ cs) (k ∷ ks)

-- A signal is connected to signals of a smaller rank, so no signal reaches itself.
abbrev pub Below : (ℕ → ℕ) → ℕ → Connected → Type 0
Below rank n (slot_pointer k) = Unit
Below rank n (signal_pointer k) = rank k < n
Below rank n (function k) = Unit

-- A connection to a signal of smaller rank, or to a slot or a function, keeps this so.
connect-Below :
    (rank : ℕ → ℕ) (signal : ℕ) (c : Connected) (g : Signals)
    → Below rank (rank signal) c
    → ((k : ℕ) → All (Below rank (rank k)) (g.slots k))
    → (k : ℕ) → All (Below rank (rank k)) ((connect signal c g).slots k)
unfolding connect
connect-Below rank signal c g below falls k = elim (Bool-cases (k == signal)) [
  | inl q ↦
      let same_rank : rank signal ≡ rank k = ap rank (sym ((==_iff k signal).0 q)) in
      rw q (
        All-append (Below rank (rank k)) (g.slots k) (c ∷ []) (falls k)
          (subst (λ n. Below rank n c) same_rank below, tt))
  | inr q ↦ rw q (falls k)
]

pub connect_all-Below :
    (rank : ℕ → ℕ) (calls : List (ℕ × Connected)) (g : Signals)
    → All (λ (c : ℕ × Connected). Below rank (rank c.0) c.1) calls
    → ((k : ℕ) → All (Below rank (rank k)) (g.slots k))
    → (k : ℕ) → All (Below rank (rank k)) ((connect_all calls g).slots k)
unfolding connect_all
connect_all-Below rank [] g below falls = falls
connect_all-Below rank ((signal, c) ∷ rest) g below falls =
    connect_all-Below rank rest (connect signal c g) below.1
      (connect-Below rank signal c g below.0 falls)

module _ {S : Type 0} (call : ℕ → S → S) where
  unfoldable pub call_list : List ℕ → S → S
  call_list [] s = s
  call_list (k ∷ ks) s = call_list ks (call k s)

  call_list-append :
      (js ks : List ℕ) (s : S) → call_list (js ++ ks) s ≡ call_list ks (call_list js s)
  unfolding call_list
  call_list-append [] ks s = refl
  call_list-append (j ∷ js) ks s = call_list-append js ks (call j s)

  module _ (g : Signals) (rank : ℕ → ℕ)
      (falls : (k : ℕ) → All (Below rank (rank k)) (g.slots k)) where
    call_each-Reaches :
        {cs : List Connected} {ks : List ℕ} (n depth : ℕ) (s : S)
        → Reaches g cs ks
        → All (Below rank n) cs
        → n ≤ depth
        → call_each call g (emit call g depth) cs s ≡ call_list ks s
    unfolding call_each call_one call_list emit
    call_each-Reaches n depth s no_more b le = refl
    call_each-Reaches n depth s (live_slot {k} e r) b le =
        rw e (call_each-Reaches n depth (call k s) r b.1 le)
    call_each-Reaches n depth s (dead_slot e r) b le = rw e (call_each-Reaches n depth s r b.1 le)
    call_each-Reaches n zero s (live_signal e q r) b le = absurd (omega arith)
    call_each-Reaches n (suc depth) s (live_signal {k} {cs} {js} {ks} e q r) b le = rw e (
        call_each-Reaches n (suc depth) (emit call g (suc depth) k s) r b.1 le
        ∙ ap (call_list ks) (call_each-Reaches (rank k) depth s q (falls k) (omega arith))
        ∙ sym (call_list-append js ks s))
    call_each-Reaches n depth s (dead_signal e r) b le = rw e (call_each-Reaches n depth s r b.1 le)
    call_each-Reaches n depth s (its_function {k} r) b le =
        call_each-Reaches n depth (call k s) r b.1 le

    -- Where no signal is connected to itself through others, an emission calls just the functions and the
    -- slots that are alive and are connected to it, directly or through signals that are alive, each as
    -- often as it is connected and in the order of the connections.
    pub emit-Reaches :
        {ks : List ℕ} (depth signal : ℕ) (s : S)
        → Reaches g (g.slots signal) ks
        → rank signal < depth
        → emit call g depth signal s ≡ call_list ks s
    unfolding emit
    emit-Reaches zero signal s r lt = absurd (omega arith)
    emit-Reaches (suc depth) signal s r lt =
        call_each-Reaches (rank signal) depth s r (falls signal) (omega arith)
