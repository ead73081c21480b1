-- ===== src/Signal.antt =====
-- Signal and Slot of src/signal_slot.h, and the signals that src/main.cpp connects. What a slot does is an
-- argument; slots and signals are numbers, which stand for their addresses.
pub mod Emits
use build_your_own_redis.Prelude.{
  ℕ, zero, suc, Bool, true, false, Option, none, some, List, [], ◌∷◌, ◌++◌, ◌==◌, if◌then◌else◌,
}

-- What is connected to a signal: a slot or another signal, each through a weak pointer, or a function
-- that the signal holds itself.
pub data Connected : Type 0 where
  slot_pointer : ℕ → Connected
  signal_pointer : ℕ → Connected
  function : ℕ → Connected

-- Which slots and signals are alive, and what is connected to a signal, in order
pub record Signals : Type 0 where
  pub slot_alive : ℕ → Bool
  pub signal_alive : ℕ → Bool
  pub slots : ℕ → List Connected

-- Signal::connect
unfoldable pub connect : ℕ → Connected → Signals → Signals
connect signal c g = record g {
  slots = λ k. if k == signal then g.slots k ++ c ∷ [] else g.slots k;
}

-- Calls of connect, one after another
unfoldable pub connect_all : List (ℕ × Connected) → Signals → Signals
unfolding connect
connect_all [] g = g
connect_all ((signal, c) ∷ rest) g = connect_all rest (connect signal c g)

module _ {S : Type 0} (call : ℕ → S → S) (g : Signals) where
  -- SlotContainer::call
  unfoldable pub call_one : (ℕ → S → S) → Connected → S → S
  call_one emit_there (slot_pointer k) s = if g.slot_alive k then call k s else s
  call_one emit_there (signal_pointer k) s = if g.signal_alive k then emit_there k s else s
  call_one emit_there (function k) s = call k s

  unfoldable pub call_each : (ℕ → S → S) → List Connected → S → S
  unfolding call_one
  call_each emit_there [] s = s
  call_each emit_there (c ∷ cs) s = call_each emit_there cs (call_one emit_there c s)

  -- Signal::emit, with the depth of signals behind signals as fuel
  unfoldable pub emit : ℕ → ℕ → S → S
  unfolding call_each
  emit zero signal s = s
  emit (suc depth) signal s = call_each (emit depth) (g.slots signal) s
