-- ===== src/EventLoop/Handles.antt =====
-- EventLoop::JobHandle of src/events.h: who holds a job keeps it valid.
use build_your_own_redis.Prelude.{
  ℕ, ◌≡◌, ◌≢◌, refl, Bool, true, false, ◌||◌, Option, none, some, List, ◌==◌, ==_iff, arith,
  if◌then◌else◌,
}
use build_your_own_redis.EventLoop.{Request, invalidates, Loop, holds, request, call}

-- `job` is the weak pointer, none where it is empty.
pub record JobHandle : Type 0 where
  pub job : Option ℕ
  pub do_invalidate : Bool

abbrev pub no_handle : JobHandle
no_handle = record { job = none; do_invalidate = true }

-- JobHandle(const JobWrapperPtr&), what the functions of the loop return
unfoldable pub handle_of : ℕ → JobHandle
handle_of j = record { job = some j; do_invalidate = true }

-- JobHandle(JobHandle&&): the new handle, and what is left of the old one
unfoldable pub move : JobHandle → JobHandle × JobHandle
move h = (h, record h { job = none })

-- JobHandle::forget
unfoldable pub forget : JobHandle → JobHandle
forget h = record h { do_invalidate = false }

-- JobHandle::invalidate, as a call on the loop
unfoldable pub invalidate : JobHandle → Option Request
invalidate h =
    if h.do_invalidate then elim h.job [ none ↦ none | some j ↦ some (invalidates j) ] else none

module _ {S : Type 0} (act : ℕ → S → S × List Request) (clock : ℕ → ℕ) where
  -- The destructor
  unfoldable pub destroy : JobHandle → Loop S → Loop S
  unfolding invalidate request
  destroy h l = elim (invalidate h) [ none ↦ l | some r ↦ request act clock r l ]

  -- When the handle of a job is destroyed the job is no longer run when its turn comes, and every other
  -- job still is or is not; a handle that was moved from or told to forget changes nothing.
  pub call-destroy :
      (j k : ℕ) (l : Loop S)
      → (call act clock j (destroy (handle_of j) l) ≡ destroy (handle_of j) l)
        × (k ≢ j → holds k (destroy (handle_of j) l).invalid ≡ holds k l.invalid)
        × (destroy (forget (handle_of j)) l ≡ l)
        × (destroy (move (handle_of j)).1 l ≡ l)
        × ((move (handle_of j)).0 ≡ handle_of j)
  unfolding call destroy invalidate request handle_of forget move
  call-destroy j k l =
      (rw ((==_iff j j).1 refl) refl, λ ne. other ne (holds k l.invalid), refl, refl, refl)
    where
      other : k ≢ j → (b : Bool) → (j == k || b) ≡ b
      other ne b = ground arith
