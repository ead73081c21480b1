-- ===== src/EventLoop.antt =====
-- EventLoop of src/events.h and src/events.cpp: the queues of jobs, and one round of its endless loop.
-- A job is a number, which stands for the address of its JobWrapper.
pub mod Turns
pub mod Handles
use build_your_own_redis.Prelude.{
  ℕ, zero, suc, ◌+◌, ◌*◌, Bool, true, false, ◌||◌, Option, none, some, List, [], ◌∷◌, ◌++◌, ltb,
  leb, ◌==◌, if◌then◌else◌, length,
}

-- What a job calls on the loop while it runs; a handle that is destroyed or invalidated makes its job
-- invalid. An exception of a job is only logged, and what it did before stays.
pub data Request : Type 0 where
  posts repeats : ℕ → Request
  sets_timeout : ℕ → ℕ → Request
  invalidates : ℕ → Request
  queues_event : ℕ → Request

-- `invalid` are the jobs whose is_valid is false; `ticks` counts the calls of Clock::now.
pub record Loop (S : Type 0) : Type 0 where
  pub world : S
  pub onetime_jobs : List ℕ
  pub repeated_jobs : List ℕ
  pub timeout_jobs : List (ℕ × ℕ)
  pub events : List ℕ
  pub invalid : List ℕ
  pub ticks : ℕ

abbrev pub holds : ℕ → List ℕ → Bool
holds j [] = false
holds j (i ∷ is) = i == j || holds j is

module _ {S : Type 0} (act : ℕ → S → S × List Request) (clock : ℕ → ℕ) where
  -- EventLoop::post, EventLoop::repeat, EventLoop::set_timeout, JobHandle::invalidate
  unfoldable pub request : Request → Loop S → Loop S
  request (posts j) l = record l { onetime_jobs = l.onetime_jobs ++ j ∷ [] }
  request (repeats j) l = record l { repeated_jobs = l.repeated_jobs ++ j ∷ [] }
  request (sets_timeout ms j) l = record l {
    timeout_jobs = l.timeout_jobs ++ (clock l.ticks + ms * 1_000_000, j) ∷ [];
    ticks = suc l.ticks;
  }
  request (invalidates j) l = record l { invalid = j ∷ l.invalid }
  request (queues_event j) l = record l { events = l.events ++ j ∷ [] }

  unfoldable pub request_all : List Request → Loop S → Loop S
  unfolding request
  request_all [] l = l
  request_all (r ∷ rs) l = request_all rs (request r l)

  -- A function runs on the world.
  unfoldable pub run : ℕ → Loop S → Loop S
  unfolding request_all
  run j l = request_all (act j l.world).1 (record l { world = (act j l.world).0 })

  -- JobWrapper::call
  unfoldable pub call : ℕ → Loop S → Loop S
  unfolding run
  call j l = if holds j l.invalid then l else run j l

  -- A round of the loop over the jobs that run once
  unfoldable pub turn : Loop S → List ℕ → Loop S
  unfolding call
  turn l [] = l
  turn l (j ∷ js) = call j (record l { onetime_jobs = js })

  unfoldable pub turns : ℕ → Loop S → Loop S
  unfolding turn
  turns zero l = l
  turns (suc n) l = turns n (turn l l.onetime_jobs)

  -- The loop itself: it ends where the queue is empty, or `fuel` runs out.
  unfoldable pub onetime_phase : ℕ → Loop S → Option (Loop S)
  unfolding turn
  onetime_phase zero l = elim l.onetime_jobs [ [] ↦ some l | j ∷ js ↦ none ]
  onetime_phase (suc n) l = elim l.onetime_jobs [
    | [] ↦ some l
    | j ∷ js ↦ onetime_phase n (turn l (j ∷ js))
  ]

  -- The loop over the jobs that are repeated, from the position i on; a job may add others behind.
  abbrev pub nth : ℕ → List ℕ → Option ℕ
  nth i [] = none
  nth zero (j ∷ js) = some j
  nth (suc i) (j ∷ js) = nth i js

  unfoldable pub repeated_phase : ℕ → ℕ → Loop S → Option (Loop S)
  unfolding call
  repeated_phase zero i l = elim (nth i l.repeated_jobs) [ none ↦ some l | some j ↦ none ]
  repeated_phase (suc n) i l = elim (nth i l.repeated_jobs) [
    | none ↦ some l
    | some j ↦ repeated_phase n (suc i) (call j l)
  ]

  abbrev pub nth_timeout : ℕ → List (ℕ × ℕ) → Option (ℕ × ℕ)
  nth_timeout i [] = none
  nth_timeout zero (t ∷ ts) = some t
  nth_timeout (suc i) (t ∷ ts) = nth_timeout i ts

  abbrev pub erase_at : ℕ → List (ℕ × ℕ) → List (ℕ × ℕ)
  erase_at i [] = []
  erase_at zero (t ∷ ts) = ts
  erase_at (suc i) (t ∷ ts) = t ∷ erase_at i ts

  -- The loop over the timeouts, from the position i on: one that is due leaves the list and is called.
  unfoldable pub timeout_phase : ℕ → ℕ → Loop S → Option (Loop S)
  unfolding call
  timeout_phase zero i l = elim (nth_timeout i l.timeout_jobs) [ none ↦ some l | some t ↦ none ]
  timeout_phase (suc n) i l = elim (nth_timeout i l.timeout_jobs) [
    | none ↦ some l
    | some (fire_time, j) ↦
        let t = record l { ticks = suc l.ticks } in
        elim (leb fire_time (clock l.ticks)) [
          | true ↦
              timeout_phase n i (call j (record t { timeout_jobs = erase_at i l.timeout_jobs }))
          | false ↦ timeout_phase n (suc i) t
        ]
  ]

  -- The events that were there at the start, at most `max_unqueue_events` where this is not 0
  abbrev pub unqueue_size : ℕ → ℕ → ℕ
  unqueue_size max size = if max == 0 || ltb size max then size else max

  unfoldable pub event_phase : ℕ → Loop S → Loop S
  unfolding run
  event_phase zero l = l
  event_phase (suc n) l = elim l.events [
    | [] ↦ l
    | e ∷ es ↦ event_phase n (run e (record l { events = es }))
  ]

  abbrev pub next_phase : Option (Loop S) → (Loop S → Option (Loop S)) → Option (Loop S)
  next_phase none f = none
  next_phase (some l) f = f l

  -- One round of EventLoop::start; `fuel` bounds the jobs of each of its first three loops.
  unfoldable pub round : ℕ → ℕ → Loop S → Option (Loop S)
  unfolding onetime_phase repeated_phase timeout_phase event_phase
  round max fuel l = next_phase (onetime_phase fuel l) λ a.
      next_phase (repeated_phase fuel 0 a) λ b.
        next_phase (timeout_phase fuel 0 b)
          λ c. some (event_phase (unqueue_size max (length c.events)) c)
