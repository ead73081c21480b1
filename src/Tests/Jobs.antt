-- ===== src/Tests/Jobs.antt =====
-- The event loop at concrete inputs.
use build_your_own_redis.Prelude.{
  ℕ, ◌==◌, if◌then◌else◌, ◌+◌, ◌*◌, ◌≡◌, refl, true, false, some, List, [], ◌∷◌, arith,
}
use build_your_own_redis.EventLoop.{
  Request, posts, sets_timeout, invalidates, Loop, holds, turns, round,
}
use build_your_own_redis.EventLoop.Turns.{Served, serve, turns-serve}

-- Job 1 posts job 3 and makes job 2 invalid, job 4 sets a timeout; the others do nothing.
abbrev requests : ℕ → List Request
requests j =
    if j == 1 then posts 3 ∷ invalidates 2 ∷ [] else if j == 4 then sets_timeout 1 5 ∷ [] else []

abbrev act : ℕ → ℕ → ℕ × List Request
act j n = (n + j, requests j)

abbrev clock : ℕ → ℕ
clock n = n * 2_000_000

abbrev loop : Loop ℕ
loop = record {
  world = 0;
  onetime_jobs = 1 ∷ 2 ∷ 4 ∷ [];
  repeated_jobs = 7 ∷ [];
  timeout_jobs = [];
  events = [];
  invalid = [];
  ticks = 0;
}

abbrev meant : Served ℕ
meant = serve act (1 ∷ 2 ∷ []) (record { world = 0; invalid = []; posted = []; ran = [] })

turns-serve_example :
    ((turns act clock 2 loop).world ≡ meant.world)
    × ((turns act clock 2 loop).invalid ≡ meant.invalid)
    × ((turns act clock 2 loop).onetime_jobs ≡ 4 ∷ meant.posted)
    × ((j : ℕ)
        → holds j (1 ∷ 2 ∷ []) ≡ true
        → holds j (turns act clock 2 loop).invalid ≡ false
        → holds j meant.ran ≡ true)
turns-serve_example = turns-serve act clock 2 loop (omega arith)

-- Job 2 is skipped, and job 3 waits behind the others.
meant_of_two : meant ≡ record { world = 1; invalid = 2 ∷ []; posted = 3 ∷ []; ran = 1 ∷ [] }
unfolding serve
meant_of_two = refl

-- A round: the jobs 1, 4, 3, 7 and, as its time has come when the list is looked at, 5
one_round :
    round act clock 0 10 loop
    ≡ some (record loop { world = 20; onetime_jobs = []; invalid = 2 ∷ []; ticks = 2 })
unfolding round
one_round = refl
