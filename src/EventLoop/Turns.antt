-- ===== src/EventLoop/Turns.antt =====
-- The jobs that EventLoop (src/events.cpp) runs once, against what is meant: each in its turn, but those
-- that were made invalid before.
use build_your_own_redis.Prelude.{
  ℕ, zero, suc, ◌≤◌, ◌≡◌, refl, sym, ap, ◌∙◌, Bool, true, false, List, [], ◌∷◌, ◌++◌, append_assoc,
  append-nil, arith, length, take, drop, Bool-cases, inl, inr, ◌==◌, ==_iff, ◌⊎◌, ◌||◌,
  if◌then◌else◌,
}
use build_your_own_redis.EventLoop.{
  Request, posts, repeats, sets_timeout, invalidates, queues_event, Loop, holds, request,
  request_all, run, call, turn, turns,
}

-- The jobs that are posted by these calls, in order
unfoldable pub posted_by : List Request → List ℕ
posted_by [] = []
posted_by (posts j ∷ rs) = j ∷ posted_by rs
posted_by (r ∷ rs) = posted_by rs

-- The jobs that are invalid behind these calls, the last one first
unfoldable pub invalid_after : List Request → List ℕ → List ℕ
invalid_after [] is = is
invalid_after (invalidates j ∷ rs) is = invalid_after rs (j ∷ is)
invalid_after (r ∷ rs) is = invalid_after rs is

-- What is meant by a turn of each job of a list: the world, the jobs that are invalid, those that were
-- posted meanwhile, and those whose functions ran.
pub record Served (S : Type 0) : Type 0 where
  pub world : S
  pub invalid : List ℕ
  pub posted : List ℕ
  pub ran : List ℕ

module _ {S : Type 0} (act : ℕ → S → S × List Request) where
  abbrev pub one_ran : ℕ → Served S → Served S
  one_ran j s = record {
    world = (act j s.world).0;
    invalid = invalid_after (act j s.world).1 s.invalid;
    posted = s.posted ++ posted_by (act j s.world).1;
    ran = s.ran ++ j ∷ [];
  }

  unfoldable pub serve : List ℕ → Served S → Served S
  unfolding posted_by invalid_after
  serve [] s = s
  serve (j ∷ js) s = serve js (if holds j s.invalid then s else one_ran j s)

-- The state of the loop is what was meant, with this queue.
abbrev Is : {S : Type 0} → Loop S → Served S → List ℕ → Type 0
Is l s queue = (l.world ≡ s.world) × (l.invalid ≡ s.invalid) × (l.onetime_jobs ≡ queue ++ s.posted)

module _ {S : Type 0} (act : ℕ → S → S × List Request) (clock : ℕ → ℕ) where
  request_all-Is :
      (rs : List Request) (l : Loop S)
      → ((request_all act clock rs l).world ≡ l.world)
        × ((request_all act clock rs l).invalid ≡ invalid_after rs l.invalid)
        × ((request_all act clock rs l).onetime_jobs ≡ l.onetime_jobs ++ posted_by rs)
  unfolding request_all request posted_by invalid_after
  request_all-Is [] l = (refl, refl, sym (append-nil l.onetime_jobs))
  request_all-Is (posts j ∷ rs) l =
      let (w, v, q) = request_all-Is rs (request act clock (posts j) l) in
      (w, v, q ∙ append_assoc l.onetime_jobs (j ∷ []) (posted_by rs))
  request_all-Is (repeats j ∷ rs) l = request_all-Is rs (request act clock (repeats j) l)
  request_all-Is (sets_timeout ms j ∷ rs) l =
      request_all-Is rs (request act clock (sets_timeout ms j) l)
  request_all-Is (invalidates j ∷ rs) l = request_all-Is rs (request act clock (invalidates j) l)
  request_all-Is (queues_event j ∷ rs) l = request_all-Is rs (request act clock (queues_event j) l)

  call-Is :
      (j : ℕ) (l : Loop S) (s : Served S) (queue : List ℕ)
      → Is l s queue
      → Is (call act clock j l) (if holds j s.invalid then s else one_ran act j s) queue
  unfolding call run
  call-Is j l s queue (w, v, q) = elim (Bool-cases (holds j s.invalid)) [
    | inl e ↦ rw (ap (holds j) v ∙ e, e) (w, v, q)
    | inr e ↦
        let (w', v', q') =
          request_all-Is (act j l.world).1 (record l { world = (act j l.world).0 }) in
        rw (ap (holds j) v ∙ e, e)
          (
            w' ∙ ap (λ x. (act j x).0) w,
            v'
                ∙ ap (λ x. invalid_after (act j x).1 l.invalid) w
                ∙ ap (invalid_after (act j s.world).1) v,
            q'
                ∙ ap (λ x. x ++ posted_by (act j l.world).1) q
                ∙ append_assoc queue s.posted (posted_by (act j l.world).1)
                ∙ ap (λ x. queue ++ (s.posted ++ posted_by (act j x).1)) w,
          )
  ]

  turns-Is :
      (n : ℕ) (l : Loop S) (s : Served S) (queue : List ℕ)
      → n ≤ length queue
      → Is l s queue
      → Is (turns act clock n l) (serve act (take n queue) s) (drop n queue)
  unfolding turns turn serve
  turns-Is zero l s queue h i = i
  turns-Is (suc n) l s [] h i = absurd (omega arith)
  turns-Is (suc n) l s (j ∷ js) h (w, v, q) =
      let base = record l { onetime_jobs = js ++ s.posted } in
      rw q
        (turns-Is n (call act clock j base) _ js (omega arith) (call-Is j base s js (w, v, refl)))

holds-append : (j : ℕ) (is js : List ℕ) → holds j (is ++ js) ≡ (holds j is || holds j js)
holds-append j [] js = refl
holds-append j (i ∷ is) js = ground (arith, holds-append j is js)

holds-invalid_after :
    (j : ℕ) (rs : List Request) (is : List ℕ)
    → holds j is ≡ true
    → holds j (invalid_after rs is) ≡ true
unfolding invalid_after
holds-invalid_after j [] is h = h
holds-invalid_after j (posts i ∷ rs) is h = holds-invalid_after j rs is h
holds-invalid_after j (repeats i ∷ rs) is h = holds-invalid_after j rs is h
holds-invalid_after j (sets_timeout ms i ∷ rs) is h = holds-invalid_after j rs is h
holds-invalid_after j (invalidates i ∷ rs) is h = holds-invalid_after j rs (i ∷ is) (ground arith)
holds-invalid_after j (queues_event i ∷ rs) is h = holds-invalid_after j rs is h

module _ {S : Type 0} (act : ℕ → S → S × List Request) where
  -- Nothing that ran or is invalid is forgotten.
  serve-grows :
      (j : ℕ) (js : List ℕ) (s : Served S)
      → (holds j s.ran ≡ true → holds j (serve act js s).ran ≡ true)
        × (holds j s.invalid ≡ true → holds j (serve act js s).invalid ≡ true)
  unfolding serve
  serve-grows j [] s = (λ h. h, λ h. h)
  serve-grows j (i ∷ js) s = by_valid (holds i s.invalid) (serve-grows j js)
    where
      by_valid :
          (b : Bool)
          → ((t : Served S)
              → (holds j t.ran ≡ true → holds j (serve act js t).ran ≡ true)
                × (holds j t.invalid ≡ true → holds j (serve act js t).invalid ≡ true))
          → (holds j s.ran ≡ true
              → holds j (serve act js (if b then s else one_ran act i s)).ran ≡ true)
            × (holds j s.invalid ≡ true
                → holds j (serve act js (if b then s else one_ran act i s)).invalid ≡ true)
      by_valid true grows = grows s
      by_valid false grows =
          let (a, b) = grows (one_ran act i s) in
          (
            λ h. a (holds-append j s.ran (i ∷ []) ∙ ground arith),
            λ h. b (holds-invalid_after j (act i s.world).1 s.invalid h),
          )

  serve-ran :
      (j : ℕ) (js : List ℕ) (s : Served S)
      → holds j js ≡ true
      → holds j (serve act js s).invalid ≡ false
      → holds j (serve act js s).ran ≡ true
  unfolding serve
  serve-ran j [] s h v = cc
  serve-ran j (i ∷ js) s h v =
      by_valid (holds i s.invalid) refl v (serve-ran j js)
        (elim (Bool-cases (i == j)) [ inl e ↦ inl ((==_iff i j).0 e) | inr e ↦ inr (ground arith) ])
    where
      by_valid :
          (b : Bool)
          → holds i s.invalid ≡ b
          → holds j (serve act js (if b then s else one_ran act i s)).invalid ≡ false
          → ((t : Served S)
              → holds j js ≡ true
              → holds j (serve act js t).invalid ≡ false
              → holds j (serve act js t).ran ≡ true)
          → (i ≡ j) ⊎ (holds j js ≡ true)
          → holds j (serve act js (if b then s else one_ran act i s)).ran ≡ true
      by_valid b e f next (inr later) = next (if b then s else one_ran act i s) later f
      by_valid true e f next (inl now) =
          let invalid = (serve-grows j js s).1 (ap (λ k. holds k s.invalid) (sym now) ∙ e) in cc
      by_valid false e f next (inl now) =
          (serve-grows j js (one_ran act i s)).0
            (holds-append j s.ran (i ∷ []) ∙ ground (arith, (==_iff i j).1 now))

  -- After n turns, where so many jobs were waiting, the world, the jobs that are invalid and the jobs that
  -- wait are those that it takes to run the functions of the first n jobs, in the order in which they
  -- were posted, but for a job that was invalid when its turn came; behind the others that waited, just what
  -- was posted meanwhile waits, in order. So every posted job gets its turn after finitely many, and
  -- one of the first n that is still valid then has run, whatever the jobs do to the loop.
  pub turns-serve :
      (clock : ℕ → ℕ) (n : ℕ) (l : Loop S)
      → n ≤ length l.onetime_jobs
      → let s =
          serve act
            (take n l.onetime_jobs)
            (record { world = l.world; invalid = l.invalid; posted = []; ran = [] }) in
        ((turns act clock n l).world ≡ s.world)
        × ((turns act clock n l).invalid ≡ s.invalid)
        × ((turns act clock n l).onetime_jobs ≡ drop n l.onetime_jobs ++ s.posted)
        × ((j : ℕ)
            → holds j (take n l.onetime_jobs) ≡ true
            → holds j (turns act clock n l).invalid ≡ false
            → holds j s.ran ≡ true)
  turns-serve clock n l h =
      let s0 : Served S = record { world = l.world; invalid = l.invalid; posted = []; ran = [] } in
      let (w, v, q) =
        turns-Is act clock n l s0 l.onetime_jobs h (refl, refl, sym (append-nil l.onetime_jobs)) in
      (w, v, q, λ j waits valid. serve-ran j _ s0 waits (ap (holds j) (sym v) ∙ valid))
