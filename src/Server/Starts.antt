-- ===== src/Server/Starts.antt =====
-- When the socket of the server (Server::start of src/server.cpp) listens.
use build_your_own_redis.Prelude.{
  ℕ, zero, suc, ◌+◌, ◌≤◌, ◌<◌, ◌≡◌, ◌↔◌, refl, sym, ap, ◌∙◌, Option, none, some, ◌++◌, [], ◌∷◌,
  arith, ◌==◌, ==_iff, inl, inr, Bool-cases, Option-cases,
}
use build_your_own_redis.Text.{Bytes}
use build_your_own_redis.Server.Acceptor.{
  after_try, Acceptor, done, StartCalls, max_tries, bind_loop, start, new_server_fd,
}

module _ (strerror : ℕ → Bytes) (eaddrinuse : ℕ) where
  -- Of these tries one succeeds, and before it the address was in use.
  abbrev pub Binds : ℕ → ℕ → (ℕ → Option ℕ) → Type 0
  Binds tries left bind_errno =
      (k : ℕ) × (tries ≤ k)
      × (k < tries + left)
      × (bind_errno k ≡ none)
      × ((j : ℕ) → tries ≤ j → j < k → bind_errno j ≡ some eaddrinuse)

  bind_loop-Binds :
      (left tries errno : ℕ) (bind_errno : ℕ → Option ℕ)
      → bind_loop strerror eaddrinuse left tries errno bind_errno ≡ none
      → Binds tries left bind_errno
  unfolding bind_loop
  bind_loop-Binds zero tries errno bind_errno e = cc
  bind_loop-Binds (suc left) tries errno bind_errno e =
      by_try (bind_errno tries) refl e (λ x. bind_loop-Binds left (suc tries) x bind_errno)
    where
      rest : ℕ → Option ℕ
      rest x = bind_loop strerror eaddrinuse left (suc tries) x bind_errno

      later :
          bind_errno tries ≡ some eaddrinuse
          → Binds (suc tries) left bind_errno
          → Binds tries (suc left) bind_errno
      later failed (k, le, lt, found, before) = (
        k,
        omega arith,
        omega arith,
        found,
        λ j low high. elim (Bool-cases (j == tries)) [
          | inl q ↦ ap bind_errno ((==_iff j tries).0 q) ∙ failed
          | inr q ↦ before j (ground arith) high
        ],
      )

      by_try :
          (o : Option ℕ)
          → bind_errno tries ≡ o
          → after_try strerror eaddrinuse rest o ≡ none
          → ((x : ℕ) → rest x ≡ none → Binds (suc tries) left bind_errno)
          → Binds tries (suc left) bind_errno
      by_try none f g again =
          (tries, omega arith, omega arith, f, λ j low high. absurd (omega arith))
      by_try (some x) f g again = elim (Bool-cases (x == eaddrinuse)) [
        | inl q ↦ later (f ∙ ap some ((==_iff x eaddrinuse).0 q)) (again x (rw q at g))
        | inr q ↦ let never : some x ≡ none = rw q at g in cc
      ]

  Binds-bind_loop :
      (left tries errno : ℕ) (bind_errno : ℕ → Option ℕ)
      → Binds tries left bind_errno
      → bind_loop strerror eaddrinuse left tries errno bind_errno ≡ none
  unfolding bind_loop
  Binds-bind_loop zero tries errno bind_errno (k, le, lt, e, before) = absurd (omega arith)
  Binds-bind_loop (suc left) tries errno bind_errno (k, le, lt, e, before) =
      elim (Bool-cases (k == tries)) [
        | inl q ↦ rw (ap bind_errno (sym ((==_iff k tries).0 q)) ∙ e) refl
        | inr q ↦
            rw (before tries (omega arith) (ground arith), (==_iff eaddrinuse eaddrinuse).1 refl)
              (Binds-bind_loop left (suc tries) eaddrinuse bind_errno
                (k, ground arith, omega arith, e, λ j low high. before j (omega arith) high))
      ]

  bind_loop_iff :
      (bind_errno : ℕ → Option ℕ)
      → (bind_loop strerror eaddrinuse max_tries 0 0 bind_errno ≡ none)
        ↔ Binds 0 max_tries bind_errno
  bind_loop_iff bind_errno =
      (bind_loop-Binds max_tries 0 0 bind_errno, Binds-bind_loop max_tries 0 0 bind_errno)

  -- The server starts, which tells the poller of a new descriptor, exactly where the system gives a
  -- socket, takes its option, lets it listen, and one of the first eight tries to bind it succeeds
  -- after tries that all found the address in use.
  pub start-done_iff :
      (calls : StartCalls) (a : Acceptor)
      → ((fd : ℕ) × (start strerror eaddrinuse calls a
            ≡ done
                (record a { server_fd = some fd; emitted = a.emitted ++ new_server_fd fd ∷ [] })))
        ↔ (((fd : ℕ) × (calls.socket ≡ some fd))
            × (calls.setsockopt_errno ≡ none)
            × (calls.listen_errno ≡ none)
            × Binds 0 8 calls.bind_errno)
  unfolding start
  start-done_iff calls a =
      (listens, λ ((fd, s), o, l, b). (fd, rw (s, o, (bind_loop_iff calls.bind_errno).1 b, l) refl))
    where
      Listens : Type 0
      Listens =
          ((fd : ℕ) × (calls.socket ≡ some fd))
          × (calls.setsockopt_errno ≡ none)
          × (calls.listen_errno ≡ none)
          × Binds 0 8 calls.bind_errno

      listens :
          ((fd : ℕ) × (start strerror eaddrinuse calls a
              ≡ done
                  (record a { server_fd = some fd; emitted = a.emitted ++ new_server_fd fd ∷ [] })))
          → Listens
      listens (fd, e) = elim (Option-cases calls.socket) [
        | inl s ↦ cc (rw s at e)
        | inr (x, s) ↦ elim (Option-cases calls.setsockopt_errno) [
          | inr (y, o) ↦ cc (rw (s, o) at e)
          | inl o ↦
              elim (Option-cases (bind_loop strerror eaddrinuse max_tries 0 0 calls.bind_errno)) [
                | inr (z, b) ↦ cc (rw (s, o, b) at e)
                | inl b ↦ elim (Option-cases calls.listen_errno) [
                  | inr (u, l) ↦ cc (rw (s, o, b, l) at e)
                  | inl l ↦ ((x, s), o, l, (bind_loop_iff calls.bind_errno).0 b)
                ]
              ]
        ]
      ]
