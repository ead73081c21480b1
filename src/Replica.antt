-- ===== src/Replica.antt =====
-- Replica of src/replica.h and src/replica.cpp: the connection of a replica to its master. The results of
-- the calls of the system, and the texts of its errors, are arguments.
use build_your_own_redis.Prelude.{
  ℕ, ◌≡◌, ◌↔◌, ◌⊎◌, refl, ap, Bool, true, false, Option, none, some, ◌++◌, ◌==◌, inl, inr,
  Option-cases, Bool-cases, ==_iff,
}
use build_your_own_redis.Text.{Bytes, text}

-- What a replica holds: the descriptor of its connection, the list of addresses that getaddrinfo made and
-- that is to be freed, and whether it has a handler with a talker.
pub record Replica : Type 0 where
  pub master_fd : Option ℕ
  pub holds_addresses : Bool
  pub has_handler : Bool

abbrev pub no_replica : Replica
no_replica = record { master_fd = none; holds_addresses = false; has_handler = false }

-- The results of the calls of Replica::start: a code and the number of addresses, of which the first one
-- is used; a descriptor; and errno where ::connect fails.
pub record ConnectCalls : Type 0 where
  pub gai_result : ℕ
  pub addresses : ℕ
  pub socket : Option ℕ
  pub socket_errno : ℕ
  pub connect_errno : Option ℕ

-- Replica::start returns or throws.
pub data Started : Type 0 where
  running : Replica → Started
  threw_start : Bytes → Replica → Started

module _ (gai_strerror strerror : ℕ → Bytes) (master_host : Bytes) where
  abbrev connected : Option ℕ → Replica → Started
  connected none r = running (record r { holds_addresses = false; has_handler = true })
  connected (some e) r = threw_start (text "Cannot connect to master, error: " ++ strerror e) r

  abbrev with_socket : Option ℕ → ConnectCalls → Replica → Started
  with_socket none calls r =
      threw_start
        (text "Failed to create socket for connection to master, error: "
          ++ strerror calls.socket_errno)
        r
  with_socket (some fd) calls r = connected calls.connect_errno (record r { master_fd = some fd })

  -- Behind getaddrinfo: is the list of addresses empty?
  abbrev resolved : Bool → ConnectCalls → Replica → Started
  resolved true calls r =
      threw_start (text "Cannot find address for master host: " ++ master_host) r
  resolved false calls r = with_socket calls.socket calls (record r { holds_addresses = true })

  abbrev looked_up : Bool → ConnectCalls → Replica → Started
  looked_up false calls r =
      threw_start
        (text "Getaddrinfo for master host resulted in error: " ++ gai_strerror calls.gai_result) r
  looked_up true calls r = resolved (calls.addresses == 0) calls r

  -- Replica::start
  unfoldable pub start : ConnectCalls → Replica → Started
  start calls r = looked_up (calls.gai_result == 0) calls r

  -- The state that a start leaves
  abbrev pub left : Started → Replica
  left (running r) = r
  left (threw_start reason r) = r

  abbrev Connects : ConnectCalls → Type 0
  Connects calls =
      (calls.gai_result ≡ 0)
      × ((calls.addresses == 0) ≡ false)
      × ((fd : ℕ) × (calls.socket ≡ some fd))
      × (calls.connect_errno ≡ none)

  start-Connects :
      (calls : ConnectCalls)
      → Connects calls
      → start calls no_replica
        ≡ running (record { master_fd = calls.socket; holds_addresses = false; has_handler = true })
  unfolding start
  start-Connects calls (g, a, (fd, s), c) = rw ((==_iff calls.gai_result 0).1 g, a, s, c) refl

  connects :
      (calls : ConnectCalls) → (left (start calls no_replica)).has_handler ≡ true → Connects calls
  unfolding start
  connects calls e = elim (Bool-cases (calls.gai_result == 0)) [
    | inr g ↦ cc (rw g at e)
    | inl g ↦ elim (Bool-cases (calls.addresses == 0)) [
      | inl a ↦ cc (rw (g, a) at e)
      | inr a ↦ elim (Option-cases calls.socket) [
        | inl s ↦ cc (rw (g, a, s) at e)
        | inr (fd, s) ↦ elim (Option-cases calls.connect_errno) [
          | inr (x, c) ↦ cc (rw (g, a, s, c) at e)
          | inl c ↦ ((==_iff calls.gai_result 0).0 g, a, (fd, s), c)
        ]
      ]
    ]
  ]

  -- A replica gets a handler for its master exactly where every call of its start succeeds.
  pub start-Connects_iff :
      (calls : ConnectCalls) → ((left (start calls no_replica)).has_handler ≡ true) ↔ Connects calls
  start-Connects_iff calls =
      (connects calls, λ c. ap (λ x. (left x).has_handler) (start-Connects calls c))

  -- Where the socket cannot be made or the master is not reached, the replica is left with no handler, and
  -- the list of addresses that getaddrinfo made is never freed.
  pub start-leaks :
      (calls : ConnectCalls)
      → calls.gai_result ≡ 0
      → (calls.addresses == 0) ≡ false
      → (calls.socket ≡ none) ⊎ ((e : ℕ) × (calls.connect_errno ≡ some e))
      → ((left (start calls no_replica)).holds_addresses ≡ true)
        × ((left (start calls no_replica)).has_handler ≡ false)
  unfolding start
  start-leaks calls g a (inl s) = rw ((==_iff calls.gai_result 0).1 g, a, s) (refl, refl)
  start-leaks calls g a (inr (e, c)) = elim (Option-cases calls.socket) [
    | inl s ↦ rw ((==_iff calls.gai_result 0).1 g, a, s) (refl, refl)
    | inr (fd, s) ↦ rw ((==_iff calls.gai_result 0).1 g, a, s, c) (refl, refl)
  ]
