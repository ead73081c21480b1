-- ===== src/Middleware/EarlyAck.antt =====
-- An acknowledgement of too few bytes in WaitHandle::update_replica_ack of
-- src/storage_middleware.cpp.
use build_your_own_redis.Prelude.{
  ℕ, ◌<◌, ◌≡◌, refl, none, some, List, [], ◌∷◌, ◌==◌, lt→ltb, Bool-cases, inl, inr,
}
use build_your_own_redis.Middleware.Replicas.{WaitHandle}
use build_your_own_redis.Middleware.WaitList.{goes_on, update_replica_ack, find_ack, erase_ack}

find_ack-erase_ack : (id : ℕ) (l : List (ℕ × ℕ)) → find_ack id (erase_ack id l) ≡ none
unfolding find_ack erase_ack
find_ack-erase_ack id [] = refl
find_ack-erase_ack id ((j, n) ∷ l) = elim (Bool-cases (j == id)) [
  | inl e ↦ rw e (find_ack-erase_ack id l)
  | inr e ↦ rw (e, e) (find_ack-erase_ack id l)
]

-- A wait after the too early acknowledgement of a replica: the replica is off its list.
abbrev pub without : ℕ → WaitHandle → WaitHandle
without id w = record w { replica_ack_waitlist = erase_ack id w.replica_ack_waitlist }

-- A replica that acknowledges fewer bytes than a WAIT asks of it is taken off the list of the WAIT
-- all the same: from then on no acknowledgement of that replica, however large, counts for the WAIT.
pub early_ack_lost :
    (id early late expected : ℕ) (w : WaitHandle)
    → find_ack id w.replica_ack_waitlist ≡ some expected
    → early < expected
    → (update_replica_ack id early w ≡ goes_on (without id w))
      × (update_replica_ack id late (without id w) ≡ goes_on (without id w))
unfolding update_replica_ack
early_ack_lost id early late expected w e h = (
  rw (e, update_replica_ack, lt→ltb early expected h) refl,
  rw (find_ack-erase_ack id w.replica_ack_waitlist, update_replica_ack) refl,
)
