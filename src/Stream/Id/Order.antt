-- ===== src/Stream/Id/Order.antt =====
-- operator< of StreamId (src/storage.cpp).
use mathlib.Core.Logic.{◌↔◌}
use build_your_own_redis.Prelude.{◌≡◌, true, false, arith}
use build_your_own_redis.Stream.Id.{StreamId, eq_id, lt_id}

pub lt_id_irrefl : (i : StreamId) → lt_id i i ≡ false
lt_id_irrefl i = ground arith

pub lt_id_trans : (i j k : StreamId) → lt_id i j ≡ true → lt_id j k ≡ true → lt_id i k ≡ true
lt_id_trans i j k p q = ground arith

pub lt_id_asymm : (i j : StreamId) → lt_id i j ≡ true → lt_id j i ≡ false
lt_id_asymm i j p = ground arith

-- The map's own test for equal keys: neither is below the other.
pub eq_of_not_lt : (i j : StreamId) → lt_id i j ≡ false → lt_id j i ≡ false → i ≡ j
eq_of_not_lt i j p q = ground arith

pub eq_id_iff : (i j : StreamId) → (eq_id i j ≡ true) ↔ (i ≡ j)
eq_id_iff i j = ground arith
