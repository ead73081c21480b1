-- ===== src/Talker.antt =====
-- The queue of src/talker.h and src/talker.cpp, and the talker of a replica
-- (src/replica_talker.cpp).
pub mod Replica
pub mod Server
pub mod Handshake
pub mod Replication
pub mod Pushes
pub mod Arrives
use build_your_own_redis.Prelude.{Option, none, some, List, [], ◌∷◌, ◌++◌}
use build_your_own_redis.Message.{Message}

-- Talker::say: the first pending message.
unfoldable pub say : List Message → List Message × Option Message
say [] = ([], none)
say (m ∷ pending) = (pending, some m)

-- Talker::next_say
unfoldable pub next_say : Message → List Message → List Message
next_say m pending = pending ++ m ∷ []
