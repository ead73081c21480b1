-- ===== src/Talker/Server/Connection.antt =====
-- ServerTalker (src/server_talker.cpp) as the talker of a Handler (src/handler.cpp).
use build_your_own_redis.Prelude.{ℕ, false, List, [], ◌∷◌, ◌++◌, map, ◌==◌, if◌then◌else◌}
use build_your_own_redis.Message.{Message}
use build_your_own_redis.Handler.{Listened, listened, raised, lost, TalkerOps}
use build_your_own_redis.Talker.Server.{
  World, ServerTalker, Heard, heard, threw, undefined_there, Outside,
}
use build_your_own_redis.Talker.Server.Listen.{listen, interrupt}

-- The queue of a talker: what its slot was called with and is not said yet, and what the other slots
-- were called with
unfoldable pub queue_of : ℕ → List (ℕ × Message) → List Message
queue_of slot [] = []
queue_of slot ((s, m) ∷ sent) =
    let rest = queue_of slot sent in if s == slot then m ∷ rest else rest

unfoldable pub without_queue : ℕ → List (ℕ × Message) → List (ℕ × Message)
without_queue slot [] = []
without_queue slot ((s, m) ∷ sent) =
    let rest = without_queue slot sent in if s == slot then rest else (s, m) ∷ rest

abbrev pub listened_of : Heard → Listened (ServerTalker × World)
listened_of (heard t w) = listened (t, w)
listened_of (threw reason t w) = raised reason (t, w)
listened_of undefined_there = lost

unfoldable pub with_queue : ℕ → List Message → World → World
unfolding without_queue
with_queue slot ms w = record w {
  middleware = record w.middleware {
    sent = without_queue slot w.middleware.sent ++ map (λ m. (slot, m)) ms;
  };
}

-- The virtual functions of a ServerTalker, at a time; ServerTalker::expected is `Any`.
unfoldable pub server_ops : Outside → ℕ → TalkerOps (ServerTalker × World)
unfolding queue_of with_queue
server_ops outside now = record {
  listen = λ m p. listened_of (listen outside now m p.0 p.1);
  interrupt = λ p. interrupt p.0 p.1;
  expects_file = λ p. false;
  pending = λ p. queue_of p.0.slot p.1.middleware.sent;
  with_pending = λ ms p. (p.0, with_queue p.0.slot ms p.1);
}
