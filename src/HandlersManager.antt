-- ===== src/HandlersManager.antt =====
-- HandlersManager of src/handlers_manager.h and src/handlers_manager.cpp: a handler for each connection.
use build_your_own_redis.Prelude.{ℕ, none, some}
use build_your_own_redis.Text.{text}
use build_your_own_redis.Outcome.{Outcome, ok, err}
use build_your_own_redis.Descriptors.{Table, find, assign, erase}

module _ {H : Type 0} (make : ℕ → H) where
  -- HandlersManager::add; `make` is the constructor of Handler with a new talker.
  unfoldable pub add : ℕ → Table H → Outcome (Table H)
  add fd handlers = elim (find fd handlers) [
    | some h ↦ err (text "Re-adding client fd to handlers manager is not allowed!")
    | none ↦ ok (assign fd (make fd) handlers)
  ]

-- HandlersManager::remove
unfoldable pub remove : {H : Type 0} → ℕ → Table H → Table H
remove fd handlers = erase fd handlers
