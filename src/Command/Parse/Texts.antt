-- ===== src/Command/Parse/Texts.antt =====
-- The try_parse of the commands whose arguments are texts (src/command.cpp, src/command_storage.cpp).
use build_your_own_redis.Prelude.{ℕ, suc, String, List, [], ◌∷◌, ◌++◌, length}
use build_your_own_redis.Text.{Bytes, text, to_lower_case}
use build_your_own_redis.Text.Decimal.{decimal}
use build_your_own_redis.Outcome.{Outcome, ok, err, ◌>>=◌}
use build_your_own_redis.Message.{Message, bulk_string}
use build_your_own_redis.Command.{Command, echo, get, type, keys, info, replconf, psync, config}

abbrev pub fail {ℓ} : {A : Type ℓ} → String → Outcome A
fail reason = err (text reason)

-- The text of a BulkString; any other type throws.
abbrev pub bulk_or : String → Message → Outcome Bytes
bulk_or reason (bulk_string s) = ok s
bulk_or reason _ = fail reason

-- `reason` with the size of the array behind it
abbrev pub fail_size {ℓ} : {A : Type ℓ} → String → ℕ → Outcome A
fail_size reason n = err (text reason ++ decimal n)

unfoldable pub parse_echo : List Message → Outcome Command
parse_echo (m ∷ []) = do
  s ← bulk_or "ECHO command must have first argument with type BulkString" m
  ok (echo s)
parse_echo args = fail_size "ECHO command must have 1 argument, recieved " (suc (length args))

unfoldable pub parse_get : List Message → Outcome Command
parse_get [] = fail_size "GET command must have at least 1 argument, recieved " 1
parse_get (m ∷ rest) = do
  s ← bulk_or "GET command must have first argument with type BulkString" m
  ok (get s)

unfoldable pub parse_type : List Message → Outcome Command
parse_type [] = fail_size "TYPE command must have at least 1 argument, recieved " 1
parse_type (m ∷ rest) = do
  s ← bulk_or "TYPE command must have first argument with type BulkString" m
  ok (type s)

unfoldable pub parse_keys : List Message → Outcome Command
parse_keys [] = fail_size "KEYS command must have at least 1 argument, recieved " 1
parse_keys (m ∷ rest) = do
  s ← bulk_or "KEYS command must have first argument with type BulkString" m
  ok (keys s)

-- The loop that collects all arguments as texts.
unfoldable pub parse_texts : String → List Message → Outcome (List Bytes)
parse_texts reason [] = ok []
parse_texts reason (m ∷ rest) =
    bulk_or reason m >>= λ s. parse_texts reason rest >>= λ ss. ok (s ∷ ss)

unfoldable pub lower_all : List Bytes → List Bytes
lower_all [] = []
lower_all (s ∷ ss) = to_lower_case s ∷ lower_all ss

unfoldable pub parse_info : List Message → Outcome Command
unfolding parse_texts lower_all
parse_info args = do ss ← parse_texts "invalid type" args; ok (info (lower_all ss))

unfoldable pub parse_replconf : List Message → Outcome Command
unfolding parse_texts
parse_replconf args = do ss ← parse_texts "invalid type" args; ok (replconf ss)

unfoldable pub parse_psync : List Message → Outcome Command
unfolding parse_texts
parse_psync args = do ss ← parse_texts "invalid type" args; ok (psync ss)

unfoldable pub parse_config : List Message → Outcome Command
unfolding parse_texts
parse_config [] = ok (config [] [])
parse_config (m ∷ rest) = do
  action ← bulk_or "CONFIG command must have first argument with type BulkString" m
  ss ← parse_texts "CONFIG arguments should be BulkString" rest
  ok (config action ss)
