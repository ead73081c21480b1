-- ===== src/Command/Parse/Numbers.antt =====
-- WaitCommand::try_parse (src/command.cpp) and SetCommand::try_parse (src/command_storage.cpp).
use build_your_own_redis.Prelude.{
  ℕ, suc, String, ◌||◌, Option, none, some, List, [], ◌∷◌, ◌++◌, ◌==◌, if◌then◌else◌,
}
use build_your_own_redis.Text.{Bytes, text, same, to_lower_case}
use build_your_own_redis.Text.Decimal.{ℤ, pos, to_size, parse_int}
use build_your_own_redis.Outcome.{Outcome, ok, err, undefined, ◌>>=◌}
use build_your_own_redis.Message.{Message}
use build_your_own_redis.Command.{Command, set, wait}
use build_your_own_redis.Command.Parse.Texts.{fail, bulk_or, fail_size}

unfoldable pub int_or : String → Bytes → Outcome ℤ
int_or reason s = elim (parse_int s) [ none ↦ fail reason | some n ↦ ok n ]

unfoldable pub parse_timeout : ℤ → List Message → Outcome Command
parse_timeout replicas [] = undefined
parse_timeout replicas (n ∷ more) = do
  t ← bulk_or "WAIT command must have second argument with type BulkString" n
  timeout_ms ← int_or "WAIT command must have second argument as number" t
  ok (wait (to_size replicas) (to_size timeout_ms))

-- The array must not have four elements; an element that it does not have is read out of range.
unfoldable pub parse_wait : List Message → Outcome Command
unfolding parse_timeout
parse_wait (a ∷ b ∷ c ∷ []) = fail_size "WAIT command must have 2 arguments, recieved " 3
parse_wait [] = undefined
parse_wait (m ∷ rest) = do
  s ← bulk_or "WAIT command must have first argument with type BulkString" m
  replicas ← int_or "WAIT command must have first argument as number" s
  parse_timeout replicas rest

-- `std::quoted`
unfoldable pub escape : Bytes → Bytes
escape [] = []
escape (c ∷ s) = if c == 34 || c == 92 then 92 ∷ c ∷ escape s else c ∷ escape s

unfoldable pub quoted : Bytes → Bytes
unfolding escape
quoted s = 34 ∷ (escape s ++ 34 ∷ [])

-- The value of PX: an int above 0.
abbrev pub positive_int : Option ℤ → Outcome ℕ
positive_int (some (pos (suc n))) = ok (suc n)
positive_int _ = fail "invalid px argument value"

unfoldable pub px_value : Message → Outcome ℕ
px_value m = do v ← bulk_or "invalid px argument type" m; positive_int (parse_int v)

-- The parameters of SET behind the value. A later PX replaces an earlier one.
unfoldable pub parse_params : Option ℕ → List Message → Outcome (Option ℕ)
unfolding px_value
parse_params expire_ms [] = ok expire_ms
parse_params expire_ms (p ∷ []) = bulk_or "invalid type" p >>= λ s.
    if same (to_lower_case s) (text "px")
    then err (text "param " ++ (quoted (to_lower_case s) ++ text " requires argument"))
    else err (text "unknown param " ++ quoted (to_lower_case s))
parse_params expire_ms (p ∷ m ∷ rest) = bulk_or "invalid type" p >>= λ s.
    if same (to_lower_case s) (text "px")
    then (px_value m >>= λ n. parse_params (some n) rest)
    else err (text "unknown param " ++ quoted (to_lower_case s))

unfoldable pub parse_set : List Message → Outcome Command
unfolding parse_params
parse_set [] = fail "not enough arguments"
parse_set (k ∷ []) = do key ← bulk_or "invalid type" k; fail "not enough arguments"
parse_set (k ∷ v ∷ rest) = do
  key ← bulk_or "invalid type" k
  value ← bulk_or "invalid type" v
  expire_ms ← parse_params none rest
  ok (set key value expire_ms)
