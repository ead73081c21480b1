-- ===== src/Command/Parse/Streams.antt =====
-- The try_parse of XADD, XRANGE and XREAD (src/command_storage.cpp).
use build_your_own_redis.Prelude.{
  ℕ, zero, suc, ◌/◌, String, Option, none, some, List, [], ◌∷◌, ◌++◌, ltb, if◌then◌else◌, length,
}
use build_your_own_redis.Text.{Bytes, text, same, to_lower_case}
use build_your_own_redis.Text.Decimal.{parse_uint64}
use build_your_own_redis.Outcome.{Outcome, ok, err, ◌>>=◌}
use build_your_own_redis.Message.{Message}
use build_your_own_redis.Stream.Id.{
  ReadStreamId, input_from_string, bound_from_string, read_from_string,
}
use build_your_own_redis.Stream.Value.{StreamPartValue}
use build_your_own_redis.Storage.Keyspace.{StreamsReadRequest}
use build_your_own_redis.Command.{Command, xadd, xrange, xread}
use build_your_own_redis.Command.Parse.Texts.{fail, bulk_or}

-- The pairs of XADD.
unfoldable pub parse_pairs : List Message → Outcome StreamPartValue
parse_pairs [] = ok []
parse_pairs (a ∷ []) = fail "expected pairs of values"
parse_pairs (a ∷ b ∷ rest) = bulk_or "pair key has invalid type" a >>= λ k.
    bulk_or "pair value has invalid type" b >>= λ v. parse_pairs rest >>= λ more. ok ((k, v) ∷ more)

unfoldable pub parse_xadd : List Message → Outcome Command
unfolding parse_pairs
parse_xadd (k ∷ i ∷ a ∷ b ∷ rest) = do
  key ← bulk_or "stream_key has invalid type" k
  s ← bulk_or "stream_id has invalid type" i
  stream_id ← input_from_string s
  values ← parse_pairs (a ∷ b ∷ rest)
  ok (xadd key stream_id values)
parse_xadd _ = fail "XADD expects at least 4 arguments"

unfoldable pub parse_xrange : List Message → Outcome Command
parse_xrange (k ∷ l ∷ r ∷ []) = do
  key ← bulk_or "stream_key has invalid type" k
  s ← bulk_or "left_stream_id has invalid type" l
  left_id ← bound_from_string s
  t ← bulk_or "right_stream_id has invalid type" r
  right_id ← bound_from_string t
  ok (xrange key left_id right_id)
parse_xrange _ = fail "XRANGE expects 3 arguments"

-- The keys of XREAD, `n` of them, then as many identifiers, then nothing.
unfoldable pub parse_ids : ℕ → List Message → Outcome (List ReadStreamId)
parse_ids zero [] = ok []
parse_ids zero (m ∷ rest) = fail "unxepected arg after streams"
parse_ids (suc n) [] = ok []
parse_ids (suc n) (m ∷ rest) = bulk_or "stream_id has invalid type" m >>= λ s.
    read_from_string s >>= λ i. parse_ids n rest >>= λ is. ok (i ∷ is)

unfoldable pub pair_up : List Bytes → List ReadStreamId → StreamsReadRequest
pair_up (k ∷ ks) (i ∷ is) = (k, i) ∷ pair_up ks is
pair_up _ _ = []

unfoldable pub parse_streams :
    ℕ → ℕ → List Bytes → List Message → Outcome (List Bytes × List ReadStreamId)
unfolding parse_ids
parse_streams zero n ks rest = do is ← parse_ids n rest; ok (ks, is)
parse_streams (suc m) n ks [] = ok (ks, [])
parse_streams (suc m) n ks (k ∷ rest) =
    bulk_or "stream_key has invalid type" k >>= λ key. parse_streams m n (ks ++ key ∷ []) rest

unfoldable pub number_or : String → Bytes → Outcome ℕ
number_or reason s = elim (parse_uint64 s) [ none ↦ fail reason | some n ↦ ok n ]

unfoldable pub parse_rest : Option ℕ → List Message → Outcome Command
unfolding parse_streams pair_up
parse_rest block_ms rest =
    if ltb (length rest) 2
    then fail "XREAD expects at least one full pair of key and id for streams"
    else do
      (ks, is) ← parse_streams (length rest / 2) (length rest / 2) [] rest
      ok (xread (pair_up ks is) block_ms)

unfoldable pub block_value : Message → Outcome ℕ
block_value n = do
  t ← bulk_or "XREAD block must have argument with type BulkString" n
  number_or "XREAD block must have argument as number" t

-- The options of XREAD, up to `streams`.
unfoldable pub parse_options : Option ℕ → List Message → Outcome Command
unfolding block_value
parse_options block_ms [] = ok (xread [] block_ms)
parse_options block_ms (m ∷ []) = bulk_or "expected bulk string for arg" m >>= λ s.
    if same (to_lower_case s) (text "streams")
    then parse_rest block_ms []
    else if same (to_lower_case s) (text "block")
    then fail "XREAD expects an argument after block"
    else err (text "unexpected arg for XREAD: " ++ to_lower_case s)
parse_options block_ms (m ∷ n ∷ rest) = bulk_or "expected bulk string for arg" m >>= λ s.
    if same (to_lower_case s) (text "streams")
    then parse_rest block_ms (n ∷ rest)
    else if same (to_lower_case s) (text "block")
    then (block_value n >>= λ ms. parse_options (some ms) rest)
    else err (text "unexpected arg for XREAD: " ++ to_lower_case s)

unfoldable pub parse_xread : List Message → Outcome Command
unfolding parse_options
parse_xread args =
    if ltb (length args) 3
    then fail "XREAD expects at least 3 arguments"
    else parse_options none args
