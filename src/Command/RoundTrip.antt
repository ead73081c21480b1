-- ===== src/Command/RoundTrip.antt =====
-- try_parse on what construct builds (src/command.cpp, src/command_storage.cpp).
use build_your_own_redis.Prelude.{
  ℕ, zero, suc, ◌^◌, ◌<◌, ◌≡◌, refl, ap, ◌∙◌, true, false, Option, none, some, List, [], ◌∷◌, arith,
  String, Bool-cases, inl, inr, ◌≢◌, map,
}
use build_your_own_redis.Text.{Bytes, text, same, to_lower_case, to_upper_case}
use build_your_own_redis.Text.Decimal.{pos, u64_mod, to_size, decimal}
use build_your_own_redis.Text.Decimal.RoundTrip.{parse_uint64-decimal_self, parse_int-decimal_self}
use build_your_own_redis.Outcome.{Outcome, ok, err, undefined, ◌>>=◌}
use build_your_own_redis.Message.{bulk_string, to_list}
use build_your_own_redis.Stream.Id.{
  zero_id, InRange, BoundStreamId, ReadStreamId, bound_from_string, bound_to_string,
  read_from_string, read_to_string,
}
use build_your_own_redis.Stream.Id.RoundTrip.{
  IsCanonical, input_from_string-to_string, bound_from_string-to_string, read_from_string-to_string,
}
use build_your_own_redis.Stream.Value.{StreamPartValue}
use build_your_own_redis.Command.{
  Command, ping, echo, get, type, keys, set, info, replconf, psync, wait, config, xadd, xrange,
  xread,
}
use build_your_own_redis.Command.Parse.Texts.{
  parse_echo, parse_get, parse_type, parse_keys, parse_texts, lower_all, parse_info, parse_replconf,
  parse_psync, parse_config,
}
use build_your_own_redis.Command.Parse.Numbers.{parse_wait, parse_params, parse_set, int_or}
use build_your_own_redis.Command.Parse.Streams.{
  parse_pairs, parse_xadd, parse_xrange, parse_xread, parse_options, parse_rest, parse_streams,
  parse_ids, number_or,
}
use build_your_own_redis.Command.Parse.{dispatch, try_parse}
use build_your_own_redis.Command.Construct.{
  bulks, px_parts, pair_parts, block_parts, stream_parts, parts, construct,
}

to_list-bulks : (ss : List Bytes) → to_list (bulks ss) ≡ map bulk_string ss
unfolding to_list bulks
to_list-bulks [] = refl
to_list-bulks (s ∷ ss) = ap (λ t. bulk_string s ∷ t) (to_list-bulks ss)

-- Parsing a constructed command is the dispatch on its name.
try_parse-construct_lem :
    (c : Command) (name : Bytes) (args : List Bytes)
    → parts c ≡ name ∷ args
    → try_parse (construct c) ≡ dispatch (to_lower_case name) (map bulk_string args)
unfolding try_parse construct
try_parse-construct_lem c name args e = rw (to_list-bulks (parts c), e)

parse_params-px :
    (ms : ℕ)
    → 0 < ms
    → ms < 2 ^ 31
    → parse_params none (map bulk_string (px_parts (some ms))) ≡ ok (some ms)
unfolding parse_params px_parts to_lower_case same text
parse_params-px zero h fits = elim h [ ]
parse_params-px (suc ms) h fits = rw (parse_int-decimal_self (suc ms) fits)

parse_texts-bulks :
    (reason : String) (ss : List Bytes) → parse_texts reason (map bulk_string ss) ≡ ok ss
unfolding parse_texts
parse_texts-bulks reason [] = refl
parse_texts-bulks reason (s ∷ ss) = rw (parse_texts-bulks reason ss)

parse_pairs-bulks :
    (values : StreamPartValue) → parse_pairs (map bulk_string (pair_parts values)) ≡ ok values
unfolding parse_pairs pair_parts
parse_pairs-bulks [] = refl
parse_pairs-bulks ((k, v) ∷ rest) = rw (parse_pairs-bulks rest)

-- The lifetime of SET is absent, or a positive `int`.
abbrev pub IsLifetime : Option ℕ → Type 0
IsLifetime none = Unit
IsLifetime (some ms) = (0 < ms) × (ms < 2 ^ 31)

parse_params-bulks :
    (expire_ms : Option ℕ)
    → IsLifetime expire_ms
    → parse_params none (map bulk_string (px_parts expire_ms)) ≡ ok expire_ms
parse_params-bulks none h = unfold parse_params px_parts in refl
parse_params-bulks (some ms) h = parse_params-px ms h.0 h.1

-- The bounds of XRANGE as texts can give them: a sign leaves the parts at 0.
pub record IsBound (i : BoundStreamId) : Type 0 where
  pub fits : InRange i.base
  pub left : i.is_left_unbound ≡ true → (i.base ≡ zero_id) × (i.is_right_unbound ≡ false)
  pub right : i.is_right_unbound ≡ true → i.base ≡ zero_id

bound_back : (i : BoundStreamId) → IsBound i → bound_from_string (bound_to_string i) ≡ ok i
unfolding bound_to_string
bound_back i b = elim (Bool-cases i.is_left_unbound) [
  | inl l ↦ rw l (unfold bound_from_string same text in ground (arith, b.left l))
  | inr l ↦ elim (Bool-cases i.is_right_unbound) [
    | inl r ↦ rw (l, r) (unfold bound_from_string same text in ground (arith, b.right r))
    | inr r ↦ rw (l, r) (ground (arith, bound_from_string-to_string i.base b.fits))
  ]
]

pub record IsReadable (i : ReadStreamId) : Type 0 where
  pub fits : InRange i.base
  pub next : i.is_next_expected ≡ true → i.base ≡ zero_id

read_back : (i : ReadStreamId) → IsReadable i → read_from_string (read_to_string i) ≡ ok i
unfolding read_to_string
read_back i b = elim (Bool-cases i.is_next_expected) [
  | inl n ↦ rw n (unfold read_from_string same text in ground (arith, b.next n))
  | inr n ↦ rw n (ground (arith, read_from_string-to_string i.base b.fits))
]

-- What a command must hold for its message to bring it across: numbers that fit their types, texts
-- that the parser does not change, identifiers as texts give them, one stream for XREAD.
abbrev pub IsCarried : Command → Type 0
IsCarried (set key value expire_ms) = IsLifetime expire_ms
IsCarried (info args) = lower_all args ≡ args
IsCarried (wait replicas timeout_ms) = (replicas < 2 ^ 31) × (timeout_ms < 2 ^ 31)
IsCarried (config action args) = to_upper_case action ≡ action
IsCarried (xadd key i values) = IsCanonical i × (values ≢ [])
IsCarried (xrange key l r) = IsBound l × IsBound r
IsCarried (xread [] block_ms) = ⊥
IsCarried (xread ((k, i) ∷ []) none) = IsReadable i
IsCarried (xread ((k, i) ∷ []) (some ms)) = IsReadable i × (ms < u64_mod)
IsCarried (xread (a ∷ b ∷ rest) block_ms) = ⊥
IsCarried _ = Unit

int_or-decimal : (reason : String) (n : ℕ) → n < 2 ^ 31 → int_or reason (decimal n) ≡ ok (pos n)
unfolding int_or
int_or-decimal reason n h = rw (parse_int-decimal_self n h, int_or)

number_or-decimal : (reason : String) (n : ℕ) → n < u64_mod → number_or reason (decimal n) ≡ ok n
unfolding number_or
number_or-decimal reason n h = rw (parse_uint64-decimal_self n h, number_or)

-- The message that a command constructs is parsed by the receiver as the same command, where its
-- numbers fit their types, its texts are as the parser leaves them, its identifiers are as texts give
-- them, XADD has values and XREAD has one stream.
pub try_parse-construct : (c : Command) → IsCarried c → try_parse (construct c) ≡ ok c
unfolding parts dispatch same text to_lower_case parse_set parse_echo parse_get parse_type
    parse_keys parse_info parse_replconf parse_psync parse_config parse_wait parse_xadd parse_xrange
    parse_xread parse_options parse_rest parse_streams parse_ids block_parts stream_parts pair_parts
try_parse-construct ping h = try_parse-construct_lem ping _ _ refl
try_parse-construct (echo s) h = try_parse-construct_lem (echo s) _ _ refl
try_parse-construct (get key) h = try_parse-construct_lem (get key) _ _ refl
try_parse-construct (type key) h = try_parse-construct_lem (type key) _ _ refl
try_parse-construct (keys arg) h = try_parse-construct_lem (keys arg) _ _ refl
try_parse-construct (set key value expire_ms) h =
    try_parse-construct_lem (set key value expire_ms) _ _ refl ∙ rw (parse_params-bulks expire_ms h)
try_parse-construct (info args) h =
    try_parse-construct_lem (info args) _ _ refl
    ∙ rw (parse_texts-bulks "invalid type" args) (ap (λ t. ok (info t)) h)
try_parse-construct (replconf args) h =
    try_parse-construct_lem (replconf args) _ _ refl ∙ rw (parse_texts-bulks "invalid type" args)
try_parse-construct (psync args) h =
    try_parse-construct_lem (psync args) _ _ refl ∙ rw (parse_texts-bulks "invalid type" args)
try_parse-construct (wait n t) h =
    try_parse-construct_lem (wait n t) _ _ refl
    ∙ rw (int_or-decimal _ n h.0, int_or-decimal _ t h.1) (unfold to_size in refl)
try_parse-construct (config action args) h =
    try_parse-construct_lem (config action args) _ _ refl
    ∙ rw (h, parse_texts-bulks "CONFIG arguments should be BulkString" args)
try_parse-construct (xadd key i []) h = absurd (h.1 refl)
try_parse-construct (xadd key i ((k, v) ∷ values)) h =
    try_parse-construct_lem (xadd key i ((k, v) ∷ values)) _ _ refl
    ∙ rw (input_from_string-to_string i h.0, parse_pairs-bulks values)
try_parse-construct (xrange key l r) h =
    try_parse-construct_lem (xrange key l r) _ _ refl ∙ rw (bound_back l h.0, bound_back r h.1)
try_parse-construct (xread [] block_ms) h = absurd h
try_parse-construct (xread ((k, i) ∷ []) none) h =
    try_parse-construct_lem (xread ((k, i) ∷ []) none) _ _ refl ∙ rw (read_back i h)
try_parse-construct (xread ((k, i) ∷ []) (some ms)) h =
    try_parse-construct_lem (xread ((k, i) ∷ []) (some ms)) _ _ refl
    ∙ rw (number_or-decimal _ ms h.1, read_back i h.0)
try_parse-construct (xread (a ∷ b ∷ rest) block_ms) h = absurd h

-- The parser's reading of a message with two streams.
abbrev crossed : Bytes → Bytes → Outcome ReadStreamId → Outcome ReadStreamId → Outcome Command
crossed k i_text a b = a >>= λ x. b >>= λ y. ok (xread ((k, x) ∷ (i_text, y) ∷ []) none)

crossed_ne :
    (k l : Bytes) (i j : ReadStreamId) (a b : Outcome ReadStreamId)
    → l ≢ read_to_string i
    → crossed k (read_to_string i) a b ≢ ok (xread ((k, i) ∷ (l, j) ∷ []) none)
crossed_ne k l i j (ok x) (ok y) ne h = ne (cc)
crossed_ne k l i j (ok x) (err e) ne h = cc
crossed_ne k l i j (ok x) undefined ne h = cc
crossed_ne k l i j (err e) b ne h = cc
crossed_ne k l i j undefined b ne h = cc

try_parse-two :
    (k l : Bytes) (i j : ReadStreamId)
    → try_parse (construct (xread ((k, i) ∷ (l, j) ∷ []) none))
      ≡ crossed k (read_to_string i) (read_from_string l) (read_from_string (read_to_string j))
unfolding parts dispatch same text to_lower_case parse_xread parse_options parse_rest parse_streams
    parse_ids block_parts stream_parts
try_parse-two k l i j =
    try_parse-construct_lem (xread ((k, i) ∷ (l, j) ∷ []) none) _ _ refl ∙ ground arith

-- XREAD of two streams, where the second key is not the text of the first identifier, does not come
-- across: the message interleaves keys and identifiers, and the parser takes all keys first.
pub xread_two_streams :
    (k l : Bytes) (i j : ReadStreamId)
    → l ≢ read_to_string i
    → try_parse (construct (xread ((k, i) ∷ (l, j) ∷ []) none))
      ≢ ok (xread ((k, i) ∷ (l, j) ∷ []) none)
xread_two_streams k l i j ne h =
    crossed_ne k l i j (read_from_string l) (read_from_string (read_to_string j)) ne
      (rw try_parse-two at h)
