-- ===== src/MessageParser/Terminates.antt =====
-- The rounds of MessageParser::try_parse (src/message_parser.cpp): each takes bytes, or is followed by
-- one that does.
use mathlib.Core.Path.{subst}
use build_your_own_redis.Prelude.{
  length-drop, ℕ, zero, suc, ◌+◌, ◌*◌, ◌≤◌, ◌<◌, ◌≡◌, ◌≢◌, refl, sym, ap, Bool, Option, none, some,
  [], ◌∷◌, ◌++◌, arith, length, length-append, take, drop, if◌then◌else◌, Bool-cases, Option-cases,
  inl, inr,
}
use build_your_own_redis.Text.{Bytes, text}
use build_your_own_redis.Text.Decimal.{parse_int}
use build_your_own_redis.Message.{Message}
use build_your_own_redis.MessageParser.Raw.{Parsed, done, more, thrown, stuck, parse}
use build_your_own_redis.MessageParser.Depth.{Leaves, parse-Leaves}
use build_your_own_redis.MessageParser.{
  Parser, Tried, exhausted, Next, ready, waits, fails, out_of_range, split_crlf, next_contents,
  next_line, note_length, next_type, is_expected_type, delim_size, get_next_raw_message,
  after_parse, after_next, is_empty, rounds, enough, try_parse,
}

-- What the rounds go down by.
abbrev pub expected_size : Option ℕ → ℕ
expected_size none = 0
expected_size (some n) = 1

abbrev pub measure : Parser → ℕ
measure s = 2 * length s.buffer + expected_size s.length_encoded_message_expected

-- A raw message has been taken.
abbrev pub Advances : Parser → Next → Type 0
Advances s (ready t) =
    (measure t < measure s) × (length t.raw_message_buffer ≡ length s.raw_message_buffer + 1)
Advances s _ = Unit

split_crlf-length : (b l r : Bytes) → split_crlf b ≡ some (l, r) → length r + 2 ≤ length b
unfolding split_crlf
split_crlf-length [] l r e = cc
split_crlf-length (c ∷ []) l r e = cc
split_crlf-length (c ∷ d ∷ b) l r e = elim (Option-cases (split_crlf (d ∷ b))) [
  | inl q ↦ ground (arith, q)
  | inr ((l', r'), q) ↦ ground (arith, q, split_crlf-length (d ∷ b) l' r' q)
]

next_contents-Advances :
    (is_sync : Bool) (size : ℕ) (s : Parser)
    → s.length_encoded_message_expected ≡ some size
    → Advances s (next_contents is_sync size s)
unfolding next_contents
next_contents-Advances is_sync size s e = ground (
  arith,
  ap expected_size e,
  length-drop (size + delim_size is_sync) s.buffer,
  length-append s.raw_message_buffer (take size s.buffer ∷ []),
)

next_line-Advances :
    (c : ℕ) (line rest : Bytes) (s : Parser)
    → s.length_encoded_message_expected ≡ none
    → length rest + 2 ≤ length s.buffer
    → Advances s (next_line c line rest s)
unfolding next_line note_length
next_line-Advances c line rest s e le = ground (
  arith,
  ap expected_size e,
  Option-cases (parse_int (drop 1 line)),
  length-append s.raw_message_buffer (line ∷ []),
)

next_type-Advances :
    (b : Bytes) (s : Parser)
    → s.buffer ≡ b
    → s.length_encoded_message_expected ≡ none
    → Advances s (next_type b s)
unfolding next_type
next_type-Advances [] s e n = tt
next_type-Advances (c ∷ b) s e n = elim (Bool-cases (is_expected_type c)) [
  | inr q ↦
      subst
        (λ x. Advances s (
          if x
          then found (split_crlf (c ∷ b))
          else fails (text "Unknown message type: " ++ c ∷ []) s))
        (sym q) tt
  | inl q ↦
      subst
        (λ x. Advances s (
          if x
          then found (split_crlf (c ∷ b))
          else fails (text "Unknown message type: " ++ c ∷ []) s))
        (sym q) (line_found (split_crlf (c ∷ b)) refl)
]
  where
    found : Option (Bytes × Bytes) → Next
    found o = elim o [ none ↦ waits | some (line, rest) ↦ next_line c line rest s ]

    line_found : (o : Option (Bytes × Bytes)) → split_crlf (c ∷ b) ≡ o → Advances s (found o)
    line_found none h = tt
    line_found (some (line, rest)) h =
        next_line-Advances c line rest s n
          (omega (arith, split_crlf-length (c ∷ b) line rest h, ap length e))

pub get_next-Advances : (is_sync : Bool) (s : Parser) → Advances s (get_next_raw_message is_sync s)
unfolding get_next_raw_message
get_next-Advances is_sync s = go s.length_encoded_message_expected refl
  where
    go :
        (o : Option ℕ)
        → s.length_encoded_message_expected ≡ o
        → Advances s
            (elim o [ some size ↦ next_contents is_sync size s | none ↦ next_type s.buffer s ])
    go none e = next_type-Advances s.buffer s refl e
    go (some size) e = next_contents-Advances is_sync size s e

after_parse-ne-exhausted :
    (again : Parser → Tried) (t : Parser) (p : Parsed Message) (n : ℕ)
    → Leaves p n
    → (again t ≢ exhausted)
    → after_parse again t p ≢ exhausted
unfolding after_parse
after_parse-ne-exhausted again t (done m rest) n h k = λ e. cc
after_parse-ne-exhausted again t more n h k = k
after_parse-ne-exhausted again t (thrown reason rest) n h k = λ e. cc
after_parse-ne-exhausted again t stuck n h k = absurd h

after_next-ne-exhausted :
    (again : Parser → Tried) (depth : ℕ) (is_sync : Bool) (s : Parser) (x : Next)
    → Advances s x
    → length s.raw_message_buffer < depth
    → ((t : Parser)
        → measure t < measure s
        → length t.raw_message_buffer ≡ length s.raw_message_buffer + 1
        → again t ≢ exhausted)
    → after_next again depth is_sync s x ≢ exhausted
unfolding after_next
after_next-ne-exhausted again depth is_sync s (ready t) h le k =
    after_parse-ne-exhausted again t (parse is_sync depth t.raw_message_buffer) _
      (parse-Leaves is_sync depth t.raw_message_buffer (omega (arith, h.1))) (k t h.0 h.1)
after_next-ne-exhausted again depth is_sync s waits h le k = λ e. cc
after_next-ne-exhausted again depth is_sync s (fails reason t) h le k = λ e. cc
after_next-ne-exhausted again depth is_sync s out_of_range h le k = λ e. cc

rounds-ne-exhausted :
    (n depth : ℕ) (is_sync : Bool) (s : Parser)
    → measure s < n
    → length s.raw_message_buffer + n ≤ depth
    → rounds n depth is_sync s ≢ exhausted
unfolding rounds
rounds-ne-exhausted zero depth is_sync s lt le = absurd (omega arith)
rounds-ne-exhausted (suc n) depth is_sync s lt le = elim (Bool-cases (is_empty s.buffer)) [
  | inl e ↦ rw (rounds, e) (λ p. cc)
  | inr e ↦
      rw (rounds, e)
        (after_next-ne-exhausted (rounds n depth is_sync) depth is_sync s
          (get_next_raw_message is_sync s) (get_next-Advances is_sync s) (omega arith)
          (λ t l r. rounds-ne-exhausted n depth is_sync t (omega arith) (omega arith)))
]

-- The loop of try_parse and the recursion of its helper end on every state of the parser: the rounds
-- and the depth that the model gives them do not run out.
pub try_parse-ne-exhausted : (is_sync : Bool) (s : Parser) → try_parse is_sync s ≢ exhausted
unfolding try_parse
try_parse-ne-exhausted is_sync s =
    rounds-ne-exhausted (enough s) (length s.raw_message_buffer + enough s) is_sync s
      (go s.length_encoded_message_expected refl) (omega arith)
  where
    go : (o : Option ℕ) → s.length_encoded_message_expected ≡ o → measure s < enough s
    go none e = omega (arith, ap expected_size e)
    go (some n) e = omega (arith, ap expected_size e)
