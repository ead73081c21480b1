-- ===== src/MessageParser/RoundTrip.antt =====
-- try_parse of src/message_parser.cpp on what Message::to_string of src/message.cpp prints.
use mathlib.Core.List.{cons-ne-nil}
use build_your_own_redis.Prelude.{
  ◌==◌, ℕ, ◌-◌, ◌≤◌, ◌<◌, ◌≡◌, ◌≢◌, refl, sym, ap, ◌∙◌, true, false, List, [], ◌∷◌, ◌++◌,
  append_assoc, append-nil, arith, length, All, All-append,
}
use build_your_own_redis.Text.{Bytes, text}
use build_your_own_redis.Text.Decimal.{decimal, decimal_int}
use build_your_own_redis.Text.Decimal.RoundTrip.{decimal-lacks, decimal_int-lacks}
use build_your_own_redis.Message.{
  Message, Messages, simple_string, simple_error, integer, bulk_string, array, nil, cons, size,
  to_string, to_string_all, print_bulk, print_header,
}
use build_your_own_redis.MessageParser.Raw.{done, parse}
use build_your_own_redis.MessageParser.Rounds.{
  Chunk, line, counted, raws, print_onto, IsChunk, count_rounds, rounds-chunks,
}
use build_your_own_redis.MessageParser.Chunks.{
  IsSendable, AreSendable, header, chunks, chunks_all, print_onto-append, count_rounds-le,
  length-raws,
}
use build_your_own_redis.MessageParser.{is_expected_type, got, try_parse, on_buffer, enough}
use build_your_own_redis.MessageParser.Parses.{parse-chunks}

print-line :
    (c : ℕ) (s rest : Bytes) → (c ∷ (s ++ 13 ∷ 10 ∷ [])) ++ rest ≡ c ∷ (s ++ 13 ∷ 10 ∷ rest)
print-line c s rest = ap (λ l. c ∷ l) (append_assoc s (13 ∷ 10 ∷ []) rest)

print-bulk_string :
    (s rest : Bytes) → s ≢ [] → print_bulk s ++ rest ≡ print_onto (counted s ∷ []) rest
unfolding print_bulk
print-bulk_string [] rest h = absurd (h refl)
print-bulk_string (c ∷ s) rest h =
    ap (λ l. b'$' ∷ l)
      (append_assoc (decimal (length (c ∷ s))) (13 ∷ 10 ∷ (c ∷ s) ++ 13 ∷ 10 ∷ []) rest
        ∙ ap (λ l. decimal (length (c ∷ s)) ++ 13 ∷ 10 ∷ l)
            (append_assoc (c ∷ s) (13 ∷ 10 ∷ []) rest))

print-header :
    (ms : Messages) (rest : Bytes) → print_header ms ++ rest ≡ b'*' ∷ (header ms ++ 13 ∷ 10 ∷ rest)
unfolding print_header header
print-header nil rest = unfold text in refl
print-header (cons m ms) rest = print-line b'*' (decimal (size (cons m ms))) rest

mutual
  unfolding IsSendable chunks to_string

  -- The text of a message is that of its chunks.
  print-chunks :
      (m : Message) (rest : Bytes) → IsSendable m → to_string m ++ rest ≡ print_onto (chunks m) rest
  print-chunks (simple_string s) rest h = print-line b'+' s rest
  print-chunks (simple_error s) rest h = print-line b'-' s rest
  print-chunks (integer n) rest h = print-line b':' (decimal_int n) rest
  print-chunks (bulk_string s) rest h = print-bulk_string s rest h.0
  print-chunks (array ms) rest h =
      append_assoc (print_header ms) (to_string_all ms) rest
      ∙ print-header ms (to_string_all ms ++ rest)
      ∙ ap (λ l. b'*' ∷ (header ms ++ 13 ∷ 10 ∷ l)) (print-chunks_all ms rest h.1)
  print-chunks _ rest h = elim h [ ]

  print-chunks_all :
      (ms : Messages) (rest : Bytes)
      → AreSendable ms
      → to_string_all ms ++ rest ≡ print_onto (chunks_all ms) rest
  print-chunks_all nil rest h = refl
  print-chunks_all (cons m ms) rest h =
      append_assoc (to_string m) (to_string_all ms) rest
      ∙ print-chunks m (to_string_all ms ++ rest) h.0
      ∙ ap (print_onto (chunks m)) (print-chunks_all ms rest h.1)
      ∙ sym (print_onto-append (chunks m) (chunks_all ms) rest)

header-All : (ms : Messages) → All (λ c. c ≢ 13) (header ms)
unfolding header
header-All nil = unfold text in ((λ e. ground arith), ((λ e. ground arith), tt))
header-All (cons m ms) = decimal-lacks 13 (size (cons m ms)) refl

line-IsChunk :
    (c : ℕ) (s : Bytes)
    → c < 64
    → 13 < c
    → (c == b'$') ≡ false
    → is_expected_type c ≡ true
    → All (λ d. d ≢ 13) s
    → IsChunk (line c s)
line-IsChunk c s h l q e a = (e, q, (λ p. omega arith), a)

mutual
  unfolding IsSendable chunks

  chunks-IsChunk : (m : Message) → IsSendable m → All IsChunk (chunks m)
  chunks-IsChunk (simple_string s) h =
      (line-IsChunk b'+' s (omega arith) (omega arith) refl refl h, tt)
  chunks-IsChunk (simple_error s) h =
      (line-IsChunk b'-' s (omega arith) (omega arith) refl refl h, tt)
  chunks-IsChunk (integer n) h = (
    line-IsChunk b':' (decimal_int n) (omega arith) (omega arith) refl refl
        (decimal_int-lacks 13 n refl (λ p. ground arith)),
    tt,
  )
  chunks-IsChunk (bulk_string s) h = (h.1, tt)
  chunks-IsChunk (array ms) h = (
    line-IsChunk b'*' (header ms) (omega arith) (omega arith) refl refl (header-All ms),
    chunks_all-IsChunk ms h.1,
  )
  chunks-IsChunk _ h = elim h [ ]

  chunks_all-IsChunk : (ms : Messages) → AreSendable ms → All IsChunk (chunks_all ms)
  chunks_all-IsChunk nil h = tt
  chunks_all-IsChunk (cons m ms) h =
      All-append IsChunk (chunks m) (chunks_all ms) (chunks-IsChunk m h.0)
        (chunks_all-IsChunk ms h.1)

-- A parser with chunks of one message in its buffer
try_parse-print_onto :
    (cs : List Chunk) (rest : Bytes) (m : Message)
    → cs ≢ []
    → All IsChunk cs
    → ((depth : ℕ) → length (raws cs) ≤ depth → parse false depth (raws cs) ≡ done m [])
    → try_parse false (on_buffer (print_onto cs rest)) ≡ got m (on_buffer rest)
unfolding try_parse
try_parse-print_onto [] rest m ne a h = absurd (ne refl)
try_parse-print_onto (c ∷ cs) rest m ne a h =
    let le = count_rounds-le (c ∷ cs) rest in
    rounds-chunks c cs (enough (on_buffer (print_onto (c ∷ cs) rest)) - count_rounds (c ∷ cs)) _ _
      [] rest m (omega (arith, le)) a (h _ (omega (arith, le, length-raws (c ∷ cs))))

chunks-ne-nil : (m : Message) → IsSendable m → chunks m ≢ []
unfolding chunks IsSendable
chunks-ne-nil (simple_string s) h = cons-ne-nil _ _
chunks-ne-nil (simple_error s) h = cons-ne-nil _ _
chunks-ne-nil (integer n) h = cons-ne-nil _ _
chunks-ne-nil (bulk_string s) h = cons-ne-nil _ _
chunks-ne-nil (array ms) h = cons-ne-nil _ _
chunks-ne-nil _ h = elim h [ ]

-- A parser whose buffer begins with the text of a message returns just this message and keeps the
-- bytes behind it, whatever they are, where the message's lines have no carriage return, its numbers
-- and sizes are an int and no bulk string in it is empty.
pub try_parse-to_string :
    (m : Message) (rest : Bytes)
    → IsSendable m
    → try_parse false (on_buffer (to_string m ++ rest)) ≡ got m (on_buffer rest)
try_parse-to_string m rest h =
    ap (λ b. try_parse false (on_buffer b)) (print-chunks m rest h)
    ∙ try_parse-print_onto (chunks m) rest m (chunks-ne-nil m h) (chunks-IsChunk m h) (λ depth le.
      ap (parse false depth) (sym (append-nil (raws (chunks m)))) ∙ parse-chunks m depth [] h le)

count_rounds-pos : (cs : List Chunk) → cs ≢ [] → 0 < count_rounds cs
count_rounds-pos [] h = absurd (h refl)
count_rounds-pos (line c s ∷ cs) h = omega arith
count_rounds-pos (counted s ∷ cs) h = omega arith

pub length-to_string : (m : Message) → IsSendable m → 0 < length (to_string m)
length-to_string m h =
    let same_text : length (to_string m) ≡ length (print_onto (chunks m) []) =
      ap length (sym (append-nil (to_string m)) ∙ print-chunks m [] h) in
    omega (
      arith,
      same_text,
      count_rounds-le (chunks m) [],
      count_rounds-pos (chunks m) (chunks-ne-nil m h),
    )
