-- ===== src/MessageParser/Parses.antt =====
-- ParseHelper of src/message_parser.cpp on the raw messages of a message.
use build_your_own_redis.Prelude.{
  ℕ, zero, suc, ◌^◌, ◌≤◌, ◌<◌, ◌≡◌, refl, ap, ◌∙◌, false, List, ◌∷◌, ◌++◌, append_assoc, arith,
  length, length-append,
}
use build_your_own_redis.Text.{Bytes, text}
use build_your_own_redis.Text.Decimal.{
  skip_plus, from_chars_int, from_digits, scan, negated, ℤ, decimal, decimal_int, parse_int,
}
use build_your_own_redis.Text.Decimal.RoundTrip.{
  IsInt, parse_int-decimal_self, parse_int-decimal_int,
}
use build_your_own_redis.Message.{
  Message, Messages, simple_string, simple_error, integer, bulk_string, array, nil, cons, size,
}
use build_your_own_redis.MessageParser.Raw.{
  done, parse, parse_line, parse_integer, parse_contents, parse_array, parse_elements,
}
use build_your_own_redis.MessageParser.Rounds.{Chunk, raws}
use build_your_own_redis.MessageParser.Chunks.{
  IsSendable, AreSendable, header, chunks, chunks_all, raws-append,
}

-- The raw messages of an array
parse-array :
    (ms : Messages) (depth : ℕ) (raw tail : List Bytes)
    → size ms < 2 ^ 31
    → parse_elements (parse false depth) (size ms) raw ≡ done ms tail
    → parse false (suc depth) ((b'*' ∷ header ms) ∷ raw) ≡ done (array ms) tail
unfolding parse parse_line parse_array header
parse-array nil depth raw tail h e =
    let same_rest : raw ≡ tail = unfold parse_elements size in cc in
    rw same_rest (unfold text parse_int skip_plus from_chars_int from_digits scan negated in refl)
parse-array (cons m ms) depth raw tail h e =
    rw (parse_int-decimal_self (size (cons m ms)) h, e) refl

parse-integer :
    (n : ℤ) (depth : ℕ) (raw : List Bytes)
    → IsInt n
    → parse false (suc depth) ((b':' ∷ decimal_int n) ∷ raw) ≡ done (integer n) raw
unfolding parse parse_line parse_integer
parse-integer n depth raw h = rw (parse_int-decimal_int n h) refl

parse-bulk_string :
    (s : Bytes) (depth : ℕ) (raw : List Bytes)
    → length s < 2 ^ 31
    → parse false (suc depth) ((b'$' ∷ decimal (length s)) ∷ s ∷ raw) ≡ done (bulk_string s) raw
unfolding parse parse_line parse_contents
parse-bulk_string s depth raw h = rw (parse_int-decimal_self (length s) h) refl

parse-simple_string :
    (s : Bytes) (depth : ℕ) (raw : List Bytes)
    → parse false (suc depth) ((b'+' ∷ s) ∷ raw) ≡ done (simple_string s) raw
unfolding parse parse_line
parse-simple_string s depth raw = refl

parse-simple_error :
    (s : Bytes) (depth : ℕ) (raw : List Bytes)
    → parse false (suc depth) ((b'-' ∷ s) ∷ raw) ≡ done (simple_error s) raw
unfolding parse parse_line
parse-simple_error s depth raw = refl

raws-append_tail :
    (cs ds : List Chunk) (tail : List Bytes)
    → raws (cs ++ ds) ++ tail ≡ raws cs ++ (raws ds ++ tail)
raws-append_tail cs ds tail =
    ap (λ l. l ++ tail) (raws-append cs ds) ∙ append_assoc (raws cs) (raws ds) tail

-- The elements of an array, with the first one parsed
parse_elements-cons :
    (m : Message) (ms : Messages) (depth : ℕ) (raw rest tail : List Bytes)
    → parse false depth raw ≡ done m rest
    → parse_elements (parse false depth) (size ms) rest ≡ done ms tail
    → parse_elements (parse false depth) (size (cons m ms)) raw ≡ done (cons m ms) tail
unfolding parse_elements size
parse_elements-cons m ms depth raw rest tail e f = rw (e, f) refl

parse_elements-nil :
    (depth : ℕ) (raw : List Bytes)
    → parse_elements (parse false depth) (size nil) raw ≡ done nil raw
unfolding parse_elements size
parse_elements-nil depth raw = refl

mutual
  unfolding IsSendable chunks

  -- The raw messages of a message are parsed as the message.
  pub parse-chunks :
      (m : Message) (depth : ℕ) (tail : List Bytes)
      → IsSendable m
      → length (raws (chunks m)) ≤ depth
      → parse false depth (raws (chunks m) ++ tail) ≡ done m tail
  parse-chunks (simple_string s) zero tail h le = absurd (omega arith)
  parse-chunks (simple_error s) zero tail h le = absurd (omega arith)
  parse-chunks (integer n) zero tail h le = absurd (omega arith)
  parse-chunks (bulk_string s) zero tail h le = absurd (omega arith)
  parse-chunks (array ms) zero tail h le = absurd (omega arith)
  parse-chunks (simple_string s) (suc depth) tail h le = parse-simple_string s depth tail
  parse-chunks (simple_error s) (suc depth) tail h le = parse-simple_error s depth tail
  parse-chunks (integer n) (suc depth) tail h le = parse-integer n depth tail h
  parse-chunks (bulk_string s) (suc depth) tail h le = parse-bulk_string s depth tail h.1
  parse-chunks (array ms) (suc depth) tail h le =
      parse-array ms depth (raws (chunks_all ms) ++ tail) tail h.0
        (parse_elements-chunks ms depth tail h.1 (omega arith))
  parse-chunks _ depth tail h le = elim h [ ]

  parse_elements-chunks :
      (ms : Messages) (depth : ℕ) (tail : List Bytes)
      → AreSendable ms
      → length (raws (chunks_all ms)) ≤ depth
      → parse_elements (parse false depth) (size ms) (raws (chunks_all ms) ++ tail) ≡ done ms tail
  parse_elements-chunks nil depth tail h le = parse_elements-nil depth tail
  parse_elements-chunks (cons m ms) depth tail h le =
      let counts =
        ap length (raws-append (chunks m) (chunks_all ms))
        ∙ length-append (raws (chunks m)) (raws (chunks_all ms)) in
      parse_elements-cons m ms depth _ (raws (chunks_all ms) ++ tail) tail
        (ap (parse false depth) (raws-append_tail (chunks m) (chunks_all ms) tail)
          ∙ parse-chunks m depth (raws (chunks_all ms) ++ tail) h.0 (omega (arith, counts)))
        (parse_elements-chunks ms depth tail h.1 (omega (arith, counts)))
