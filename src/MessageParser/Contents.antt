-- ===== src/MessageParser/Contents.antt =====
-- try_parse of src/message_parser.cpp on the file that a replica expects, and on the null bulk string.
use build_your_own_redis.Prelude.{
  take-append_length, drop-append_length, ℕ, zero, suc, ◌+◌, ◌-◌, ◌%◌, ◌^◌, ◌≤◌, ◌<◌, ◌≡◌, ◌≢◌,
  refl, ap, ◌∙◌, Bool, true, false, List, [], ◌∷◌, ◌++◌, append_assoc, arith, length, length-append,
  ltb,
}
use build_your_own_redis.Text.{Bytes, text}
use build_your_own_redis.Text.Decimal.{u64_mod, to_size, decimal, parse_int}
use build_your_own_redis.Text.Decimal.RoundTrip.{parse_int-decimal_self}
use build_your_own_redis.Message.{sync_response, bulk_string, to_string, print_bulk}
use build_your_own_redis.MessageParser.Raw.{done, more, parse, parse_line, parse_contents}
use build_your_own_redis.MessageParser.Rounds.{
  holding, expecting, get_next-header, rounds-ready, is_empty-append_cons,
}
use build_your_own_redis.MessageParser.{
  got, undefined_read, ready, try_parse, on_buffer, rounds, after_parse, after_next, is_empty,
  get_next_raw_message, next_contents,
}

-- A file behind its header, with no delimiter behind it
get_next-file :
    (s rest : Bytes) (raw : List Bytes)
    → length s < 2 ^ 31
    → get_next_raw_message true (expecting (s ++ rest) raw (length s))
      ≡ ready (holding rest (raw ++ s ∷ []))
unfolding get_next_raw_message next_contents
get_next-file s rest raw h =
    let longer = length-append s rest in
    let fits : ltb (length (s ++ rest)) ((length s + 0) % u64_mod) ≡ false =
      ground (arith, longer) in
    let in_range : ltb (length (s ++ rest)) (length s + 0) ≡ false = ground (arith, longer) in
    rw (fits, in_range, take-append_length s rest, drop-append_length s rest 0 (length s + 0) refl)
      refl

parse-file_header :
    (s : Bytes) (depth : ℕ)
    → length s < 2 ^ 31
    → parse true (suc depth) ((b'$' ∷ decimal (length s)) ∷ []) ≡ more
unfolding parse parse_line parse_contents
parse-file_header s depth h = rw (parse_int-decimal_self (length s) h) refl

parse-file :
    (s : Bytes) (depth : ℕ)
    → length s < 2 ^ 31
    → parse true (suc depth) ((b'$' ∷ decimal (length s)) ∷ s ∷ []) ≡ done (sync_response s) []
unfolding parse parse_line parse_contents
parse-file s depth h = rw (parse_int-decimal_self (length s) h) refl

is_empty-file : (s rest : Bytes) → s ≢ [] → is_empty (s ++ rest) ≡ false
unfolding is_empty
is_empty-file [] rest h = absurd (h refl)
is_empty-file (c ∷ s) rest h = refl

rounds-file :
    (n depth : ℕ) (s rest : Bytes)
    → s ≢ []
    → length s < 2 ^ 31
    → rounds
        (suc (suc n))
        (suc depth)
        true
        (holding (b'$' ∷ (decimal (length s) ++ 13 ∷ 10 ∷ (s ++ rest))) [])
      ≡ got (sync_response s) (on_buffer rest)
unfolding after_parse
rounds-file n depth s rest ne h =
    rounds-ready (suc n) (suc depth) true _ _ (is_empty-append_cons [] b'$' _)
      (get_next-header true s (s ++ rest) [] h)
    ∙ rw (parse-file_header s depth h) (
        rounds-ready n (suc depth) true _ _ (is_empty-file s rest ne)
          (get_next-file s rest ((b'$' ∷ decimal (length s)) ∷ []) h)
        ∙ rw (parse-file s depth h) refl)

try_parse-file :
    (s rest : Bytes) (k d : ℕ)
    → s ≢ []
    → length s < 2 ^ 31
    → 2 ≤ k
    → 0 < d
    → rounds k d true (holding (b'$' ∷ (decimal (length s) ++ 13 ∷ 10 ∷ (s ++ rest))) [])
      ≡ got (sync_response s) (on_buffer rest)
try_parse-file s rest zero d ne h e u = absurd (omega arith)
try_parse-file s rest (suc zero) d ne h e u = absurd (omega arith)
try_parse-file s rest (suc (suc k)) zero ne h e u = absurd (omega arith)
try_parse-file s rest (suc (suc k)) (suc d) ne h e u = rounds-file k d s rest ne h

-- A parser that expects a SyncResponse returns the file whose text its buffer begins with and keeps
-- the bytes behind it, where the file is not empty and its size is an int.
pub try_parse-sync_response :
    (s rest : Bytes)
    → s ≢ []
    → length s < 2 ^ 31
    → try_parse true (on_buffer (to_string (sync_response s) ++ rest))
      ≡ got (sync_response s) (on_buffer rest)
unfolding try_parse to_string
try_parse-sync_response s rest ne h =
    let behind : to_string (sync_response s) ++ rest
        ≡ b'$' ∷ (decimal (length s) ++ 13 ∷ 10 ∷ (s ++ rest)) =
      ap (λ l. b'$' ∷ l) (append_assoc (decimal (length s)) (13 ∷ 10 ∷ s) rest) in
    ap (λ b. try_parse true (on_buffer b)) behind
    ∙ try_parse-file s rest _ _ ne h (omega arith) (omega arith)

-- The length -1 as a `std::size_t`
null_header :
    (is_sync : Bool) (rest : Bytes)
    → get_next_raw_message is_sync (on_buffer (print_bulk [] ++ rest))
      ≡ ready (expecting rest (text "$-1" ∷ []) 18446744073709551615)
unfolding get_next_raw_message print_bulk text parse_int to_size
null_header is_sync rest = refl

parse-null : (depth : ℕ) → parse false (suc depth) (text "$-1" ∷ []) ≡ done (bulk_string []) []
unfolding parse text parse_int
parse-null depth = refl

rounds-null :
    (rest : Bytes) (k d : ℕ)
    → 0 < k
    → 0 < d
    → rounds k d false (on_buffer (print_bulk [] ++ rest))
      ≡ got (bulk_string []) (expecting rest [] 18446744073709551615)
unfolding after_parse
rounds-null rest zero d h e = absurd (omega arith)
rounds-null rest (suc k) zero h e = absurd (omega arith)
rounds-null rest (suc k) (suc d) h e =
    rounds-ready k (suc d) false (on_buffer (print_bulk [] ++ rest)) _
      (unfold is_empty print_bulk text in refl) (null_header false rest)
    ∙ rw (parse-null d) refl

rounds-huge :
    (c : ℕ) (b : Bytes) (k d : ℕ)
    → 0 < k
    → length (c ∷ b) < 2 ^ 64
    → rounds k d false (expecting (c ∷ b) [] 18446744073709551615) ≡ undefined_read
unfolding rounds after_next get_next_raw_message next_contents is_empty
rounds-huge c b zero d h e = absurd (omega arith)
rounds-huge c b (suc k) d h e =
    let fits : ltb (length (c ∷ b)) 1 ≡ false = ground arith in
    let behind : ltb (length (c ∷ b)) 18446744073709551617 ≡ true = ground arith in
    rw (fits, behind) refl

-- The text of an empty bulk string is returned as this message, but then the parser expects contents
-- of 2^64 - 1 bytes, and a further try_parse reads out of range as soon as one byte is in the buffer.
pub try_parse-null_bulk :
    (rest : Bytes) (c : ℕ) (b : Bytes)
    → length (c ∷ b) < 2 ^ 64
    → (try_parse false (on_buffer (to_string (bulk_string []) ++ rest))
        ≡ got (bulk_string []) (expecting rest [] (2 ^ 64 - 1)))
      × (try_parse false (expecting (c ∷ b) [] (2 ^ 64 - 1)) ≡ undefined_read)
unfolding try_parse to_string
try_parse-null_bulk rest c b h =
    (rounds-null rest _ _ (omega arith) (omega arith), rounds-huge c b _ _ (omega arith) h)
