-- ===== src/MessageParser/Rounds.antt =====
-- get_next_raw_message and the rounds of try_parse (src/message_parser.cpp) on the text of raw
-- messages.
use build_your_own_redis.Prelude.{
  take-append_length, drop-append_length, ℕ, zero, suc, ◌+◌, ◌%◌, ◌^◌, ◌<◌, ◌≡◌, ◌≢◌, refl, sym, ap,
  ◌∙◌, Bool, true, false, none, some, List, [], ◌∷◌, ◌++◌, append_assoc, arith, length,
  length-append, ltb, ◌==◌, All,
}
use build_your_own_redis.Text.{Bytes}
use build_your_own_redis.Text.Decimal.{u64_mod, to_size, decimal}
use build_your_own_redis.Text.Decimal.RoundTrip.{parse_int-decimal_self, decimal-lacks}
use build_your_own_redis.Message.{Message}
use build_your_own_redis.MessageParser.Raw.{done, parse}
use build_your_own_redis.MessageParser.Extend.{parse_part}
use build_your_own_redis.MessageParser.{
  Parser, got, ready, split_crlf, next_contents, next_line, note_length, next_type,
  is_expected_type, get_next_raw_message, after_parse, after_next, is_empty, rounds,
}

-- A line with its type, which is not that of a bulk string, or the contents of a bulk string.
pub data Chunk : Type 0 where
  line : ℕ → Bytes → Chunk
  counted : Bytes → Chunk

-- The raw messages of chunks, and their text before a rest.
abbrev pub raws : List Chunk → List Bytes
raws [] = []
raws (line c s ∷ cs) = (c ∷ s) ∷ raws cs
raws (counted s ∷ cs) = (b'$' ∷ decimal (length s)) ∷ s ∷ raws cs

abbrev pub print_onto : List Chunk → Bytes → Bytes
print_onto [] rest = rest
print_onto (line c s ∷ cs) rest = c ∷ (s ++ 13 ∷ 10 ∷ print_onto cs rest)
print_onto (counted s ∷ cs) rest =
    b'$' ∷ (decimal (length s) ++ 13 ∷ 10 ∷ (s ++ 13 ∷ 10 ∷ print_onto cs rest))

-- No line holds a carriage return, and lengths are an `int`.
abbrev pub IsChunk : Chunk → Type 0
IsChunk (line c s) =
    (is_expected_type c ≡ true) × ((c == b'$') ≡ false) × (c ≢ 13) × All (λ d. d ≢ 13) s
IsChunk (counted s) = length s < 2 ^ 31

split_crlf-line : (l r : Bytes) → All (λ c. c ≢ 13) l → split_crlf (l ++ 13 ∷ 10 ∷ r) ≡ some (l, r)
unfolding split_crlf
split_crlf-line [] r h = refl
split_crlf-line (c ∷ []) r h = ground arith
split_crlf-line (c ∷ d ∷ l) r h = ground (arith, split_crlf-line (d ∷ l) r h.1)

-- A parser with this buffer and these raw messages
abbrev pub holding : Bytes → List Bytes → Parser
holding b raw = record {
  buffer = b;
  raw_message_buffer = raw;
  length_encoded_message_expected = none;
}

-- A parser that expects contents of this size
abbrev pub expecting : Bytes → List Bytes → ℕ → Parser
expecting b raw size = record {
  buffer = b;
  raw_message_buffer = raw;
  length_encoded_message_expected = some size;
}

get_next-line :
    (is_sync : Bool) (c : ℕ) (s rest : Bytes) (raw : List Bytes)
    → IsChunk (line c s)
    → get_next_raw_message is_sync (holding (c ∷ (s ++ 13 ∷ 10 ∷ rest)) raw)
      ≡ ready (holding rest (raw ++ (c ∷ s) ∷ []))
unfolding get_next_raw_message next_type next_line
get_next-line is_sync c s rest raw h = rw (h.0, split_crlf-line (c ∷ s) rest (h.2, h.3), h.1) refl

pub get_next-header :
    (is_sync : Bool) (s rest : Bytes) (raw : List Bytes)
    → length s < 2 ^ 31
    → get_next_raw_message is_sync (holding (b'$' ∷ (decimal (length s) ++ 13 ∷ 10 ∷ rest)) raw)
      ≡ ready (expecting rest (raw ++ (b'$' ∷ decimal (length s)) ∷ []) (length s))
unfolding get_next_raw_message next_type next_line note_length
get_next-header is_sync s rest raw h =
    rw
      (split_crlf-line (b'$' ∷ decimal (length s)) rest
        (no_return, decimal-lacks 13 (length s) refl))
      (rw (parse_int-decimal_self (length s) h, note_length) (unfold to_size in refl))
  where
    no_return : ◌≢◌ {A = ℕ} b'$' 13
    no_return p = ground arith

get_next-contents :
    (s rest : Bytes) (raw : List Bytes)
    → length s < 2 ^ 31
    → get_next_raw_message false (expecting (s ++ 13 ∷ 10 ∷ rest) raw (length s))
      ≡ ready (holding rest (raw ++ s ∷ []))
unfolding get_next_raw_message next_contents
get_next-contents s rest raw h =
    let longer = length-append s (13 ∷ 10 ∷ rest) in
    let fits : ltb (length (s ++ 13 ∷ 10 ∷ rest)) ((length s + 2) % u64_mod) ≡ false =
      ground (arith, longer) in
    let in_range : ltb (length (s ++ 13 ∷ 10 ∷ rest)) (length s + 2) ≡ false =
      ground (arith, longer) in
    rw
      (
        fits,
        in_range,
        take-append_length s (13 ∷ 10 ∷ rest),
        drop-append_length s (13 ∷ 10 ∷ rest) 2 (length s + 2) refl,
      )
      refl

-- A round that reads a raw message
pub rounds-ready :
    (n depth : ℕ) (is_sync : Bool) (s t : Parser)
    → is_empty s.buffer ≡ false
    → get_next_raw_message is_sync s ≡ ready t
    → rounds (suc n) depth is_sync s
      ≡ after_parse (rounds n depth is_sync) t (parse is_sync depth t.raw_message_buffer)
unfolding rounds after_next
rounds-ready n depth is_sync s t e g = rw (rounds, e, g) refl

pub is_empty-append_cons : (s : Bytes) (c : ℕ) (r : Bytes) → is_empty (s ++ c ∷ r) ≡ false
unfolding is_empty
is_empty-append_cons [] c r = refl
is_empty-append_cons (d ∷ s) c r = refl

-- A raw message in front of others
append-snoc : (p : List Bytes) (r : Bytes) (q : List Bytes) → (p ++ r ∷ []) ++ q ≡ p ++ r ∷ q
append-snoc p r q = append_assoc p (r ∷ []) q

-- One raw message read, where others of the message are still to come
rounds-part :
    (n depth : ℕ) (s t : Parser) (p : List Bytes) (r q : Bytes) (qs tail : List Bytes) (m : Message)
    → is_empty s.buffer ≡ false
    → get_next_raw_message false s ≡ ready t
    → t.raw_message_buffer ≡ p ++ r ∷ []
    → tail ≡ q ∷ qs
    → parse false depth (p ++ r ∷ tail) ≡ done m []
    → rounds (suc n) depth false s ≡ rounds n depth false t
unfolding after_parse
rounds-part n depth s t p r q qs tail m e g b u h =
    let whole : parse false depth ((p ++ r ∷ []) ++ q ∷ qs) ≡ done m [] =
      ap (parse false depth) (append-snoc p r (q ∷ qs) ∙ ap (λ l. p ++ r ∷ l) (sym u)) ∙ h in
    rounds-ready n depth false s t e g
    ∙ rw (b, parse_part false depth (p ++ r ∷ []) q qs m whole) refl

-- The last raw message read
rounds-last :
    (n depth : ℕ) (s : Parser) (p : List Bytes) (r rest : Bytes) (m : Message)
    → is_empty s.buffer ≡ false
    → get_next_raw_message false s ≡ ready (holding rest (p ++ r ∷ []))
    → parse false depth (p ++ r ∷ []) ≡ done m []
    → rounds (suc n) depth false s ≡ got m (holding rest [])
unfolding after_parse
rounds-last n depth s p r rest m e g h =
    rounds-ready n depth false s (holding rest (p ++ r ∷ [])) e g ∙ rw h refl

abbrev pub count_rounds : List Chunk → ℕ
count_rounds [] = 0
count_rounds (line c s ∷ cs) = suc (count_rounds cs)
count_rounds (counted s ∷ cs) = suc (suc (count_rounds cs))

-- The first raw message of a chunk, and those behind it
abbrev first : Chunk → Bytes
first (line c s) = c ∷ s
first (counted s) = b'$' ∷ decimal (length s)

abbrev others : Chunk → List Chunk → List Bytes
others (line c s) cs = raws cs
others (counted s) cs = s ∷ raws cs

raws-first : (c : Chunk) (cs : List Chunk) → raws (c ∷ cs) ≡ first c ∷ others c cs
raws-first (line c s) cs = refl
raws-first (counted s) cs = refl

-- The text of chunks that are those of one message is read as this message.
pub rounds-chunks :
    (c : Chunk) (cs : List Chunk) (n k depth : ℕ) (p : List Bytes) (rest : Bytes) (m : Message)
    → k ≡ count_rounds (c ∷ cs) + n
    → All IsChunk (c ∷ cs)
    → parse false depth (p ++ raws (c ∷ cs)) ≡ done m []
    → rounds k depth false (holding (print_onto (c ∷ cs) rest) p) ≡ got m (holding rest [])
rounds-chunks (line t s) cs n zero depth p rest m u h e = absurd (omega arith)
rounds-chunks (line t s) [] n (suc k) depth p rest m u h e =
    rounds-last k depth (holding (print_onto (line t s ∷ []) rest) p) p (t ∷ s) rest m
      (is_empty-append_cons [] t _) (get_next-line false t s rest p h.0) e
rounds-chunks (line t s) (c ∷ cs) n (suc k) depth p rest m u h e =
    rounds-part k depth (holding (print_onto (line t s ∷ c ∷ cs) rest) p) _ p (t ∷ s) (first c)
      (others c cs) (raws (c ∷ cs)) m (is_empty-append_cons [] t _)
      (get_next-line false t s (print_onto (c ∷ cs) rest) p h.0) refl (raws-first c cs) e
    ∙ rounds-chunks c cs n k depth (p ++ (t ∷ s) ∷ []) rest m (omega arith) h.1
        (ap (parse false depth) (append-snoc p (t ∷ s) (raws (c ∷ cs))) ∙ e)
rounds-chunks (counted s) cs n zero depth p rest m u h e = absurd (omega arith)
rounds-chunks (counted s) cs n (suc zero) depth p rest m u h e = absurd (omega arith)
rounds-chunks (counted s) [] n (suc (suc k)) depth p rest m u h e =
    rounds-part (suc k) depth (holding (print_onto (counted s ∷ []) rest) p) _ p (first (counted s))
      s [] (s ∷ []) m (is_empty-append_cons [] b'$' _)
      (get_next-header false s (s ++ 13 ∷ 10 ∷ rest) p h.0) refl refl e
    ∙ rounds-last k depth (expecting (s ++ 13 ∷ 10 ∷ rest) (p ++ first (counted s) ∷ []) (length s))
        (p ++ first (counted s) ∷ []) s rest m (is_empty-append_cons s 13 _)
        (get_next-contents s rest (p ++ first (counted s) ∷ []) h.0)
        (ap (parse false depth) (append-snoc p (first (counted s)) (s ∷ [])) ∙ e)
rounds-chunks (counted s) (c ∷ cs) n (suc (suc k)) depth p rest m u h e =
    let tail = print_onto (c ∷ cs) rest in
    let p' = p ++ first (counted s) ∷ [] in
    let e' : parse false depth (p' ++ s ∷ raws (c ∷ cs)) ≡ done m [] =
      ap (parse false depth) (append-snoc p (first (counted s)) (s ∷ raws (c ∷ cs))) ∙ e in
    rounds-part (suc k) depth (holding (print_onto (counted s ∷ c ∷ cs) rest) p) _ p
      (first (counted s)) s (raws (c ∷ cs)) (s ∷ raws (c ∷ cs)) m (is_empty-append_cons [] b'$' _)
      (get_next-header false s (s ++ 13 ∷ 10 ∷ tail) p h.0) refl refl e
    ∙ rounds-part k depth (expecting (s ++ 13 ∷ 10 ∷ tail) p' (length s)) _ p' s (first c)
        (others c cs) (raws (c ∷ cs)) m (is_empty-append_cons s 13 _)
        (get_next-contents s tail p' h.0) refl (raws-first c cs) e'
    ∙ rounds-chunks c cs n k depth (p' ++ s ∷ []) rest m (omega arith) h.1
        (ap (parse false depth) (append-snoc p' s (raws (c ∷ cs))) ∙ e')
