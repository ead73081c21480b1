-- ===== src/MessageParser/Depth.antt =====
-- The depth of ParseHelper::parse and the rounds of MessageParser::try_parse (src/message_parser.cpp).
use build_your_own_redis.Prelude.{
  ℕ, zero, suc, ◌≤◌, Bool, true, false, Option, none, some, List, [], ◌∷◌, arith, length, ◌==◌,
  if◌then◌else◌,
}
use build_your_own_redis.Text.{Bytes}
use build_your_own_redis.Text.Decimal.{ℤ, pos, negsuc, parse_int}
use build_your_own_redis.Message.{Message}
use build_your_own_redis.MessageParser.Raw.{
  Parsed, done, more, thrown, stuck, and_then, parse_elements, parse_integer, parse_contents,
  parse_array, parse_line, parse,
}

-- The depth was enough, and at most n raw messages are left.
abbrev pub Leaves : {A : Type 0} → Parsed A → ℕ → Type 0
Leaves (done a rest) n = length rest ≤ n
Leaves more n = Unit
Leaves (thrown reason rest) n = length rest ≤ n
Leaves stuck n = ⊥

and_then-Leaves :
    {A B : Type 0} (p : Parsed A) (f : A → List Bytes → Parsed B) (n : ℕ)
    → Leaves p n
    → ((a : A) (rest : List Bytes) → length rest ≤ n → Leaves (f a rest) n)
    → Leaves (and_then p f) n
and_then-Leaves (done a rest) f n h k = k a rest h
and_then-Leaves more f n h k = tt
and_then-Leaves (thrown reason rest) f n h k = h
and_then-Leaves stuck f n h k = h

Leaves-le : {A : Type 0} (p : Parsed A) (m n : ℕ) → m ≤ n → Leaves p m → Leaves p n
Leaves-le (done a rest) m n le h = omega arith
Leaves-le more m n le h = tt
Leaves-le (thrown reason rest) m n le h = omega arith
Leaves-le stuck m n le h = h

parse_elements-Leaves :
    (parse_next : List Bytes → Parsed Message) (depth n : ℕ) (raw : List Bytes)
    → ((r : List Bytes) → length r ≤ depth → Leaves (parse_next r) (length r))
    → length raw ≤ depth
    → Leaves (parse_elements parse_next n raw) (length raw)
unfolding parse_elements
parse_elements-Leaves parse_next depth zero raw h le = omega arith
parse_elements-Leaves parse_next depth (suc n) raw h le =
    and_then-Leaves (parse_next raw) _ (length raw) (h raw le) λ m rest le_rest.
      and_then-Leaves (parse_elements parse_next n rest) _ (length raw)
        (Leaves-le (parse_elements parse_next n rest) (length rest) (length raw) le_rest
          (parse_elements-Leaves parse_next depth n rest h (omega arith)))
        (λ ms rest' le'. le')

parse_array-Leaves :
    (parse_next : List Bytes → Parsed Message) (depth : ℕ) (line : Bytes) (o : Option ℤ)
    (raw : List Bytes)
    → ((r : List Bytes) → length r ≤ depth → Leaves (parse_next r) (length r))
    → length raw ≤ depth
    → Leaves (parse_array parse_next line o raw) (length raw)
unfolding parse_array
parse_array-Leaves parse_next depth line none raw h le = omega arith
parse_array-Leaves parse_next depth line (some (negsuc n)) raw h le = omega arith
parse_array-Leaves parse_next depth line (some (pos n)) raw h le =
    and_then-Leaves (parse_elements parse_next n raw) _ (length raw)
      (parse_elements-Leaves parse_next depth n raw h le) (λ ms rest le'. le')

parse_integer-Leaves :
    (line : Bytes) (o : Option ℤ) (raw : List Bytes)
    → Leaves (parse_integer line o raw) (length raw)
unfolding parse_integer
parse_integer-Leaves line none raw = omega arith
parse_integer-Leaves line (some n) raw = omega arith

parse_contents-Leaves :
    (is_sync : Bool) (line : Bytes) (o : Option ℤ) (raw : List Bytes)
    → Leaves (parse_contents is_sync line o raw) (length raw)
unfolding parse_contents
parse_contents-Leaves is_sync line none raw = omega arith
parse_contents-Leaves is_sync line (some (negsuc zero)) raw = omega arith
parse_contents-Leaves is_sync line (some (negsuc (suc n))) [] = tt
parse_contents-Leaves is_sync line (some (negsuc (suc n))) (s ∷ raw) = omega arith
parse_contents-Leaves is_sync line (some (pos n)) [] = tt
parse_contents-Leaves is_sync line (some (pos n)) (s ∷ raw) = omega arith

-- A test between two results that both leave at most n.
if-Leaves :
    {A : Type 0} (b : Bool) (p q : Parsed A) (n : ℕ)
    → Leaves p n
    → Leaves q n
    → Leaves (if b then p else q) n
if-Leaves true p q n hp hq = hp
if-Leaves false p q n hp hq = hq

parse_line-Leaves :
    (parse_next : List Bytes → Parsed Message) (depth : ℕ) (is_sync : Bool) (line : Bytes)
    (raw : List Bytes)
    → ((r : List Bytes) → length r ≤ depth → Leaves (parse_next r) (length r))
    → length raw ≤ depth
    → Leaves (parse_line parse_next is_sync line raw) (length raw)
unfolding parse_line
parse_line-Leaves parse_next depth is_sync [] raw h le = omega arith
parse_line-Leaves parse_next depth is_sync (c ∷ s) raw h le =
    if-Leaves (c == b'+') _ _ (length raw) (omega arith) (
      if-Leaves (c == b'-') _ _ (length raw) (omega arith) (
        if-Leaves (c == b':') _ _ (length raw) (parse_integer-Leaves (c ∷ s) (parse_int s) raw) (
          if-Leaves (c == b'$') _ _ (length raw)
            (parse_contents-Leaves is_sync (c ∷ s) (parse_int s) raw)
            (if-Leaves (c == b'*') _ _ (length raw)
              (parse_array-Leaves parse_next depth (c ∷ s) (parse_int s) raw h le) (omega arith)))))

-- With a depth of at least the number of raw messages the recursion does not run out, and what is
-- left is at most what was there.
pub parse-Leaves :
    (is_sync : Bool) (depth : ℕ) (raw : List Bytes)
    → length raw ≤ depth
    → Leaves (parse is_sync depth raw) (length raw)
unfolding parse
parse-Leaves is_sync depth [] le = tt
parse-Leaves is_sync zero (line ∷ raw) le = absurd (omega arith)
parse-Leaves is_sync (suc depth) (line ∷ raw) le =
    Leaves-le (parse_line (parse false depth) is_sync line raw) (length raw) (suc (length raw))
      (omega arith)
      (parse_line-Leaves (parse false depth) depth is_sync line raw (parse-Leaves false depth)
        (omega arith))
