-- ===== src/RdbParser/Leaves.antt =====
-- What the functions of src/rdb_parser.cpp that read leave of the stream.
use build_your_own_redis.Prelude.{
  length-drop, ℕ, suc, ◌/◌, ◌%◌, ◌≤◌, Bool, true, false, [], ◌∷◌, arith, ltb, ◌==◌, if◌then◌else◌,
  length, Bool-cases, inl, inr,
}
use build_your_own_redis.Text.{Bytes}
use build_your_own_redis.Outcome.{Outcome, ok, err, undefined, ◌>>=◌}
use build_your_own_redis.RdbParser.{
  op_code, LengthType, length_type, special_type, parse_string, parse_uint8, parse_unsigned,
  parse_signed, parse_op_code, length_encoding, shifted, string_of, to_text, parse_length_encoding,
  parse_string_encoded, parse_pair,
}

-- At most n bytes are left behind what is read.
abbrev pub Leaves : {A : Type 0} → ℕ → Outcome (A × Bytes) → Type 0
Leaves n (ok r) = length r.1 ≤ n
Leaves n (err reason) = Unit
Leaves n undefined = Unit

pub >>=-Leaves :
    {A B : Type 0} (n m : ℕ) (o : Outcome (A × Bytes)) (f : A × Bytes → Outcome (B × Bytes))
    → Leaves n o
    → ((r : A × Bytes) → length r.1 ≤ n → Leaves m (f r))
    → Leaves m (o >>= f)
>>=-Leaves n m (ok r) f h k = k r h
>>=-Leaves n m (err reason) f h k = tt
>>=-Leaves n m undefined f h k = tt

-- A value that is made of what is read
pub >>=-Leaves_same :
    {A B : Type 0} (n : ℕ) (r : Outcome A) (from : Bytes) (f : A → B)
    → length from ≤ n
    → Leaves n (r >>= λ a. ok (f a, from))
>>=-Leaves_same n (ok a) from f h = h
>>=-Leaves_same n (err reason) from f h = tt
>>=-Leaves_same n undefined from f h = tt

pub parse_uint8-Leaves : (n : ℕ) (b : Bytes) → length b ≤ suc n → Leaves n (parse_uint8 b)
unfolding parse_uint8
parse_uint8-Leaves n [] h = tt
parse_uint8-Leaves n (c ∷ b) h = omega arith

pub parse_string-Leaves : (n k : ℕ) (b : Bytes) → length b ≤ n → Leaves n (parse_string k b)
unfolding parse_string
parse_string-Leaves n k b h = elim (Bool-cases (ltb (length b) k)) [
  | inl e ↦ rw e tt
  | inr e ↦ rw e (omega (arith, length-drop k b))
]

pub parse_unsigned-Leaves : (n k : ℕ) (b : Bytes) → length b ≤ n → Leaves n (parse_unsigned k b)
unfolding parse_unsigned
parse_unsigned-Leaves n k b h =
    >>=-Leaves n n (parse_string k b) _ (parse_string-Leaves n k b h) λ r l. l

to_text-Leaves : (n k : ℕ) (b : Bytes) → length b ≤ n → Leaves n (to_text (parse_signed k b))
unfolding parse_signed
to_text-Leaves n k b h =
    >>=-Leaves n n (parse_signed k b) _
      (>>=-Leaves n n (parse_unsigned k b) _ (parse_unsigned-Leaves n k b h) λ r l. l) λ r l. l

-- A test between two outcomes
if-Leaves :
    {A : Type 0} (n : ℕ) (t : Bool) (o p : Outcome (A × Bytes))
    → Leaves n o
    → Leaves n p
    → Leaves n (if t then o else p)
if-Leaves n true o p h k = h
if-Leaves n false o p h k = k

length_encoding-Leaves :
    (n top low : ℕ) (b : Bytes) → length b ≤ n → Leaves n (length_encoding top low b)
unfolding length_encoding
length_encoding-Leaves n top low b h = if-Leaves n (top == 0) _ _ h (
    if-Leaves n (top == 1) _ _
      (>>=-Leaves n n (parse_uint8 b) _ (parse_uint8-Leaves n b (omega arith))
        λ r l. >>=-Leaves_same n (shifted low r.0) r.1 _ l)
      (if-Leaves n (top == 2) _ _
        (>>=-Leaves n n (parse_unsigned 4 b) _ (parse_unsigned-Leaves n 4 b h) λ r l. l) h))

pub parse_length_encoding-Leaves :
    (n : ℕ) (b : Bytes) → length b ≤ n → Leaves n (parse_length_encoding b)
unfolding parse_length_encoding
parse_length_encoding-Leaves n b h =
    >>=-Leaves n n (parse_uint8 b) _ (parse_uint8-Leaves n b (omega arith))
      λ r l. length_encoding-Leaves n (r.0 / 64 % 4) (r.0 % 64) r.1 l

string_of-Leaves :
    (n : ℕ) (k : LengthType) (size special : ℕ) (b : Bytes)
    → length b ≤ n
    → Leaves n (string_of k size special b)
unfolding string_of
string_of-Leaves n length_type size special b h = parse_string-Leaves n size b h
string_of-Leaves n special_type size special b h =
    if-Leaves n (special == 0) _ _ (to_text-Leaves n 1 b h) (
      if-Leaves n (special == 1) _ _ (to_text-Leaves n 2 b h)
        (if-Leaves n (special == 2) _ _ (to_text-Leaves n 4 b h) tt))

parse_string_encoded-Leaves : (n : ℕ) (b : Bytes) → length b ≤ n → Leaves n (parse_string_encoded b)
unfolding parse_string_encoded
parse_string_encoded-Leaves n b h =
    >>=-Leaves n n (parse_length_encoding b) _ (parse_length_encoding-Leaves n b h)
      λ r l. string_of-Leaves n r.0.kind r.0.size r.0.special r.1 l

pub parse_pair-Leaves : (n : ℕ) (b : Bytes) → length b ≤ n → Leaves n (parse_pair b)
unfolding parse_pair
parse_pair-Leaves n b h =
    >>=-Leaves n n (parse_string_encoded b) _ (parse_string_encoded-Leaves n b h) λ k l.
      >>=-Leaves n n (parse_string_encoded k.1) _ (parse_string_encoded-Leaves n k.1 l) λ v l'. l'

pub parse_op_code-Leaves : (n : ℕ) (b : Bytes) → length b ≤ suc n → Leaves n (parse_op_code b)
unfolding parse_op_code
parse_op_code-Leaves n b h =
    >>=-Leaves n n (parse_uint8 b) _ (parse_uint8-Leaves n b h)
      λ r l. >>=-Leaves_same n (op_code r.0) r.1 _ l
