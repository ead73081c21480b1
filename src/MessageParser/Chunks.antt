-- ===== src/MessageParser/Chunks.antt =====
-- The raw messages that Message::to_string (src/message.cpp) prints a message as.
use build_your_own_redis.Prelude.{
  suc, ◌^◌, ◌≤◌, ◌<◌, ◌≡◌, ◌≢◌, refl, ap, List, [], ◌∷◌, ◌++◌, arith, length, length-append, All,
}
use build_your_own_redis.Text.{Bytes, text}
use build_your_own_redis.Text.Decimal.{decimal, decimal_int}
use build_your_own_redis.Text.Decimal.RoundTrip.{IsInt}
use build_your_own_redis.Message.{
  Message, Messages, simple_string, simple_error, integer, bulk_string, array, nil, cons, size,
}
use build_your_own_redis.MessageParser.Rounds.{Chunk, line, counted, raws, print_onto, count_rounds}

-- What a message must hold for its text to bring it across: lines without a carriage return, an
-- `int`, sizes that are an `int`, and no empty bulk string.
unfoldable mutual
  pub IsSendable : Message → Type 0
  IsSendable (simple_string s) = All (λ c. c ≢ 13) s
  IsSendable (simple_error s) = All (λ c. c ≢ 13) s
  IsSendable (integer n) = IsInt n
  IsSendable (bulk_string s) = (s ≢ []) × (length s < 2 ^ 31)
  IsSendable (array ms) = (size ms < 2 ^ 31) × AreSendable ms
  IsSendable _ = ⊥

  pub AreSendable : Messages → Type 0
  AreSendable nil = Unit
  AreSendable (cons m ms) = IsSendable m × AreSendable ms

-- The line behind the type of an array
unfoldable pub header : Messages → Bytes
header nil = text "-1"
header (cons m ms) = decimal (size (cons m ms))

unfoldable mutual
  pub chunks : Message → List Chunk
  chunks (simple_string s) = line b'+' s ∷ []
  chunks (simple_error s) = line b'-' s ∷ []
  chunks (integer n) = line b':' (decimal_int n) ∷ []
  chunks (bulk_string s) = counted s ∷ []
  chunks (array ms) = line b'*' (header ms) ∷ chunks_all ms
  chunks _ = []

  pub chunks_all : Messages → List Chunk
  chunks_all nil = []
  chunks_all (cons m ms) = chunks m ++ chunks_all ms

pub raws-append : (cs ds : List Chunk) → raws (cs ++ ds) ≡ raws cs ++ raws ds
raws-append [] ds = refl
raws-append (line c s ∷ cs) ds = ap (λ l. (c ∷ s) ∷ l) (raws-append cs ds)
raws-append (counted s ∷ cs) ds = ap (λ l. (b'$' ∷ decimal (length s)) ∷ s ∷ l) (raws-append cs ds)

pub print_onto-append :
    (cs ds : List Chunk) (rest : Bytes)
    → print_onto (cs ++ ds) rest ≡ print_onto cs (print_onto ds rest)
print_onto-append [] ds rest = refl
print_onto-append (line c s ∷ cs) ds rest =
    ap (λ l. c ∷ (s ++ 13 ∷ 10 ∷ l)) (print_onto-append cs ds rest)
print_onto-append (counted s ∷ cs) ds rest =
    ap (λ l. b'$' ∷ (decimal (length s) ++ 13 ∷ 10 ∷ (s ++ 13 ∷ 10 ∷ l)))
      (print_onto-append cs ds rest)

pub count_rounds-le :
    (cs : List Chunk) (rest : Bytes) → count_rounds cs ≤ length (print_onto cs rest)
count_rounds-le [] rest = omega arith
count_rounds-le (line c s ∷ cs) rest =
    omega (arith, length-append s (13 ∷ 10 ∷ print_onto cs rest), count_rounds-le cs rest)
count_rounds-le (counted s ∷ cs) rest = omega (
  arith,
  length-append (decimal (length s)) (13 ∷ 10 ∷ (s ++ 13 ∷ 10 ∷ print_onto cs rest)),
  length-append s (13 ∷ 10 ∷ print_onto cs rest),
  count_rounds-le cs rest,
)

pub length-raws : (cs : List Chunk) → length (raws cs) ≡ count_rounds cs
length-raws [] = refl
length-raws (line c s ∷ cs) = ap suc (length-raws cs)
length-raws (counted s ∷ cs) = ap (λ n. suc (suc n)) (length-raws cs)
