-- ===== src/Message.antt =====
-- Message of src/message.h and src/message.cpp: a value of the RESP protocol. The variant that the
-- source keeps beside the type is the one that the type calls for.
use build_your_own_redis.Prelude.{ℕ, suc, List, [], ◌∷◌, ◌++◌, length}
use build_your_own_redis.Text.{Bytes, text}
use build_your_own_redis.Text.Decimal.{ℤ, decimal, decimal_int}

mutual
  pub data Message : Type 0 where
    undefined_type any leave : Message
    simple_string simple_error bulk_string sync_response : Bytes → Message
    integer : ℤ → Message
    array : Messages → Message

  pub data Messages : Type 0 where
    nil : Messages
    cons : Message → Messages → Messages

-- The elements of an array, as a list and back.
unfoldable pub to_list : Messages → List Message
to_list nil = []
to_list (cons m ms) = m ∷ to_list ms

unfoldable pub from_list : List Message → Messages
from_list [] = nil
from_list (m ∷ ms) = cons m (from_list ms)

unfoldable pub size : Messages → ℕ
size nil = 0
size (cons m ms) = suc (size ms)

abbrev pub crlf : Bytes
crlf = 13 ∷ 10 ∷ []

-- The size and the contents, each with its end of line; the empty string is printed as the null one.
unfoldable pub print_bulk : Bytes → Bytes
print_bulk [] = text "$-1" ++ crlf
print_bulk (c ∷ s) = b'$' ∷ (decimal (length (c ∷ s)) ++ (crlf ++ ((c ∷ s) ++ crlf)))

unfoldable pub print_header : Messages → Bytes
unfolding size
print_header nil = text "*-1" ++ crlf
print_header (cons m ms) = b'*' ∷ (decimal (size (cons m ms)) ++ crlf)

-- Message::to_string
unfoldable mutual
  pub to_string : Message → Bytes
  to_string undefined_type = b'U' ∷ crlf
  to_string any = []
  to_string leave = []
  to_string (simple_string s) = b'+' ∷ (s ++ crlf)
  to_string (simple_error s) = b'-' ∷ (s ++ crlf)
  to_string (integer n) = b':' ∷ (decimal_int n ++ crlf)
  to_string (bulk_string s) = print_bulk s
  to_string (sync_response s) = b'$' ∷ (decimal (length s) ++ (crlf ++ s))
  to_string (array ms) = print_header ms ++ to_string_all ms

  pub to_string_all : Messages → Bytes
  to_string_all nil = []
  to_string_all (cons m ms) = to_string m ++ to_string_all ms

-- Message::size
unfoldable pub byte_size : Message → ℕ
unfolding to_string
byte_size m = length (to_string m)
