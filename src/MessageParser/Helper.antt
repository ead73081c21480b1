-- ===== src/MessageParser/Helper.antt =====
-- ParseHelper of src/message_parser.cpp with its stack: what it takes from the queue of raw messages is
-- kept, and put back where a message is incomplete.
use build_your_own_redis.Prelude.{
  ℕ, zero, suc, Bool, false, Option, none, some, List, [], ◌∷◌, ◌++◌, ◌==◌, if◌then◌else◌,
}
use build_your_own_redis.Text.{Bytes, text}
use build_your_own_redis.Text.Decimal.{ℤ, pos, negsuc, parse_int}
use build_your_own_redis.Message.{
  Message, Messages, simple_string, simple_error, integer, array, nil, cons,
}
use build_your_own_redis.MessageParser.Raw.{bulk}

-- ParseHelper; the last raw message that was taken is the first of the stack.
pub record ParseHelper : Type 0 where
  pub buffer : List Bytes
  pub unget_stack : List Bytes

-- A value, none, or an exception, each with the helper then; `too_deep` is no outcome of the source, its
-- recursion ran out of depth.
pub data Got (A : Type 0) : Type 0 where
  got : A → ParseHelper → Got A
  nothing : ParseHelper → Got A
  threw : Bytes → ParseHelper → Got A
  too_deep : Got A

-- The loop of ParseHelper::unget_all
abbrev pub unwind : List Bytes → List Bytes → List Bytes
unwind buffer [] = buffer
unwind buffer (line ∷ stack) = unwind (line ∷ buffer) stack

abbrev pub unget_all : ParseHelper → ParseHelper
unget_all h = record { buffer = unwind h.buffer h.unget_stack; unget_stack = [] }

abbrev pub and_got : {A B : Type 0} → Got A → (A → ParseHelper → Got B) → Got B
and_got (got a h) f = f a h
and_got (nothing h) f = nothing h
and_got (threw reason h) f = threw reason h
and_got too_deep f = too_deep

-- `if (!element) { this->unget_all(); return {}; }`
abbrev pub put_back : {A : Type 0} → Got A → Got A
put_back (got a h) = got a h
put_back (nothing h) = nothing (unget_all h)
put_back (threw reason h) = threw reason h
put_back too_deep = too_deep

-- ParseHelper::get
abbrev pub taken : Bytes → List Bytes → List Bytes → ParseHelper
taken line raw stack = record { buffer = raw; unget_stack = line ∷ stack }

unfoldable pub get_elements : (ParseHelper → Got Message) → ℕ → ParseHelper → Got Messages
get_elements get_next zero h = got nil h
get_elements get_next (suc n) h =
    and_got (put_back (get_next h))
      λ m t. and_got (get_elements get_next n t) λ ms u. got (cons m ms) u

unfoldable pub get_integer : Bytes → Option ℤ → ParseHelper → Got Message
get_integer line (some n) h = got (integer n) h
get_integer line none h = threw (text "Malformed integer message: " ++ line) h

abbrev next_contents_of : Bool → List Bytes → ParseHelper → Got Message
next_contents_of is_sync [] h = nothing (unget_all h)
next_contents_of is_sync (s ∷ raw) h = got (bulk is_sync s) (taken s raw h.unget_stack)

unfoldable pub get_contents : Bool → Bytes → Option ℤ → ParseHelper → Got Message
get_contents is_sync line none h =
    threw (text "Malformed length for bulk string message: " ++ line) h
get_contents is_sync line (some (negsuc zero)) h = got (bulk is_sync []) h
get_contents is_sync line (some n) h = next_contents_of is_sync h.buffer h

unfoldable pub get_array :
    (ParseHelper → Got Message) → Bytes → Option ℤ → ParseHelper → Got Message
unfolding get_elements
get_array get_next line none h = threw (text "Malformed length for array message: " ++ line) h
get_array get_next line (some (negsuc n)) h = got (array nil) h
get_array get_next line (some (pos n)) h =
    and_got (get_elements get_next n h) λ ms t. got (array ms) t

unfoldable pub get_line : (ParseHelper → Got Message) → Bool → Bytes → ParseHelper → Got Message
unfolding get_integer get_contents get_array
get_line get_next is_sync [] h = threw (text "Unknown message type: ") h
get_line get_next is_sync (c ∷ s) h =
    if c == b'+'
    then got (simple_string s) h
    else if c == b'-'
    then got (simple_error s) h
    else if c == b':'
    then get_integer (c ∷ s) (parse_int s) h
    else if c == b'$'
    then get_contents is_sync (c ∷ s) (parse_int s) h
    else if c == b'*'
    then get_array get_next (c ∷ s) (parse_int s) h
    else threw (text "Unknown message type: " ++ c ∷ s) h

-- ParseHelper::parse
unfoldable pub parse : Bool → ℕ → List Bytes → List Bytes → Got Message
unfolding get_line
parse is_sync depth [] stack = nothing (record { buffer = []; unget_stack = stack })
parse is_sync zero (line ∷ raw) stack = too_deep
parse is_sync (suc depth) (line ∷ raw) stack =
    get_line (λ h. parse false depth h.buffer h.unget_stack) is_sync line (taken line raw stack)
