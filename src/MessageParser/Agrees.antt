-- ===== src/MessageParser/Agrees.antt =====
-- The helper of src/message_parser.cpp with its stack does what the parser of raw messages does.
use mathlib.Core.Path.{subst}
use build_your_own_redis.Prelude.{
  ℕ, zero, suc, ◌≡◌, refl, Bool, false, Option, none, some, List, [], ◌∷◌, ◌==◌, Bool-cases, inl,
  inr,
}
use build_your_own_redis.Text.{Bytes}
use build_your_own_redis.Text.Decimal.{ℤ, pos, negsuc, parse_int}
use build_your_own_redis.Message.{Message}
use build_your_own_redis.MessageParser.Raw.{
  Parsed, done, more, thrown, stuck, and_then, parse_elements, parse_integer, parse_contents,
  parse_array, parse_line,
}
use build_your_own_redis.MessageParser.Raw
use build_your_own_redis.MessageParser.Helper.{
  ParseHelper, Got, got, nothing, threw, too_deep, unwind, and_got, put_back, get_elements,
  get_integer, get_contents, get_array, get_line,
}
use build_your_own_redis.MessageParser.Helper

abbrev pub with_stack : List Bytes → List Bytes → ParseHelper
with_stack raw stack = record { buffer = raw; unget_stack = stack }

-- The same value or exception with the same queue, where what was taken is on the stack for a value; and
-- where a message is incomplete, all of the queue again and an empty stack
abbrev pub Agrees : {A : Type 0} → Parsed A → List Bytes → Got A → Type 0
Agrees (done a rest) whole g =
    (stack : List Bytes) × (g ≡ got a (with_stack rest stack)) × (unwind rest stack ≡ whole)
Agrees more whole g = g ≡ nothing (with_stack whole [])
Agrees (thrown reason rest) whole g =
    (stack : List Bytes) × (g ≡ threw reason (with_stack rest stack))
Agrees stuck whole g = g ≡ too_deep

and_got-Agrees :
    {A B : Type 0} (p : Parsed A) (whole : List Bytes) (g : Got A) (f : A → List Bytes → Parsed B)
    (k : A → ParseHelper → Got B)
    → Agrees p whole g
    → ((a : A) (rest stack : List Bytes)
        → unwind rest stack ≡ whole
        → Agrees (f a rest) whole (k a (with_stack rest stack)))
    → Agrees (and_then p f) whole (and_got g k)
and_got-Agrees (done a rest) whole g f k (stack, e, w) next = rw e (next a rest stack w)
and_got-Agrees more whole g f k e next = rw e refl
and_got-Agrees (thrown reason rest) whole g f k (stack, e) next = (stack, rw e refl)
and_got-Agrees stuck whole g f k e next = rw e refl

put_back-Agrees :
    {A : Type 0} (p : Parsed A) (whole : List Bytes) (g : Got A)
    → Agrees p whole g
    → Agrees p whole (put_back g)
put_back-Agrees (done a rest) whole g (stack, e, w) = (stack, rw e refl, w)
put_back-Agrees more whole g e = rw e refl
put_back-Agrees (thrown reason rest) whole g (stack, e) = (stack, rw e refl)
put_back-Agrees stuck whole g e = rw e refl

-- The elements of an array, where the helper for one agrees
module _ (parse_next : List Bytes → Parsed Message) (get_next : ParseHelper → Got Message)
    (at_end : parse_next [] ≡ more)
    (got_end : (stack : List Bytes)
      → get_next (with_stack [] stack) ≡ nothing (with_stack [] stack))
    (agrees : (line : Bytes) (raw stack : List Bytes)
      → Agrees
          (parse_next (line ∷ raw))
          (unwind (line ∷ raw) stack)
          (get_next (with_stack (line ∷ raw) stack))) where
  next-Agrees :
      (raw stack : List Bytes)
      → Agrees (parse_next raw) (unwind raw stack) (put_back (get_next (with_stack raw stack)))
  next-Agrees [] stack = rw (at_end, got_end stack) refl
  next-Agrees (line ∷ raw) stack = put_back-Agrees _ _ _ (agrees line raw stack)

  elements-Agrees :
      (n : ℕ) (raw stack whole : List Bytes)
      → unwind raw stack ≡ whole
      → Agrees
          (parse_elements parse_next n raw)
          whole
          (get_elements get_next n (with_stack raw stack))
  unfolding parse_elements get_elements
  elements-Agrees zero raw stack whole w = (stack, refl, w)
  elements-Agrees (suc n) raw stack whole w =
      and_got-Agrees (parse_next raw) whole _ _ _
        (subst (λ all. Agrees (parse_next raw) all (put_back (get_next (with_stack raw stack)))) w
          (next-Agrees raw stack))
        λ m rest stack' w'.
          and_got-Agrees (parse_elements parse_next n rest) whole _ _ _
            (elements-Agrees n rest stack' whole w') λ ms rest' stack'' w''. (stack'', refl, w'')

  integer-Agrees :
      (line : Bytes) (n : Option ℤ) (raw stack : List Bytes)
      → Agrees
          (parse_integer line n raw)
          (unwind raw stack)
          (get_integer line n (with_stack raw stack))
  unfolding parse_integer get_integer
  integer-Agrees line none raw stack = (stack, refl)
  integer-Agrees line (some n) raw stack = (stack, refl, refl)

  contents-Agrees :
      (is_sync : Bool) (line : Bytes) (n : Option ℤ) (raw stack : List Bytes)
      → Agrees
          (parse_contents is_sync line n raw)
          (unwind raw stack)
          (get_contents is_sync line n (with_stack raw stack))
  unfolding parse_contents get_contents
  contents-Agrees is_sync line none raw stack = (stack, refl)
  contents-Agrees is_sync line (some (negsuc zero)) raw stack = (stack, refl, refl)
  contents-Agrees is_sync line (some (negsuc (suc n))) [] stack = refl
  contents-Agrees is_sync line (some (negsuc (suc n))) (s ∷ raw) stack = (s ∷ stack, refl, refl)
  contents-Agrees is_sync line (some (pos n)) [] stack = refl
  contents-Agrees is_sync line (some (pos n)) (s ∷ raw) stack = (s ∷ stack, refl, refl)

  array-Agrees :
      (line : Bytes) (n : Option ℤ) (raw stack : List Bytes)
      → Agrees
          (parse_array parse_next line n raw)
          (unwind raw stack)
          (get_array get_next line n (with_stack raw stack))
  unfolding parse_array get_array
  array-Agrees line none raw stack = (stack, refl)
  array-Agrees line (some (negsuc n)) raw stack = (stack, refl, refl)
  array-Agrees line (some (pos n)) raw stack =
      and_got-Agrees (parse_elements parse_next n raw) (unwind raw stack) _ _ _
        (elements-Agrees n raw stack _ refl) λ ms rest stack' w. (stack', refl, w)

  line-Agrees :
      (is_sync : Bool) (line : Bytes) (raw stack : List Bytes)
      → Agrees
          (parse_line parse_next is_sync line raw)
          (unwind raw stack)
          (get_line get_next is_sync line (with_stack raw stack))
  unfolding parse_line get_line
  line-Agrees is_sync [] raw stack = (stack, refl)
  line-Agrees is_sync (c ∷ s) raw stack = elim (Bool-cases (c == b'+')) [
    | inl e ↦ rw e (stack, refl, refl)
    | inr e1 ↦ elim (Bool-cases (c == b'-')) [
      | inl e ↦ rw (e1, e) (stack, refl, refl)
      | inr e2 ↦ elim (Bool-cases (c == b':')) [
        | inl e ↦ rw (e1, e2, e) (integer-Agrees (c ∷ s) (parse_int s) raw stack)
        | inr e3 ↦ elim (Bool-cases (c == b'$')) [
          | inl e ↦ rw (e1, e2, e3, e) (contents-Agrees is_sync (c ∷ s) (parse_int s) raw stack)
          | inr e4 ↦ elim (Bool-cases (c == b'*')) [
            | inl e ↦ rw (e1, e2, e3, e4, e) (array-Agrees (c ∷ s) (parse_int s) raw stack)
            | inr e ↦ rw (e1, e2, e3, e4, e) (stack, refl)
          ]
        ]
      ]
    ]
  ]

line-parse-Agrees :
    (depth : ℕ) (is_sync : Bool) (line : Bytes) (raw stack : List Bytes)
    → Agrees
        (Raw.parse is_sync depth (line ∷ raw))
        (unwind (line ∷ raw) stack)
        (Helper.parse is_sync depth (line ∷ raw) stack)
unfolding Raw.parse Helper.parse
line-parse-Agrees zero is_sync line raw stack = refl
line-parse-Agrees (suc depth) is_sync line raw stack =
    line-Agrees (Raw.parse false depth) (λ h. Helper.parse false depth h.buffer h.unget_stack)
      (unfold Raw.parse in refl) (λ st. unfold Helper.parse in refl)
      (λ l r st. line-parse-Agrees depth false l r st) is_sync line raw (line ∷ stack)

-- With its stack empty at the start, ParseHelper::parse gives the message that the parser of raw messages
-- gives, with the same queue behind it and all that was taken on the stack; throws the same exception with
-- the same queue left; and where a message is incomplete, at any depth of arrays, leaves the whole queue
-- as it was and the stack empty, so that the next round of try_parse starts from it again.
pub parse-Agrees :
    (is_sync : Bool) (depth : ℕ) (raw : List Bytes)
    → Agrees (Raw.parse is_sync depth raw) raw (Helper.parse is_sync depth raw [])
unfolding Raw.parse Helper.parse
parse-Agrees is_sync depth [] = refl
parse-Agrees is_sync depth (line ∷ raw) = line-parse-Agrees depth is_sync line raw []
