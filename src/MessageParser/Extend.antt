-- ===== src/MessageParser/Extend.antt =====
-- ParseHelper::parse (src/message_parser.cpp) with more raw messages behind those that it takes.
use mathlib.Core.List.{cons-ne-nil}
use build_your_own_redis.Prelude.{
  ℕ, zero, suc, ◌≡◌, ◌≢◌, refl, Bool, true, false, Option, none, some, List, [], ◌∷◌, ◌++◌, ◌==◌,
  if◌then◌else◌,
}
use build_your_own_redis.Text.{Bytes}
use build_your_own_redis.Text.Decimal.{ℤ, pos, negsuc, parse_int}
use build_your_own_redis.Message.{Message}
use build_your_own_redis.MessageParser.Raw.{
  Parsed, done, more, thrown, stuck, and_then, parse_elements, parse_integer, parse_contents,
  parse_array, parse_line, parse,
}

-- What a result becomes where more raw messages follow: only `more` may change.
abbrev pub Extends : {A : Type 0} → Parsed A → List Bytes → Parsed A → Type 0
Extends (done a rest) tail q = q ≡ done a (rest ++ tail)
Extends more tail q = Unit
Extends (thrown reason rest) tail q = q ≡ thrown reason (rest ++ tail)
Extends stuck tail q = q ≡ stuck

and_then-Extends :
    {A B : Type 0} (p q : Parsed A) (f : A → List Bytes → Parsed B) (tail : List Bytes)
    → Extends p tail q
    → ((a : A) (rest : List Bytes) → Extends (f a rest) tail (f a (rest ++ tail)))
    → Extends (and_then p f) tail (and_then q f)
and_then-Extends (done a rest) q f tail h k = rw h (k a rest)
and_then-Extends more q f tail h k = tt
and_then-Extends (thrown reason rest) q f tail h k = rw h refl
and_then-Extends stuck q f tail h k = rw h refl

parse_elements-Extends :
    (parse_next : List Bytes → Parsed Message) (n : ℕ) (raw tail : List Bytes)
    → ((r : List Bytes) → Extends (parse_next r) tail (parse_next (r ++ tail)))
    → Extends (parse_elements parse_next n raw) tail (parse_elements parse_next n (raw ++ tail))
unfolding parse_elements
parse_elements-Extends parse_next zero raw tail h = refl
parse_elements-Extends parse_next (suc n) raw tail h =
    and_then-Extends (parse_next raw) (parse_next (raw ++ tail)) _ tail (h raw) λ m rest.
      and_then-Extends (parse_elements parse_next n rest)
        (parse_elements parse_next n (rest ++ tail)) _ tail
        (parse_elements-Extends parse_next n rest tail h) (λ ms rest'. refl)

parse_array-Extends :
    (parse_next : List Bytes → Parsed Message) (line : Bytes) (o : Option ℤ) (raw tail : List Bytes)
    → ((r : List Bytes) → Extends (parse_next r) tail (parse_next (r ++ tail)))
    → Extends (parse_array parse_next line o raw) tail (parse_array parse_next line o (raw ++ tail))
unfolding parse_array
parse_array-Extends parse_next line none raw tail h = refl
parse_array-Extends parse_next line (some (negsuc n)) raw tail h = refl
parse_array-Extends parse_next line (some (pos n)) raw tail h =
    and_then-Extends (parse_elements parse_next n raw) (parse_elements parse_next n (raw ++ tail)) _
      tail (parse_elements-Extends parse_next n raw tail h) (λ ms rest. refl)

parse_integer-Extends :
    (line : Bytes) (o : Option ℤ) (raw tail : List Bytes)
    → Extends (parse_integer line o raw) tail (parse_integer line o (raw ++ tail))
unfolding parse_integer
parse_integer-Extends line none raw tail = refl
parse_integer-Extends line (some n) raw tail = refl

parse_contents-Extends :
    (is_sync : Bool) (line : Bytes) (o : Option ℤ) (raw tail : List Bytes)
    → Extends (parse_contents is_sync line o raw) tail (parse_contents is_sync line o (raw ++ tail))
unfolding parse_contents
parse_contents-Extends is_sync line none raw tail = refl
parse_contents-Extends is_sync line (some (negsuc zero)) raw tail = refl
parse_contents-Extends is_sync line (some (negsuc (suc n))) [] tail = tt
parse_contents-Extends is_sync line (some (negsuc (suc n))) (s ∷ raw) tail = refl
parse_contents-Extends is_sync line (some (pos n)) [] tail = tt
parse_contents-Extends is_sync line (some (pos n)) (s ∷ raw) tail = refl

if-Extends :
    {A : Type 0} (b : Bool) (p q p' q' : Parsed A) (tail : List Bytes)
    → Extends p tail p'
    → Extends q tail q'
    → Extends (if b then p else q) tail (if b then p' else q')
if-Extends true p q p' q' tail hp hq = hp
if-Extends false p q p' q' tail hp hq = hq

parse_line-Extends :
    (parse_next : List Bytes → Parsed Message) (is_sync : Bool) (line : Bytes)
    (raw tail : List Bytes)
    → ((r : List Bytes) → Extends (parse_next r) tail (parse_next (r ++ tail)))
    → Extends
        (parse_line parse_next is_sync line raw)
        tail
        (parse_line parse_next is_sync line (raw ++ tail))
unfolding parse_line
parse_line-Extends parse_next is_sync [] raw tail h = refl
parse_line-Extends parse_next is_sync (c ∷ s) raw tail h =
    if-Extends (c == b'+') _ _ _ _ tail refl (
      if-Extends (c == b'-') _ _ _ _ tail refl (
        if-Extends (c == b':') _ _ _ _ tail (parse_integer-Extends (c ∷ s) (parse_int s) raw tail) (
          if-Extends (c == b'$') _ _ _ _ tail
            (parse_contents-Extends is_sync (c ∷ s) (parse_int s) raw tail)
            (if-Extends (c == b'*') _ _ _ _ tail
              (parse_array-Extends parse_next (c ∷ s) (parse_int s) raw tail h) refl))))

-- A message, an exception or an exhausted depth stays what it is where more raw messages follow.
pub parse-Extends :
    (is_sync : Bool) (depth : ℕ) (raw tail : List Bytes)
    → Extends (parse is_sync depth raw) tail (parse is_sync depth (raw ++ tail))
unfolding parse
parse-Extends is_sync depth [] tail = tt
parse-Extends is_sync zero (line ∷ raw) tail = refl
parse-Extends is_sync (suc depth) (line ∷ raw) tail =
    parse_line-Extends (parse false depth) is_sync line raw tail
      (λ r. parse-Extends false depth r tail)

append-cons-ne-nil : (rest : List Bytes) (r : Bytes) (tail : List Bytes) → rest ++ r ∷ tail ≢ []
append-cons-ne-nil [] r tail = cons-ne-nil _ _
append-cons-ne-nil (x ∷ rest) r tail = cons-ne-nil _ _

Extends-more :
    {A : Type 0} (p q : Parsed A) (a : A) (r : Bytes) (tail : List Bytes)
    → Extends p (r ∷ tail) q
    → q ≡ done a []
    → p ≡ more
Extends-more (done b rest) q a r tail h e =
    let nothing_left : rest ++ r ∷ tail ≡ [] = cc in
    absurd (append-cons-ne-nil rest r tail nothing_left)
Extends-more more q a r tail h e = refl
Extends-more (thrown reason rest) q a r tail h e = cc
Extends-more stuck q a r tail h e = cc

-- Where the raw messages are just those of one message, a part of them gives no message yet.
pub parse_part :
    (is_sync : Bool) (depth : ℕ) (raw : List Bytes) (r : Bytes) (tail : List Bytes) (m : Message)
    → parse is_sync depth (raw ++ r ∷ tail) ≡ done m []
    → parse is_sync depth raw ≡ more
parse_part is_sync depth raw r tail m e =
    Extends-more (parse is_sync depth raw) _ m r tail (parse-Extends is_sync depth raw (r ∷ tail)) e
