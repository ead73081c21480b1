-- ===== src/MessageParser/Shrinks.antt =====
-- A message that try_parse (src/message_parser.cpp) returns has taken something from the buffer.
use build_your_own_redis.Prelude.{
  ℕ, zero, suc, ◌*◌, ◌+◌, ◌<◌, Bool, Option, none, some, length, ◌≡◌, arith, refl, ap, Bool-cases,
  inl, inr,
}
use build_your_own_redis.Message.{Message}
use build_your_own_redis.MessageParser.Raw.{Parsed, done, more, thrown, stuck, parse}
use build_your_own_redis.MessageParser.Terminates.{
  expected_size, measure, Advances, get_next-Advances,
}
use build_your_own_redis.MessageParser.{
  Parser, Tried, got, nothing_yet, threw, undefined_read, exhausted, Next, ready, waits, fails,
  out_of_range, get_next_raw_message, after_parse, after_next, is_empty, rounds, enough, try_parse,
}

abbrev pub Shrinks : ℕ → Tried → Type 0
Shrinks n (got m t) = measure t < n
Shrinks n _ = Unit

Shrinks-lt : (k n : ℕ) (o : Tried) → k < n → Shrinks k o → Shrinks n o
Shrinks-lt k n (got m t) l h = omega (arith, l, h)
Shrinks-lt k n (nothing_yet t) l h = tt
Shrinks-lt k n (threw reason t) l h = tt
Shrinks-lt k n undefined_read l h = tt
Shrinks-lt k n exhausted l h = tt

after_parse-Shrinks :
    (n : ℕ) (again : Parser → Tried) (t : Parser) (p : Parsed Message)
    → measure t < n
    → Shrinks (measure t) (again t)
    → Shrinks n (after_parse again t p)
unfolding after_parse
after_parse-Shrinks n again t (done m rest) l h = l
after_parse-Shrinks n again t more l h = Shrinks-lt (measure t) n (again t) l h
after_parse-Shrinks n again t (thrown reason rest) l h = tt
after_parse-Shrinks n again t stuck l h = tt

after_next-Shrinks :
    (again : Parser → Tried) (depth : ℕ) (is_sync : Bool) (s : Parser) (x : Next)
    → Advances s x
    → ((t : Parser) → Shrinks (measure t) (again t))
    → Shrinks (measure s) (after_next again depth is_sync s x)
unfolding after_next
after_next-Shrinks again depth is_sync s (ready t) h k =
    after_parse-Shrinks (measure s) again t (parse is_sync depth t.raw_message_buffer) h.0 (k t)
after_next-Shrinks again depth is_sync s waits h k = tt
after_next-Shrinks again depth is_sync s (fails reason t) h k = tt
after_next-Shrinks again depth is_sync s out_of_range h k = tt

rounds-Shrinks :
    (n depth : ℕ) (is_sync : Bool) (s : Parser) → Shrinks (measure s) (rounds n depth is_sync s)
unfolding rounds
rounds-Shrinks zero depth is_sync s = tt
rounds-Shrinks (suc n) depth is_sync s = elim (Bool-cases (is_empty s.buffer)) [
  | inl e ↦ rw (rounds, e) tt
  | inr e ↦
      rw (rounds, e)
        (after_next-Shrinks (rounds n depth is_sync) depth is_sync s
          (get_next_raw_message is_sync s) (get_next-Advances is_sync s)
          (λ t. rounds-Shrinks n depth is_sync t))
]

pub try_parse-Shrinks : (is_sync : Bool) (s : Parser) → Shrinks (measure s) (try_parse is_sync s)
unfolding try_parse
try_parse-Shrinks is_sync s = rounds-Shrinks (enough s) _ is_sync s

pub measure-lt : (s : Parser) → measure s < 2 * length s.buffer + 2
measure-lt s = go s.length_encoded_message_expected refl
  where
    go :
        (o : Option ℕ) → s.length_encoded_message_expected ≡ o → measure s < 2 * length s.buffer + 2
    go none e = omega (arith, ap expected_size e)
    go (some n) e = omega (arith, ap expected_size e)
