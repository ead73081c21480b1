-- ===== src/RdbParser/Load/Takes.antt =====
-- The bytes that an entry of src/rdb_parser.cpp takes from the stream.
use build_your_own_redis.Prelude.{
  ℕ, ◌*◌, ◌≤◌, ◌<◌, Option, none, some, [], ◌∷◌, arith, ◌==◌, length, Bool-cases, inl, inr,
}
use build_your_own_redis.Text.{Bytes}
use build_your_own_redis.Text.Decimal.{ℤ, pos}
use build_your_own_redis.Outcome.{Outcome, ok, err, undefined, ◌>>=◌}
use build_your_own_redis.RdbParser.{
  Entry, parse_uint8, peek_uint8, parse_unsigned, parse_pair, parse_entry,
}
use build_your_own_redis.RdbParser.Leaves.{Leaves, parse_unsigned-Leaves, parse_pair-Leaves}
use build_your_own_redis.RdbParser.Load.{
  time_of_ms, expect_entry, entry_in_seconds, entry_in_ms, next_entry,
}

-- An entry takes a byte of k; where there is none, nothing is taken.
abbrev pub Takes : ℕ → Outcome (Option Entry × Bytes) → Type 0
Takes k (ok (some e, from)) = length from < k
Takes k (ok (none, from)) = length from ≤ k
Takes k (err reason) = Unit
Takes k undefined = Unit

>>=-Takes :
    {A : Type 0} (n k : ℕ) (o : Outcome (A × Bytes))
    (f : A × Bytes → Outcome (Option Entry × Bytes))
    → Leaves n o
    → ((r : A × Bytes) → length r.1 ≤ n → Takes k (f r))
    → Takes k (o >>= f)
>>=-Takes n k (ok r) f h g = g r h
>>=-Takes n k (err reason) f h g = tt
>>=-Takes n k undefined f h g = tt

parse_uint8-Takes :
    (k : ℕ) (b : Bytes) (f : ℕ × Bytes → Outcome (Option Entry × Bytes))
    → length b ≤ k
    → ((r : ℕ × Bytes) → length r.1 < k → Takes k (f r))
    → Takes k (parse_uint8 b >>= f)
unfolding parse_uint8
parse_uint8-Takes k [] f h g = tt
parse_uint8-Takes k (c ∷ b) f h g = g (c, b) (omega arith)

parse_entry-Takes : (k kind : ℕ) (b : Bytes) → length b ≤ k → Takes k (parse_entry kind b)
unfolding parse_entry
parse_entry-Takes k kind b h = elim (Bool-cases (kind == 0)) [
  | inl e ↦ rw e (
      parse_uint8-Takes k b _ h λ r l.
        >>=-Takes (length r.1) k (parse_pair r.1) _ (parse_pair-Leaves _ r.1 (omega arith))
          λ p l'. omega (arith, l, l'))
  | inr e ↦ rw e h
]

expect_entry-Takes :
    (k : ℕ) (at : Outcome ℤ) (o : Outcome (Option Entry × Bytes))
    → Takes k o
    → Takes k (expect_entry at o)
expect_entry-Takes k at (ok (none, from)) h = tt
expect_entry-Takes k (ok t) (ok (some e, from)) h = h
expect_entry-Takes k (err reason) (ok (some e, from)) h = tt
expect_entry-Takes k undefined (ok (some e, from)) h = tt
expect_entry-Takes k at (err reason) h = tt
expect_entry-Takes k at undefined h = tt

-- An expire time of some bytes, and the entry behind it
timed-Takes :
    (k size : ℕ) (b : Bytes) (at : ℕ → Outcome ℤ)
    → length b ≤ k
    → Takes k (
        parse_uint8 b >>= λ c.
        parse_unsigned size c.1 >>= λ t. expect_entry (at t.0) (parse_entry (peek_uint8 t.1) t.1))
timed-Takes k size b at h = parse_uint8-Takes k b _ h λ c l.
    >>=-Takes (length c.1) k (parse_unsigned size c.1) _
      (parse_unsigned-Leaves _ size c.1 (omega arith))
      λ t l'.
        expect_entry-Takes k (at t.0) (parse_entry (peek_uint8 t.1) t.1)
          (parse_entry-Takes k (peek_uint8 t.1) t.1 (omega (arith, l, l')))

pub next_entry-Takes : (k next : ℕ) (b : Bytes) → length b ≤ k → Takes k (next_entry next b)
unfolding next_entry entry_in_seconds entry_in_ms
next_entry-Takes k next b h = elim (Bool-cases (next == 253)) [
  | inl e ↦ rw e (timed-Takes k 4 b (λ t. ok (pos (t * 1_000_000_000))) h)
  | inr e ↦ rw e (elim (Bool-cases (next == 252)) [
    | inl d ↦ rw d (timed-Takes k 8 b time_of_ms h)
    | inr d ↦ rw d (parse_entry-Takes k next b h)
  ])
]
