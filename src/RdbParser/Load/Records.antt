-- ===== src/RdbParser/Load/Records.antt =====
-- The records of a database, printed and read back (parse_db of src/rdb_parser.cpp).
use mathlib.Core.Path.{subst}
use build_your_own_redis.Prelude.{
  ℕ, zero, suc, ◌+◌, ◌*◌, ◌^◌, ◌≤◌, ◌<◌, ◌≡◌, refl, ◌∙◌, true, Option, none, some, List, [], ◌∷◌,
  ◌++◌, append-nil, append_assoc, arith, ltb, if◌then◌else◌, length, length-append, All,
}
use build_your_own_redis.Text.{Bytes}
use build_your_own_redis.Text.Decimal.{ℤ, pos}
use build_your_own_redis.Outcome.{ok}
use build_your_own_redis.RdbParser.{Entry, Restored, parse_uint8, peek_uint8, parse_entry}
use build_your_own_redis.RdbParser.Print.{
  bytes_of, parse_unsigned-bytes_of, parse_pair-print_pair, length-print_pair,
}
use build_your_own_redis.RdbParser.Load.{
  Reader, going, time_of_ms, entry_in_seconds, entry_in_ms, next_entry, restore_at, meet,
  after_entry, parse_entries, all_entries,
}
use build_your_own_redis.RdbParser.Load.File.{
  Expiry, never, in_seconds, in_ms, Record, print_body, print_expiry, print_records, expires_at,
  is_live, kept, kept_all, ExpiryFits, RecordFits,
}

abbrev pub reader : Bytes → List Restored → ℕ → Reader
reader b calls n = record { from = b; restored = calls; met = n }

abbrev plain_entry : Record → Entry
plain_entry r = record { key = r.key; value = r.value; expire_time = none }

abbrev signed_time : Option ℕ → Option ℤ
signed_time none = none
signed_time (some t) = some (pos t)

abbrev entry_of : Record → Entry
entry_of r = record {
  key = r.key;
  value = r.value;
  expire_time = signed_time (expires_at r.expiry);
}

parse_entry-print_body :
    (r : Record) (rest : Bytes)
    → RecordFits r
    → parse_entry (peek_uint8 (print_body r rest)) (print_body r rest)
      ≡ ok (some (plain_entry r), rest)
unfolding parse_entry peek_uint8 parse_uint8
parse_entry-print_body r rest h = rw (parse_pair-print_pair r.key r.value rest h.0 h.1) refl

next_entry-expiry :
    (x : Expiry) (r : Record) (rest : Bytes)
    → RecordFits r
    → r.expiry ≡ x
    → next_entry
        (peek_uint8 (print_expiry x (print_body r rest)))
        (print_expiry x (print_body r rest))
      ≡ ok (
        some (record { key = r.key; value = r.value; expire_time = signed_time (expires_at x) }),
        rest,
      )
unfolding next_entry entry_in_seconds entry_in_ms parse_uint8 peek_uint8 time_of_ms
next_entry-expiry never r rest h e = parse_entry-print_body r rest h
next_entry-expiry (in_seconds t) r rest h e =
    let fits : t < 2 ^ 32 = subst ExpiryFits e h.2 in
    rw (parse_unsigned-bytes_of 4 t (print_body r rest) fits, parse_entry-print_body r rest h) refl
next_entry-expiry (in_ms t) r rest h e =
    let fits : t * 1_000_000 < 2 ^ 63 = subst ExpiryFits e h.2 in
    let small : ltb t (2 ^ 63) ≡ true = ground arith in
    let whole : ltb (t * 1_000_000) (2 ^ 63) ≡ true = ground arith in
    rw
      (
        parse_unsigned-bytes_of 8 t (print_body r rest) (omega arith),
        parse_entry-print_body r rest h,
        small,
        whole,
      )
      refl

restore_at-entry_of :
    (x : Option ℕ) (now : ℕ) (k v : Bytes)
    → restore_at now (record { key = k; value = v; expire_time = signed_time x })
      ≡ (if is_live now x then record { key = k; value = v; expire_time = x } ∷ [] else [])
unfolding restore_at
restore_at-entry_of none now k v = refl
restore_at-entry_of (some t) now k v = refl

same_reader :
    (b : Bytes) {p q : List Restored} {m n : ℕ}
    → p ≡ q
    → m ≡ n
    → going (reader b p m) ≡ going (reader b q n)
same_reader b e d = cc

parse_entries-print_records :
    (rs : List Record) (n met : ℕ) (clock : ℕ → ℕ) (rest : Bytes) (calls : List Restored)
    → next_entry (peek_uint8 rest) rest ≡ ok (none, rest)
    → length rs < n
    → All RecordFits rs
    → parse_entries n clock (reader (print_records rs rest) calls met)
      ≡ going (reader rest (calls ++ kept_all clock met rs) (met + length rs))
unfolding parse_entries after_entry meet
parse_entries-print_records rs zero met clock rest calls e l h = absurd (omega arith)
parse_entries-print_records [] (suc n) met clock rest calls e l h =
    rw (e, append-nil calls) (same_reader rest refl (omega arith))
parse_entries-print_records (r ∷ rs) (suc n) met clock rest calls e l h =
    rw (next_entry-expiry r.expiry r (print_records rs rest) h.0 refl) (
      rw (restore_at-entry_of (expires_at r.expiry) (clock met) r.key r.value) (
        parse_entries-print_records rs n (suc met) clock rest (calls ++ kept (clock met) r) e
          (omega arith) h.1
        ∙ same_reader rest (append_assoc calls (kept (clock met) r) (kept_all clock (suc met) rs))
            (omega arith)))

length-print_body : (r : Record) (rest : Bytes) → length rest < length (print_body r rest)
length-print_body r rest = omega (arith, length-print_pair r.key r.value rest)

length-print_expiry : (x : Expiry) (rest : Bytes) → length rest ≤ length (print_expiry x rest)
length-print_expiry never rest = omega arith
length-print_expiry (in_seconds t) rest = omega (arith, length-append (bytes_of 4 t) rest)
length-print_expiry (in_ms t) rest = omega (arith, length-append (bytes_of 8 t) rest)

pub length-print_records :
    (rs : List Record) (rest : Bytes) → length rs + length rest ≤ length (print_records rs rest)
length-print_records [] rest = omega arith
length-print_records (r ∷ rs) rest = omega (
  arith,
  length-print_expiry r.expiry (print_body r (print_records rs rest)),
  length-print_body r (print_records rs rest),
  length-print_records rs rest,
)

pub all_entries-print_records :
    (rs : List Record) (met : ℕ) (clock : ℕ → ℕ) (rest : Bytes) (calls : List Restored)
    → next_entry (peek_uint8 rest) rest ≡ ok (none, rest)
    → All RecordFits rs
    → all_entries clock (reader (print_records rs rest) calls met)
      ≡ going (reader rest (calls ++ kept_all clock met rs) (met + length rs))
unfolding all_entries
all_entries-print_records rs met clock rest calls e h =
    parse_entries-print_records rs (suc (length (print_records rs rest))) met clock rest calls e
      (omega (arith, length-print_records rs rest)) h
