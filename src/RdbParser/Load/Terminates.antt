-- ===== src/RdbParser/Load/Terminates.antt =====
-- The loops of src/rdb_parser.cpp: each round takes bytes from the stream.
use mathlib.Core.Path.{subst}
use build_your_own_redis.Prelude.{
  ℕ, zero, suc, ◌≤◌, ◌<◌, ◌≢◌, Bool, true, false, Option, none, some, [], ◌∷◌, arith, length,
  Bool-cases, inl, inr,
}
use build_your_own_redis.Text.{Bytes, text, same}
use build_your_own_redis.Text.Decimal.{ℤ, parse_int}
use build_your_own_redis.Outcome.{Outcome, ok, err, undefined}
use build_your_own_redis.RdbParser.{
  OpCode, op_aux, op_selectdb, op_resizedb, op_eof, Entry, parse_uint8, peek_uint8, parse_op_code,
}
use build_your_own_redis.RdbParser.Leaves.{
  Leaves, parse_uint8-Leaves, parse_string-Leaves, parse_length_encoding-Leaves, parse_pair-Leaves,
  parse_op_code-Leaves,
}
use build_your_own_redis.RdbParser.Load.{
  Reader, Progress, going, finished, failed, broken, exhausted, reading, meet, after_entry,
  parse_entries, all_entries, parse_sizes, parse_db, checksum, go_on, at_least, parse_section,
  parse_sections, with_version, with_magic, rdb_parse,
}
use build_your_own_redis.RdbParser.Load.Takes.{Takes, next_entry-Takes}

-- A part of a file ends; where it goes on, at most n bytes are left.
abbrev Ends : ℕ → Progress → Type 0
Ends n (going s) = length s.from ≤ n
Ends n (finished s) = Unit
Ends n (failed reason calls) = Unit
Ends n (broken calls) = Unit
Ends n exhausted = ⊥

reading-Ends :
    {A : Type 0} (n m : ℕ) (o : Outcome (A × Bytes)) (s : Reader) (f : A → Reader → Progress)
    → Leaves n o
    → ((a : A) (t : Reader) → length t.from ≤ n → Ends m (f a t))
    → Ends m (reading o s f)
reading-Ends n m (ok r) s f h k = k r.0 (record s { from = r.1 }) h
reading-Ends n m (err reason) s f h k = tt
reading-Ends n m undefined s f h k = tt

reading-Ends_entry :
    (k m : ℕ) (clock : ℕ → ℕ) (o : Outcome (Option Entry × Bytes)) (s : Reader)
    (again : Reader → Progress)
    → Takes k o
    → k ≤ m
    → ((t : Reader) → length t.from < k → Ends m (again t))
    → Ends m (reading o s (after_entry again clock))
unfolding after_entry meet
reading-Ends_entry k m clock (ok (none, from)) s again h l g = omega arith
reading-Ends_entry k m clock (ok (some e, from)) s again h l g = g _ h
reading-Ends_entry k m clock (err reason) s again h l g = tt
reading-Ends_entry k m clock undefined s again h l g = tt

parse_entries-Ends :
    (n m : ℕ) (clock : ℕ → ℕ) (s : Reader)
    → length s.from < n
    → length s.from ≤ m
    → Ends m (parse_entries n clock s)
unfolding parse_entries
parse_entries-Ends zero m clock s h l = absurd (omega arith)
parse_entries-Ends (suc n) m clock s h l =
    reading-Ends_entry (length s.from) m clock _ s (parse_entries n clock)
      (next_entry-Takes (length s.from) (peek_uint8 s.from) s.from (omega arith)) l
      λ t g. parse_entries-Ends n m clock t (omega (arith, h)) (omega (arith, l))

parse_sizes-Ends :
    (m : ℕ) (clock : ℕ → ℕ) (o : OpCode) (s : Reader)
    → length s.from ≤ m
    → Ends m (parse_sizes (all_entries clock) o s)
unfolding parse_sizes all_entries
parse_sizes-Ends m clock op_resizedb s h =
    reading-Ends m m _ s _ (parse_length_encoding-Leaves m s.from h) λ a t l.
      reading-Ends m m _ t _ (parse_length_encoding-Leaves m t.from l)
        λ b u l'. parse_entries-Ends (suc (length u.from)) m clock u (omega arith) l'
parse_sizes-Ends m clock _ s h = parse_entries-Ends (suc (length s.from)) m clock s (omega arith) h

parse_db-Ends : (m : ℕ) (clock : ℕ → ℕ) (s : Reader) → length s.from ≤ m → Ends m (parse_db clock s)
unfolding parse_db
parse_db-Ends m clock s h =
    reading-Ends m m _ s _ (parse_uint8-Leaves m s.from (omega arith)) λ db t l.
      reading-Ends m m _ t _ (parse_op_code-Leaves m t.from (omega arith))
        λ o u l'. parse_sizes-Ends m clock o u l'

go_on-Ends :
    (n m : ℕ) (next : Reader → Progress) (p : Progress)
    → Ends n p
    → ((t : Reader) → length t.from ≤ n → Ends m (next t))
    → Ends m (go_on next p)
go_on-Ends n m next (going s) h k = k s h
go_on-Ends n m next (finished s) h k = tt
go_on-Ends n m next (failed reason calls) h k = tt
go_on-Ends n m next (broken calls) h k = tt
go_on-Ends n m next exhausted h k = absurd h

checksum-Ends : (m : ℕ) (v : ℤ) (s : Reader) → Ends m (checksum v s)
unfolding checksum
checksum-Ends m v s = elim (Bool-cases (at_least 5 v)) [
  | inl e ↦ rw e (
      reading-Ends (length s.from) m _ s _ (parse_string-Leaves _ 8 s.from (omega arith))
        λ c t l. tt)
  | inr e ↦ rw e tt
]

parse_section-Ends :
    (n m : ℕ) (again : Reader → Progress) (clock : ℕ → ℕ) (v : ℤ) (o : OpCode) (s : Reader)
    → length s.from ≤ n
    → ((t : Reader) → length t.from ≤ n → Ends m (again t))
    → Ends m (parse_section again clock v o s)
unfolding parse_section
parse_section-Ends n m again clock v op_aux s h k =
    reading-Ends n m _ s _ (parse_pair-Leaves n s.from h) λ p t l. k t l
parse_section-Ends n m again clock v op_selectdb s h k =
    go_on-Ends n m again (parse_db clock s) (parse_db-Ends n clock s h) k
parse_section-Ends n m again clock v op_eof s h k = checksum-Ends m v s
parse_section-Ends n m again clock v _ s h k = tt

reading-Ends_op_code :
    (m : ℕ) (b : Bytes) (s : Reader) (f : OpCode → Reader → Progress)
    → ((o : OpCode) (t : Reader) → length t.from < length b → Ends m (f o t))
    → Ends m (reading (parse_op_code b) s f)
unfolding parse_op_code parse_uint8
reading-Ends_op_code m [] s f k = tt
reading-Ends_op_code m (c ∷ b) s f k =
    reading-Ends (length b) m _ s f (parse_op_code-Leaves (length b) (c ∷ b) (omega arith))
      λ o t l. k o t (omega (arith, l))

parse_sections-Ends :
    (n m : ℕ) (clock : ℕ → ℕ) (v : ℤ) (s : Reader)
    → length s.from < n
    → Ends m (parse_sections n clock v s)
unfolding parse_sections
parse_sections-Ends zero m clock v s h = absurd (omega arith)
parse_sections-Ends (suc n) m clock v s h = reading-Ends_op_code m s.from s _ λ o t l.
    parse_section-Ends (length t.from) m (parse_sections n clock v) clock v o t (omega arith)
      λ u g. parse_sections-Ends n m clock v u (omega (arith, h, l, g))

with_version-Ends :
    (m : ℕ) (clock : ℕ → ℕ) (v : Option ℤ) (s : Reader) → Ends m (with_version clock v s)
unfolding with_version
with_version-Ends m clock none s = tt
with_version-Ends m clock (some v) s =
    parse_sections-Ends (suc (length s.from)) m clock v s (omega arith)

with_magic-Ends :
    (m : ℕ) (clock : ℕ → ℕ) (magic : Bytes) (s : Reader) → Ends m (with_magic clock magic s)
unfolding with_magic
with_magic-Ends m clock magic s = elim (Bool-cases (same magic (text "REDIS"))) [
  | inl e ↦ rw e (
      reading-Ends (length s.from) m _ s _ (parse_string-Leaves _ 4 s.from (omega arith))
        λ v t l. with_version-Ends m clock (parse_int v) t)
  | inr e ↦ rw e tt
]

-- The loops over the sections of a file and over the entries of a database end, on any bytes, at any
-- time and on a failed stream.
pub rdb_parse-ne-exhausted :
    (is_good : Bool) (clock : ℕ → ℕ) (b : Bytes) → rdb_parse is_good clock b ≢ exhausted
unfolding rdb_parse
rdb_parse-ne-exhausted false clock b e = cc
rdb_parse-ne-exhausted true clock b e = subst (Ends 0) e (
    reading-Ends (length b) 0 _ _ _ (parse_string-Leaves _ 5 b (omega arith))
      λ magic t l. with_magic-Ends 0 clock magic t)
