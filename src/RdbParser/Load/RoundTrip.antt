-- ===== src/RdbParser/Load/RoundTrip.antt =====
-- RDBParse (src/rdb_parser.cpp) on the text of a file.
use mathlib.Core.Path.{subst}
use build_your_own_redis.Prelude.{
  ℕ, zero, suc, ◌+◌, ◌≤◌, ◌<◌, ◌≡◌, refl, sym, ap, ◌∙◌, true, none, some, List, [], ◌∷◌, ◌++◌,
  append-nil, append_assoc, arith, if◌then◌else◌, length, length-append, All, Bool-cases, inl, inr,
}
use build_your_own_redis.Text.{Bytes, text, same_refl}
use build_your_own_redis.Text.Decimal.{ℤ, parse_int}
use build_your_own_redis.Outcome.{ok}
use build_your_own_redis.RdbParser.{
  Restored, parse_string, parse_uint8, peek_uint8, parse_op_code, op_code, parse_entry,
}
use build_your_own_redis.RdbParser.Print.{
  print_length, parse_string-append, parse_length_encoding-print_length, parse_pair-print_pair,
  length-print_length, length-print_pair,
}
use build_your_own_redis.RdbParser.Load.{
  going, finished, next_entry, parse_sizes, parse_db, at_least, checksum, parse_section, go_on,
  parse_sections, with_version, with_magic, rdb_parse,
}
use build_your_own_redis.RdbParser.Load.File.{
  Record, Section, aux, database, print_records, print_sections, print_file, kept, kept_all,
  records, SectionFits,
}
use build_your_own_redis.RdbParser.Load.Records.{
  reader, length-print_records, all_entries-print_records,
}

parse_db-print :
    (number size expire_size met : ℕ) (rs : List Record) (clock : ℕ → ℕ) (rest : Bytes)
    (calls : List Restored)
    → next_entry (peek_uint8 rest) rest ≡ ok (none, rest)
    → SectionFits (database number size expire_size rs)
    → parse_db clock (
        reader
          (number ∷ 251 ∷ print_length size (print_length expire_size (print_records rs rest)))
          calls
          met)
      ≡ going (reader rest (calls ++ kept_all clock met rs) (met + length rs))
unfolding parse_db parse_sizes parse_uint8 parse_op_code op_code
parse_db-print number size expire_size met rs clock rest calls e h =
    rw
      (
        parse_length_encoding-print_length size (print_length expire_size (print_records rs rest))
            h.0,
        parse_length_encoding-print_length expire_size (print_records rs rest) h.1,
      )
      (all_entries-print_records rs met clock rest calls e h.2)

-- A section is no entry.
print_sections-none :
    (ss : List Section) (rest : Bytes)
    → next_entry (peek_uint8 (print_sections ss rest)) (print_sections ss rest)
      ≡ ok (none, print_sections ss rest)
unfolding next_entry peek_uint8 parse_entry
print_sections-none [] rest = refl
print_sections-none (aux k v ∷ ss) rest = refl
print_sections-none (database n size expire_size rs ∷ ss) rest = refl

kept_all-append :
    (clock : ℕ → ℕ) (n : ℕ) (rs qs : List Record)
    → kept_all clock n (rs ++ qs) ≡ kept_all clock n rs ++ kept_all clock (n + length rs) qs
kept_all-append clock n [] qs = let same_count : n + 0 ≡ n = omega arith in rw same_count refl
kept_all-append clock n (r ∷ rs) qs =
    let same_count : suc n + length rs ≡ n + suc (length rs) = omega arith in
    rw (kept_all-append clock (suc n) rs qs, same_count)
      (sym (append_assoc (kept (clock n) r) (kept_all clock (suc n) rs) _))

-- What stands behind the last section, by the version
abbrev pub HasSum : ℤ → Bytes → Type 0
HasSum v sum = length sum ≡ (if at_least 5 v then 8 else 0)

parse_string-whole : (s : Bytes) (k : ℕ) → length s ≡ k → parse_string k s ≡ ok (s, [])
parse_string-whole s k e =
    subst (λ t. parse_string k t ≡ ok (s, [])) (append-nil s) (parse_string-append s [] k (sym e))

empty-length : (s : Bytes) → length s ≡ 0 → s ≡ []
empty-length [] e = refl
empty-length (c ∷ s) e = absurd (omega arith)

checksum-HasSum :
    (v : ℤ) (sum : Bytes) (calls : List Restored) (met : ℕ)
    → HasSum v sum
    → checksum v (reader sum calls met) ≡ finished (reader [] calls met)
unfolding checksum
checksum-HasSum v sum calls met h = elim (Bool-cases (at_least 5 v)) [
  | inl e ↦ let eight : length sum ≡ 8 = ground arith in rw (e, parse_string-whole sum 8 eight) refl
  | inr e ↦ let zero_left : length sum ≡ 0 = ground arith in rw (e, empty-length sum zero_left) refl
]

same_end :
    {p q : List Restored} {m n : ℕ}
    → p ≡ q
    → m ≡ n
    → finished (reader [] p m) ≡ finished (reader [] q n)
same_end e d = cc

parse_sections-print_sections :
    (ss : List Section) (n met : ℕ) (clock : ℕ → ℕ) (v : ℤ) (sum : Bytes) (calls : List Restored)
    → length ss < n
    → All SectionFits ss
    → HasSum v sum
    → parse_sections n clock v (reader (print_sections ss sum) calls met)
      ≡ finished (reader [] (calls ++ kept_all clock met (records ss)) (met + length (records ss)))
unfolding parse_sections parse_op_code op_code parse_uint8 parse_section
parse_sections-print_sections ss zero met clock v sum calls l h e = absurd (omega arith)
parse_sections-print_sections [] (suc n) met clock v sum calls l h e =
    checksum-HasSum v sum calls met e ∙ same_end (sym (append-nil calls)) (omega arith)
parse_sections-print_sections (aux k w ∷ ss) (suc n) met clock v sum calls l h e =
    rw (parse_pair-print_pair k w (print_sections ss sum) h.0.0 h.0.1)
      (parse_sections-print_sections ss n met clock v sum calls (omega arith) h.1 e)
parse_sections-print_sections (database number size expire_size rs ∷ ss) (suc n) met clock v sum
      calls l h e =
    let counted = length-append rs (records ss) in
    ap (go_on (parse_sections n clock v)) (
      parse_db-print number size expire_size met rs clock (print_sections ss sum) calls
        (print_sections-none ss sum) h.0)
    ∙ parse_sections-print_sections ss n (met + length rs) clock v sum
        (calls ++ kept_all clock met rs) (omega arith) h.1 e
    ∙ same_end
        (append_assoc calls (kept_all clock met rs) _
          ∙ ap (λ l. calls ++ l) (sym (kept_all-append clock met rs (records ss))))
        (omega (arith, counted))

length-print_sections :
    (ss : List Section) (sum : Bytes) → length ss ≤ length (print_sections ss sum)
length-print_sections [] sum = omega arith
length-print_sections (aux k v ∷ ss) sum =
    omega (arith, length-print_pair k v (print_sections ss sum), length-print_sections ss sum)
length-print_sections (database n size expire_size rs ∷ ss) sum = omega (
  arith,
  length-print_sections ss sum,
  length-print_records rs (print_sections ss sum),
  length-print_length expire_size (print_records rs (print_sections ss sum)),
  length-print_length size (print_length expire_size (print_records rs (print_sections ss sum))),
)

-- A file of auxiliary fields and databases is read to its end. Each record is restored, in order, with
-- its key, its value and its time, unless this has passed when the record is read. Strings and sizes
-- are below 2^32, a time fits its place and the clock, and a checksum stands behind the last section
-- from version 5 on.
pub rdb_parse-print_file :
    (clock : ℕ → ℕ) (version : Bytes) (v : ℤ) (ss : List Section) (sum : Bytes)
    → length version ≡ 4
    → parse_int version ≡ some v
    → All SectionFits ss
    → HasSum v sum
    → rdb_parse true clock (print_file version ss sum)
      ≡ finished (record {
        from = [];
        restored = kept_all clock 0 (records ss);
        met = length (records ss);
      })
unfolding rdb_parse with_magic with_version
rdb_parse-print_file clock version v ss sum f p h e =
    rw
      (
        parse_string-append (text "REDIS") (version ++ print_sections ss sum) 5
            (unfold text in refl),
        same_refl (text "REDIS"),
        parse_string-append version (print_sections ss sum) 4 (sym f),
        p,
      )
      (parse_sections-print_sections ss (suc (length (print_sections ss sum))) 0 clock v sum []
          (omega (arith, length-print_sections ss sum)) h e
        ∙ same_end refl (omega arith))
