-- ===== src/Tests/Files.antt =====
-- Files of a database at concrete inputs.
use build_your_own_redis.Prelude.{
  ℕ, ◌+◌, ◌≡◌, ◌≢◌, refl, true, none, some, List, [], ◌∷◌, ◌++◌, arith, All,
}
use build_your_own_redis.Text.{Bytes, text, same}
use build_your_own_redis.Text.Decimal.{pos, parse_int}
use build_your_own_redis.Outcome.{ok, undefined}
use build_your_own_redis.Storage.Keyspace.{Keyspace, get}
use build_your_own_redis.Storage.Restore.{seen, last_call}
use build_your_own_redis.Server.{ServerInfo, get_config_value}
use build_your_own_redis.Boot.{boot, boot-get}
use build_your_own_redis.RdbParser.{length_type, parse_length_encoding}
use build_your_own_redis.RdbParser.Load.{failed, exhausted, rdb_parse}
use build_your_own_redis.RdbParser.Load.File.{
  Section, aux, database, in_seconds, in_ms, SectionFits, print_file, kept_all, records,
}
use build_your_own_redis.RdbParser.Load.Terminates.{rdb_parse-ne-exhausted}

-- Two records, of which the second has passed at the time that the clock shows
abbrev sections : List Section
sections =
    aux (98 ∷ []) (105 ∷ [])
    ∷ database 0 2 1 (
        record { key = 107 ∷ []; value = 118 ∷ []; expiry = in_seconds 60 }
        ∷ record { key = 111 ∷ []; value = 119 ∷ []; expiry = in_ms 3 }
        ∷ [])
    ∷ []

abbrev clock : ℕ → ℕ
clock n = 5_000_000 + n

abbrev version : Bytes
version = 48 ∷ 48 ∷ 49 ∷ 49 ∷ []

abbrev sum : Bytes
sum = 1 ∷ 2 ∷ 3 ∷ 4 ∷ 5 ∷ 6 ∷ 7 ∷ 8 ∷ []

fits : All SectionFits sections
fits = (
  (omega arith, omega arith),
  (
    (
      omega arith,
      omega arith,
      ((omega arith, omega arith, omega arith), ((omega arith, omega arith, omega arith), tt)),
    ),
    tt,
  ),
)

is_eleven : parse_int version ≡ some (pos 11)
unfolding parse_int
is_eleven = refl

rdb_parse-ne-exhausted_example : rdb_parse true clock (text "REDIS0011" ++ 254 ∷ []) ≢ exhausted
rdb_parse-ne-exhausted_example = rdb_parse-ne-exhausted true clock (text "REDIS0011" ++ 254 ∷ [])

-- A length of two bytes: 65 is meant to be 0x41 0x01 for 257; a second byte of 24 or more is undefined.
two_bytes :
    parse_length_encoding (65 ∷ 1 ∷ [])
    ≡ ok (record { kind = length_type; size = 512; special = 0 }, [])
unfolding parse_length_encoding
two_bytes = refl

two_bytes_undefined : parse_length_encoding (65 ∷ 24 ∷ []) ≡ undefined
unfolding parse_length_encoding
two_bytes_undefined = refl

no_magic : rdb_parse true clock (text "RADIS0011") ≡ failed (text "Missing magic") []
unfolding rdb_parse text same
no_magic = refl

-- A database with no sizes loses the operation behind its number.
lost_end :
    rdb_parse true clock (text "REDIS0003" ++ 254 ∷ 0 ∷ 255 ∷ [])
    ≡ failed (text "Invalid input stream") []
unfolding rdb_parse text same parse_int
lost_end = refl

abbrev dir : Bytes
dir = 47 ∷ []

abbrev name : Bytes
name = 100 ∷ []

boot-get_example :
    (i : ServerInfo) × (d : Keyspace) × (boot clock clock 5_000_000
        (λ s t. some (print_file version sections sum))
        (text "--dir" ∷ dir ∷ text "--dbfilename" ∷ name ∷ [])
      ≡ ok (i, d))
    × (get_config_value (text "dir") i ≡ some dir)
    × (get_config_value (text "dbfilename") i ≡ some name)
    × ((later : ℕ) (key : Bytes)
        → (get later key d).1
          ≡ seen later (last_call key (kept_all clock 0 (records sections))) none)
boot-get_example =
    boot-get clock clock 5_000_000 (λ s t. some (print_file version sections sum)) dir name version
      (pos 11) sections sum refl refl is_eleven fits refl
