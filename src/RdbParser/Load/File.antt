-- ===== src/RdbParser/Load/File.antt =====
-- The files that src/rdb_parser.cpp reads: their text, and the calls of `restore` that they stand for.
use build_your_own_redis.Prelude.{
  ℕ, suc, ◌*◌, ◌^◌, ◌<◌, Bool, true, Option, none, some, List, [], ◌∷◌, ◌++◌, ltb, if◌then◌else◌,
  length, All,
}
use build_your_own_redis.Text.{Bytes, text}
use build_your_own_redis.RdbParser.{Restored}
use build_your_own_redis.RdbParser.Print.{bytes_of, print_length, print_pair}

-- The time after which an entry is gone, as the file has it
pub data Expiry : Type 0 where
  never : Expiry
  in_seconds in_ms : ℕ → Expiry

pub record Record : Type 0 where
  pub key : Bytes
  pub value : Bytes
  pub expiry : Expiry

-- A database has a number and the sizes of its tables, which the parser only skips.
pub data Section : Type 0 where
  aux : Bytes → Bytes → Section
  database : ℕ → ℕ → ℕ → List Record → Section

abbrev pub print_body : Record → Bytes → Bytes
print_body r rest = 0 ∷ print_pair r.key r.value rest

abbrev pub print_expiry : Expiry → Bytes → Bytes
print_expiry never rest = rest
print_expiry (in_seconds t) rest = 253 ∷ (bytes_of 4 t ++ rest)
print_expiry (in_ms t) rest = 252 ∷ (bytes_of 8 t ++ rest)

abbrev pub print_records : List Record → Bytes → Bytes
print_records [] rest = rest
print_records (r ∷ rs) rest = print_expiry r.expiry (print_body r (print_records rs rest))

abbrev pub print_sections : List Section → Bytes → Bytes
print_sections [] rest = 255 ∷ rest
print_sections (aux k v ∷ ss) rest = 250 ∷ print_pair k v (print_sections ss rest)
print_sections (database n size expire_size rs ∷ ss) rest =
    254
    ∷ n
    ∷ 251
    ∷ print_length size (print_length expire_size (print_records rs (print_sections ss rest)))

abbrev pub print_file : Bytes → List Section → Bytes → Bytes
print_file version ss sum = text "REDIS" ++ (version ++ print_sections ss sum)

-- The call that a record stands for at a time
abbrev pub expires_at : Expiry → Option ℕ
expires_at never = none
expires_at (in_seconds t) = some (t * 1_000_000_000)
expires_at (in_ms t) = some (t * 1_000_000)

abbrev pub is_live : ℕ → Option ℕ → Bool
is_live now none = true
is_live now (some t) = ltb now t

abbrev pub kept : ℕ → Record → List Restored
kept now r =
    if is_live now (expires_at r.expiry)
    then record { key = r.key; value = r.value; expire_time = expires_at r.expiry } ∷ []
    else []

-- The clock is read for each record.
abbrev pub kept_all : (ℕ → ℕ) → ℕ → List Record → List Restored
kept_all clock n [] = []
kept_all clock n (r ∷ rs) = kept (clock n) r ++ kept_all clock (suc n) rs

abbrev pub records : List Section → List Record
records [] = []
records (aux k v ∷ ss) = records ss
records (database n size expire_size rs ∷ ss) = rs ++ records ss

-- What fits in its place
abbrev pub ExpiryFits : Expiry → Type 0
ExpiryFits never = Unit
ExpiryFits (in_seconds t) = t < 2 ^ 32
ExpiryFits (in_ms t) = t * 1_000_000 < 2 ^ 63

abbrev pub RecordFits : Record → Type 0
RecordFits r = (length r.key < 2 ^ 32) × (length r.value < 2 ^ 32) × ExpiryFits r.expiry

abbrev pub SectionFits : Section → Type 0
SectionFits (aux k v) = (length k < 2 ^ 32) × (length v < 2 ^ 32)
SectionFits (database n size expire_size rs) =
    (size < 2 ^ 32) × (expire_size < 2 ^ 32) × All RecordFits rs
