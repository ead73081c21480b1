-- ===== src/Storage/Restore.antt =====
-- The storage as the listener of src/rdb_parser.cpp: Storage::restore (src/storage.cpp) for each call.
use build_your_own_redis.Prelude.{
  Bool-cases, inl, inr, length, All, ap, ℕ, ◌≡◌, refl, ◌∙◌, true, Option, none, some, List, [], ◌∷◌,
  arith, if◌then◌else◌,
}
use build_your_own_redis.Text.{Bytes, same}
use build_your_own_redis.Outcome.{Outcome, ok, err, undefined}
use build_your_own_redis.Dict.{find, insert_or_assign}
use build_your_own_redis.Dict.Laws.{find-insert_or_assign}
use build_your_own_redis.Storage.Keyspace.{Keyspace, string_value, restore, get}
use build_your_own_redis.RdbParser.{Restored}
use build_your_own_redis.Storage.Keyspace.Expiry.{get-eq-visible, visible}
use build_your_own_redis.RdbParser.Load.File.{
  is_live, Section, SectionFits, kept_all, records, print_file,
}
use build_your_own_redis.RdbParser.Load.RoundTrip.{HasSum, rdb_parse-print_file}
use build_your_own_redis.Text.Decimal.{ℤ, parse_int}
use build_your_own_redis.RdbParser.Load.{Progress, finished, failed, broken, rdb_parse}

-- The calls of the parser, one after another
unfoldable pub restore_all : ℕ → List Restored → Keyspace → Keyspace
unfolding restore
restore_all now [] d = d
restore_all now (c ∷ cs) d = restore_all now cs (restore now c.key c.value c.expire_time d)

-- `going` and `exhausted` are not returned by rdb_parse.
abbrev stored : ℕ → Progress → Keyspace → Outcome Keyspace
stored now (finished s) d = ok (restore_all now s.restored d)
stored now (failed reason calls) d = err reason
stored now (broken calls) d = undefined
stored now _ d = undefined

-- RDBParse of a stream into a storage
unfoldable pub load : (ℕ → ℕ) → ℕ → Bytes → Keyspace → Outcome Keyspace
unfolding rdb_parse restore_all
load clock now b d = stored now (rdb_parse true clock b) d

-- The last call for a key
abbrev pub last_call : Bytes → List Restored → Option Restored
last_call key [] = none
last_call key (c ∷ cs) = elim (last_call key cs) [
  | some l ↦ some l
  | none ↦ if same c.key key then some c else none
]

-- What GET answers at a time: the last call for the key, as long as its time has not passed, or what
-- it answered before.
abbrev pub seen : ℕ → Option Restored → Option Bytes → Option Bytes
seen later none before = before
seen later (some c) before = if is_live later c.expire_time then some c.value else none

get-restore :
    (now later : ℕ) (key k v : Bytes) (x : Option ℕ) (d : Keyspace)
    → (get later key (restore now k v x d)).1
      ≡ (if same k key then (if is_live later x then some v else none) else (get later key d).1)
unfolding restore visible
get-restore now later key k v x d =
    rw
      (
        get-eq-visible later key (insert_or_assign k _ d),
        get-eq-visible later key d,
        find-insert_or_assign k key,
      )
      (by_time x)
  where
    by_time :
        (x : Option ℕ)
        → visible later (
            if same k key
            then some (string_value (record { content = v; create_time = now; expire_time = x }))
            else find key d)
          ≡ (if same k key
              then (if is_live later x then some v else none)
              else visible later (find key d))
    by_time none = elim (Bool-cases (same k key)) [ inl e ↦ rw e refl | inr e ↦ rw e refl ]
    by_time (some t) = elim (Bool-cases (same k key)) [
      | inl e ↦ rw e (ground arith)
      | inr e ↦ rw e refl
    ]

pub get-restore_all :
    (now later : ℕ) (key : Bytes) (cs : List Restored) (d : Keyspace)
    → (get later key (restore_all now cs d)).1 ≡ seen later (last_call key cs) (get later key d).1
unfolding restore_all
get-restore_all now later key [] d = refl
get-restore_all now later key (c ∷ cs) d =
    get-restore_all now later key cs (restore now c.key c.value c.expire_time d)
    ∙ ap (seen later (last_call key cs)) (get-restore now later key c.key c.value c.expire_time d)
    ∙ by_last (last_call key cs)
  where
    by_last :
        (o : Option Restored)
        → seen later o (
            if same c.key key
            then (if is_live later c.expire_time then some c.value else none)
            else (get later key d).1)
          ≡ seen later
              (elim o [ some l ↦ some l | none ↦ if same c.key key then some c else none ])
              (get later key d).1
    by_last (some l) = refl
    by_last none = elim (Bool-cases (same c.key key)) [ inl e ↦ rw e refl | inr e ↦ rw e refl ]

-- A file of auxiliary fields and databases is loaded, under the conditions on what fits, and then GET
-- answers for each key with the last of its records that had not passed when the file was read, as
-- long as the time of this has not passed, and for a key with no such record as before.
pub get-load :
    (clock : ℕ → ℕ) (now : ℕ) (version : Bytes) (v : ℤ) (ss : List Section) (sum : Bytes)
    (d : Keyspace)
    → length version ≡ 4
    → parse_int version ≡ some v
    → All SectionFits ss
    → HasSum v sum
    → (u : Keyspace) × (load clock now (print_file version ss sum) d ≡ ok u)
      × ((later : ℕ) (key : Bytes)
          → (get later key u).1
            ≡ seen later (last_call key (kept_all clock 0 (records ss))) (get later key d).1)
unfolding load
get-load clock now version v ss sum d f p h e = (
  restore_all now (kept_all clock 0 (records ss)) d,
  rw (rdb_parse-print_file clock version v ss sum f p h e) refl,
  (λ later key. get-restore_all now later key (kept_all clock 0 (records ss)) d),
)
