-- ===== src/Boot.antt =====
-- The start of src/main.cpp: the command line, and the file that the storage begins with. The draws of the
-- random text, the clock, and what the file system holds under a directory and a name are arguments.
use build_your_own_redis.Prelude.{
  ℕ, ◌≡◌, refl, ◌∙◌, ap, Option, none, some, List, [], ◌∷◌, All, length,
}
use build_your_own_redis.Text.{Bytes, text, same}
use build_your_own_redis.Text.Decimal.{ℤ, parse_int}
use build_your_own_redis.Text.Helpers.{random_hexstring}
use build_your_own_redis.Outcome.{Outcome, ok, ◌>>=◌}
use build_your_own_redis.Dict.{find}
use build_your_own_redis.Server.{
  ServerInfo, default_info, with_value, needs_value, parse_arguments, build, get_config_value,
}
use build_your_own_redis.Storage.Keyspace.{Keyspace, get, get_found}
use build_your_own_redis.Storage.Restore.{load, get-load, seen, last_call}
use build_your_own_redis.RdbParser.Load.File.{Section, SectionFits, print_file, kept_all, records}
use build_your_own_redis.RdbParser.Load.RoundTrip.{HasSum}

module _ (draw clock : ℕ → ℕ) (now : ℕ) (file_at : Bytes → Bytes → Option Bytes) where
  abbrev dumped : Option Bytes → ServerInfo → Outcome (ServerInfo × Keyspace)
  dumped none i = ok (i, [])
  dumped (some b) i = load clock now b [] >>= λ d. ok (i, d)

  -- The file is loaded where it exists.
  unfoldable pub load_dump : ServerInfo → Outcome (ServerInfo × Keyspace)
  unfolding load
  load_dump i = dumped (file_at i.dir i.dbfilename) i

  -- main, up to the parts that it connects
  unfoldable pub boot : List Bytes → Outcome (ServerInfo × Keyspace)
  unfolding build random_hexstring load_dump
  boot arguments = build (random_hexstring 40 draw) arguments >>= load_dump

  abbrev pub dump_at : Bytes → Bytes → List Bytes
  dump_at dir name = text "--dir" ∷ dir ∷ text "--dbfilename" ∷ name ∷ []

  abbrev info_of : Bytes → Bytes → ServerInfo
  info_of dir name = record (default_info (random_hexstring 40 draw)) {
    dir = dir;
    dbfilename = name;
  }

  build-dump_at :
      (dir name : Bytes)
      → build (random_hexstring 40 draw) (dump_at dir name) ≡ ok (info_of dir name)
  unfolding build parse_arguments with_value needs_value text same default_info
  build-dump_at dir name = refl

  load_dump-loads :
      (i : ServerInfo) (b : Bytes) (d : Keyspace)
      → file_at i.dir i.dbfilename ≡ some b
      → load clock now b [] ≡ ok d
      → load_dump i ≡ ok (i, d)
  unfolding load_dump
  load_dump-loads i b d file loads = ap (λ o. dumped o i) file ∙ rw loads refl

  boot-loads :
      (dir name b : Bytes) (d : Keyspace)
      → file_at dir name ≡ some b
      → load clock now b [] ≡ ok d
      → boot (dump_at dir name) ≡ ok (info_of dir name, d)
  unfolding boot
  boot-loads dir name b d file loads =
      ap (λ o. o >>= load_dump) (build-dump_at dir name)
      ∙ load_dump-loads (info_of dir name) b d file loads

  -- A server that is started with a directory and the name of a file of auxiliary fields and databases
  -- comes up, under the conditions on what fits; CONFIG GET then answers with the directory and the name,
  -- and GET with the last record of the key that had not passed when the file was read, as long as its
  -- time has not passed, and with nothing for other keys.
  pub boot-get :
      (dir name version : Bytes) (v : ℤ) (ss : List Section) (sum : Bytes)
      → file_at dir name ≡ some (print_file version ss sum)
      → length version ≡ 4
      → parse_int version ≡ some v
      → All SectionFits ss
      → HasSum v sum
      → (i : ServerInfo) × (d : Keyspace) × (boot (dump_at dir name) ≡ ok (i, d))
        × (get_config_value (text "dir") i ≡ some dir)
        × (get_config_value (text "dbfilename") i ≡ some name)
        × ((later : ℕ) (key : Bytes)
            → (get later key d).1 ≡ seen later (last_call key (kept_all clock 0 (records ss))) none)
  unfolding get_config_value default_info text same get find get_found
  boot-get dir name version v ss sum file f p h e =
      let (d, loads, gets) = get-load clock now version v ss sum [] f p h e in
      (
        info_of dir name,
        d,
        boot-loads dir name (print_file version ss sum) d file loads,
        refl,
        refl,
        λ later key. gets later key,
      )
