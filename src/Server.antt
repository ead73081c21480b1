-- ===== src/Server.antt =====
-- ServerInfo of src/server.h and src/server.cpp: what the command line says, and the texts of INFO and
-- CONFIG GET. Its two inner structs are flattened.
pub mod Acceptor
pub mod Starts
use build_your_own_redis.Prelude.{
  ℕ, zero, suc, ◌^◌, Bool, false, ◌&&◌, ◌||◌, Option, none, some, List, [], ◌∷◌, ◌++◌, ltb, leb,
  ◌==◌, if◌then◌else◌,
}
use build_your_own_redis.Text.{Bytes, text, same, split_first}
use build_your_own_redis.Text.Decimal.{ℤ, pos, negsuc, scan, decimal_int}
use build_your_own_redis.Outcome.{Outcome, ok, err, undefined, ◌>>=◌}

pub record ServerInfo : Type 0 where
  pub debug_level : ℕ
  pub tcp_port : ℤ
  pub dir : Bytes
  pub dbfilename : Bytes
  pub role : Bytes
  pub master_replid : Bytes
  pub master_repl_offset : ℤ
  pub master_host : Bytes
  pub master_port : ℤ

-- `std::atoi`: white space, a sign, digits; what does not fit an `int` is undefined.
abbrev pub is_space : ℕ → Bool
is_space c = c == 32 || leb 9 c && leb c 13

unfoldable pub skip_spaces : Bytes → Bytes
skip_spaces [] = []
skip_spaces (c ∷ s) = let rest = skip_spaces s in if is_space c then rest else c ∷ s

abbrev pub negative : ℕ → ℤ
negative zero = pos 0
negative (suc n) = negsuc n

unfoldable pub signed_digits : Bytes → Outcome ℤ
unfolding scan
signed_digits [] = ok (pos 0)
signed_digits (c ∷ s) =
    if c == b'-'
    then (if leb (scan 0 s) (2 ^ 31) then ok (negative (scan 0 s)) else undefined)
    else if c == b'+'
    then (if ltb (scan 0 s) (2 ^ 31) then ok (pos (scan 0 s)) else undefined)
    else if ltb (scan 0 (c ∷ s)) (2 ^ 31)
    then ok (pos (scan 0 (c ∷ s)))
    else undefined

unfoldable pub atoi : Bytes → Outcome ℤ
unfolding skip_spaces signed_digits
atoi s = signed_digits (skip_spaces s)

-- The fields that ServerInfo::build fills first; `replid` is the random string. The others have no
-- value of their own before the command line gives one, or are empty.
unfoldable pub default_info : Bytes → ServerInfo
default_info replid = record {
  debug_level = 0;
  tcp_port = pos 6379;
  dir = [];
  dbfilename = [];
  role = text "master";
  master_replid = replid;
  master_repl_offset = pos 0;
  master_host = [];
  master_port = pos 0;
}

-- `--replicaof "host port"`
unfoldable pub replica_of : Bytes → ServerInfo → Outcome ServerInfo
unfolding atoi
replica_of arg i = elim (split_first 32 arg) [
  | none ↦ err (text "--replicaof requires argument [host port]")
  | some (host, port) ↦
      atoi port >>= λ p. ok (record i { role = text "slave"; master_host = host; master_port = p })
]

-- An argument with a value
unfoldable pub with_value : Bytes → Bytes → ServerInfo → Outcome ServerInfo
unfolding atoi replica_of
with_value name value i =
    if same name (text "--port")
    then (atoi value >>= λ p. ok (record i { tcp_port = p }))
    else if same name (text "--replicaof")
    then replica_of value i
    else if same name (text "--dir")
    then ok (record i { dir = value })
    else ok (record i { dbfilename = value })

unfoldable pub needs_value : Bytes → Bool
needs_value name =
    same name (text "--port")
    || same name (text "--replicaof")
    || same name (text "--dir")
    || same name (text "--dbfilename")

unfoldable pub missing_value : Bytes → Bytes
missing_value name =
    name
    ++ (if same name (text "--replicaof")
        then text " requires argument \"[host port]\""
        else text " requires argument")

-- The loop over the command line; an argument of one or two places is taken in each round.
unfoldable pub parse_arguments : List Bytes → ServerInfo → Outcome ServerInfo
unfolding with_value needs_value missing_value
parse_arguments [] i = ok i
parse_arguments (name ∷ []) i =
    if needs_value name
    then err (missing_value name)
    else if same name (text "-v")
    then ok (record i { debug_level = 1 })
    else if same name (text "-vv")
    then ok (record i { debug_level = 2 })
    else err (text "unexpected argument: " ++ name)
parse_arguments (name ∷ value ∷ rest) i =
    if needs_value name
    then (with_value name value i >>= λ j. parse_arguments rest j)
    else if same name (text "-v")
    then parse_arguments (value ∷ rest) (record i { debug_level = 1 })
    else if same name (text "-vv")
    then parse_arguments (value ∷ rest) (record i { debug_level = 2 })
    else err (text "unexpected argument: " ++ name)

-- ServerInfo::build on the arguments behind the name of the program
unfoldable pub build : Bytes → List Bytes → Outcome ServerInfo
unfolding default_info parse_arguments
build replid arguments = parse_arguments arguments (default_info replid)

-- Server::is_replica
unfoldable pub is_replica : ServerInfo → Bool
is_replica i = same i.role (text "slave")

-- A line of a text
abbrev pub line : Bytes → Bytes → Bytes
line name value = name ++ (value ++ 10 ∷ [])

unfoldable pub server_to_string : ServerInfo → Bytes
server_to_string i = line (text "#Server") [] ++ line (text "tcp_port:") (decimal_int i.tcp_port)

unfoldable pub replication_to_string : ServerInfo → Bytes
replication_to_string i =
    line (text "#Replication") []
    ++ line (text "role:") i.role
    ++ line (text "master_replid:") i.master_replid
    ++ line (text "master_repl_offset:") (decimal_int i.master_repl_offset)
    ++ (if same i.role (text "slave")
        then line (text "master_host:") i.master_host
          ++ line (text "master_port:") (decimal_int i.master_port)
        else [])

-- `parts.contains`
unfoldable pub contains : Bytes → List Bytes → Bool
contains part [] = false
contains part (p ∷ parts) = same p part || contains part parts

-- ServerInfo::to_string
unfoldable pub info_to_string : List Bytes → ServerInfo → Bytes
unfolding server_to_string replication_to_string contains
info_to_string parts i =
    (if contains (text "server") parts then server_to_string i else [])
    ++ (if contains (text "replication") parts then replication_to_string i else [])

-- ServerInfo::get_config_value
unfoldable pub get_config_value : Bytes → ServerInfo → Option Bytes
get_config_value key i =
    if same key (text "dir")
    then some i.dir
    else if same key (text "dbfilename")
    then some i.dbfilename
    else none
