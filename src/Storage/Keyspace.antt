-- ===== src/Storage/Keyspace.antt =====
-- The map `_storage` of Storage and the operations on it: src/storage.cpp without the readers that
-- wait. Times are nanoseconds since the epoch of the clock; each operation is given the time at
-- which it runs. A pointer cast to the class that the value does not have is undefined.
pub mod Expiry
pub mod Stored
pub mod Streams
pub mod Invariant
pub mod Typed
use build_your_own_redis.Prelude.{
  ℕ, ◌+◌, ◌*◌, Bool, true, false, Option, none, some, List, [], ◌∷◌, leb, if◌then◌else◌, String,
}
use build_your_own_redis.Text.{Bytes, text}
use build_your_own_redis.Outcome.{Outcome, ok, undefined, ◌>>=◌}
use build_your_own_redis.Dict.{Dict, find, insert_or_assign, erase, key_list}
use build_your_own_redis.Stream.Id.{
  StreamId, InputStreamId, BoundStreamId, ReadStreamId, zero_id, from_string, to_string,
}
use build_your_own_redis.Stream
use build_your_own_redis.Stream.Value.{
  StreamErrorType, no_error, must_be_not_zero_id, must_be_more_than_top, wrong_key_type,
  StreamPartValue, Entry, StreamData, Appended, append, entries, last_id,
}

-- StorageType and its to_string
pub data StorageType : Type 0 where
  none_type string_type stream_type : StorageType

unfoldable pub type_to_string : StorageType → Bytes
type_to_string none_type = text "none"
type_to_string string_type = text "string"
type_to_string stream_type = text "stream"

-- to_string of StreamErrorType
unfoldable pub error_to_string : StreamErrorType → Bytes
error_to_string no_error = text "ERR None"
error_to_string must_be_not_zero_id = text "ERR The ID specified in XADD must be greater than 0-0"
error_to_string must_be_more_than_top =
    text "ERR The ID specified in XADD is equal or smaller than the target stream top item"
error_to_string wrong_key_type =
    text "WRONGTYPE Operation against a key holding the wrong kind of value"

-- StringValue
pub record StringValue : Type 0 where
  pub content : Bytes
  pub create_time : ℕ
  pub expire_time : Option ℕ

-- Value, with a constructor for each class that the map holds
pub data Value : Type 0 where
  string_value : StringValue → Value
  stream_value : StreamData → Value

-- Value::type
unfoldable pub value_type : Value → StorageType
value_type (string_value s) = string_type
value_type (stream_value m) = stream_type

abbrev pub Keyspace : Type 0
Keyspace = Dict Value

-- `Clock::now() + std::chrono::milliseconds{ms}`
abbrev pub after_ms : ℕ → ℕ → ℕ
after_ms now ms = now + ms * 1_000_000

-- Storage::restore
unfoldable pub restore : ℕ → Bytes → Bytes → Option ℕ → Keyspace → Keyspace
restore now key value expire_time d =
    insert_or_assign key
      (string_value (record { content = value; create_time = now; expire_time = expire_time })) d

abbrev pub expiry : ℕ → Option ℕ → Option ℕ
expiry now none = none
expiry now (some ms) = some (after_ms now ms)

-- Storage::set
unfoldable pub set : ℕ → Bytes → Bytes → Option ℕ → Keyspace → Keyspace
set now key value expire_ms d =
    insert_or_assign key
      (string_value
        (record { content = value; create_time = now; expire_time = expiry now expire_ms }))
      d

abbrev pub is_expired : ℕ → Option ℕ → Bool
is_expired now none = false
is_expired now (some t) = leb t now

unfoldable pub get_found : ℕ → Bytes → Option Value → Keyspace → Keyspace × Option Bytes
get_found now key none d = (d, none)
get_found now key (some (stream_value m)) d = (d, none)
get_found now key (some (string_value s)) d =
    if is_expired now s.expire_time then (erase key d, none) else (d, some s.content)

-- Storage::get
unfoldable pub get : ℕ → Bytes → Keyspace → Keyspace × Option Bytes
unfolding get_found
get now key d = get_found now key (find key d) d

-- The tuple that Storage::xadd returns, with the map that it leaves.
pub record Added : Type 0 where
  pub items : Keyspace
  pub id : StreamId
  pub error : StreamErrorType

abbrev pub stored : Bytes → Appended → Keyspace → Added
stored key a d = record {
  items = insert_or_assign key (stream_value a.content) d;
  id = a.id;
  error = a.error;
}

-- A new stream enters the map only where its first append succeeds.
abbrev pub stored_new : Bytes → Appended → Keyspace → Added
stored_new key a d = elim a.error [
  | no_error ↦ stored key a d
  | _ ↦ record { items = d; id = a.id; error = a.error }
]

unfoldable pub xadd_found :
    ℕ → Bytes → InputStreamId → StreamPartValue → Option Value → Keyspace → Added
xadd_found now key id values none d = stored_new key (append now id values []) d
xadd_found now key id values (some (string_value s)) d = record {
  items = d;
  id = zero_id;
  error = wrong_key_type;
}
xadd_found now key id values (some (stream_value m)) d = stored key (append now id values m) d

-- Storage::xadd, up to the readers that it wakes
unfoldable pub xadd : ℕ → Bytes → InputStreamId → StreamPartValue → Keyspace → Added
unfolding xadd_found
xadd now key id values d = xadd_found now key id values (find key d) d

-- Storage::xrange, and the loop of its caller over the range. A range of no stream is empty.
unfoldable pub xrange : Bytes → BoundStreamId → BoundStreamId → Keyspace → Outcome (List Entry)
xrange key left_id right_id d = elim (find key d) [
  | none ↦ ok []
  | some (string_value s) ↦ undefined
  | some (stream_value m) ↦ entries m (Stream.Value.xrange left_id right_id m)
]

-- The entries that one stream adds to the result of Storage::xread.
unfoldable pub xread_key : Bytes → ReadStreamId → Keyspace → Outcome (List Entry)
xread_key key id d = elim (find key d) [
  | none ↦ ok []
  | some (string_value s) ↦ undefined
  | some (stream_value m) ↦ entries m (Stream.Value.xread id m)
]

-- StreamsReadRequest and StreamsReadResult
abbrev pub StreamsReadRequest : Type 0
StreamsReadRequest = List (Bytes × ReadStreamId)

abbrev pub StreamsReadResult : Type 0
StreamsReadResult = List (Bytes × List Entry)

abbrev pub add_nonempty : Bytes → List Entry → StreamsReadResult → StreamsReadResult
add_nonempty key [] rest = rest
add_nonempty key (e ∷ es) rest = (key, e ∷ es) ∷ rest

-- The loop of Storage::xread: a stream with nothing to read is left out.
unfoldable pub xread_all : StreamsReadRequest → Keyspace → Outcome StreamsReadResult
xread_all [] d = ok []
xread_all ((key, id) ∷ request) d =
    xread_key key id d >>= λ es. xread_all request d >>= λ rest. ok (add_nonempty key es rest)

-- Storage::type
unfoldable pub type : Bytes → Keyspace → StorageType
unfolding value_type
type key d = elim (find key d) [ none ↦ none_type | some v ↦ value_type v ]

-- Storage::keys, which ignores the selector
unfoldable pub keys : Bytes → Keyspace → List Bytes
keys selector d = key_list d
