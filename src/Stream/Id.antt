-- ===== src/Stream/Id.antt =====
-- StreamId, InputStreamId, BoundStreamId and ReadStreamId of src/storage.h and src/storage.cpp.
-- Their parts are `std::size_t`: numbers below 2 ^ 64.
pub mod Order
pub mod RoundTrip
use build_your_own_redis.Prelude.{
  ℕ, ◌<◌, String, Bool, true, false, ◌&&◌, ◌||◌, not, Option, none, some, [], ◌∷◌, ◌++◌, ltb, ◌==◌,
  if◌then◌else◌,
}
use build_your_own_redis.Text.{Bytes, text, same, split_first}
use build_your_own_redis.Text.Decimal.{u64_mod, decimal, parse_uint64}
use build_your_own_redis.Outcome.{Outcome, ok, err, ◌>>=◌}

pub record StreamId : Type 0 where
  pub ms : ℕ
  pub id : ℕ

-- Both parts fit `std::size_t`.
pub record InRange (i : StreamId) : Type 0 where
  pub ms_fits : i.ms < u64_mod
  pub id_fits : i.id < u64_mod

abbrev pub zero_id : StreamId
zero_id = record { ms = 0; id = 0 }

-- operator== and operator<
abbrev pub eq_id : StreamId → StreamId → Bool
eq_id i j = i.ms == j.ms && i.id == j.id

abbrev pub lt_id : StreamId → StreamId → Bool
lt_id i j = ltb i.ms j.ms || (i.ms == j.ms && ltb i.id j.id)

pub record InputStreamId : Type 0 where
  pub base : StreamId
  pub open base use *
  pub id_wildcard : Bool
  pub general_wildcard : Bool

pub record BoundStreamId : Type 0 where
  pub base : StreamId
  pub open base use *
  pub is_left_unbound : Bool
  pub is_right_unbound : Bool

pub record ReadStreamId : Type 0 where
  pub base : StreamId
  pub open base use *
  pub is_next_expected : Bool

-- StreamId::is_null, InputStreamId::is_full_defined and InputStreamId::is_null
abbrev pub is_null : StreamId → Bool
is_null i = i.ms == 0 && i.id == 0

abbrev pub is_full_defined : InputStreamId → Bool
is_full_defined i = not i.general_wildcard && not i.id_wildcard

abbrev pub input_is_null : InputStreamId → Bool
input_is_null i = is_full_defined i && is_null i.base

-- parseUInt64 of one part, with the exception of the source.
unfoldable pub parse_part : String → Bytes → Bytes → Outcome ℕ
parse_part message str part = elim (parse_uint64 part) [
  | none ↦ err (text message ++ str)
  | some n ↦ ok n
]

abbrev pub bad_first : String
bad_first = "unexpected first part of StreamId: should be number: "

abbrev pub bad_second : String
bad_second = "unexpected second part of StreamId: should be number: "

-- The two parts of a text, the second one only behind a '-'.
unfoldable pub from_parts : Bytes → Option (Bytes × Bytes) → Outcome StreamId
from_parts str none = do ms ← parse_part bad_first str str; ok (record { ms = ms; id = 0 })
from_parts str (some (l, r)) = do
  ms ← parse_part bad_first str l
  id ← parse_part bad_second str r
  ok (record { ms = ms; id = id })

-- StreamId::from_string
unfoldable pub from_string : Bytes → Outcome StreamId
from_string str =
    if same str []
    then err (text "empty StreamId is not allowed")
    else if same str (text "0")
    then ok zero_id
    else from_parts str (split_first b'-' str)

-- StreamId::to_string
unfoldable pub to_string : StreamId → Bytes
to_string i = decimal i.ms ++ b'-' ∷ decimal i.id

abbrev pub full_id : StreamId → InputStreamId
full_id i = record { base = i; id_wildcard = false; general_wildcard = false }

unfoldable pub input_from_parts : Bytes → Option (Bytes × Bytes) → Outcome InputStreamId
input_from_parts str none = err (text "unexpected StreamId composition: " ++ str)
input_from_parts str (some (l, r)) = do
  ms ← parse_part bad_first str l
  if same r (text "*")
      then ok (record {
        base = record { ms = ms; id = 0 };
        id_wildcard = true;
        general_wildcard = false;
      })
      else do id ← parse_part bad_second str r; ok (full_id (record { ms = ms; id = id }))

-- InputStreamId::from_string and InputStreamId::to_string
unfoldable pub input_from_string : Bytes → Outcome InputStreamId
input_from_string str =
    if same str (text "0")
    then ok (full_id zero_id)
    else if same str (text "*")
    then ok (record { base = zero_id; id_wildcard = false; general_wildcard = true })
    else input_from_parts str (split_first b'-' str)

unfoldable pub input_to_string : InputStreamId → Bytes
unfolding to_string
input_to_string i =
    if i.general_wildcard
    then text "*"
    else if i.id_wildcard
    then decimal i.ms ++ text "-*"
    else to_string i.base

-- BoundStreamId::from_string and BoundStreamId::to_string
unfoldable pub bound_from_string : Bytes → Outcome BoundStreamId
bound_from_string str =
    if same str (text "-")
    then ok (record { base = zero_id; is_left_unbound = true; is_right_unbound = false })
    else if same str (text "+")
    then ok (record { base = zero_id; is_left_unbound = false; is_right_unbound = true })
    else do
      i ← from_string str
      ok (record { base = i; is_left_unbound = false; is_right_unbound = false })

unfoldable pub bound_to_string : BoundStreamId → Bytes
unfolding to_string
bound_to_string i =
    if i.is_left_unbound
    then text "-"
    else if i.is_right_unbound
    then text "+"
    else to_string i.base

-- ReadStreamId::from_string and ReadStreamId::to_string
unfoldable pub read_from_string : Bytes → Outcome ReadStreamId
read_from_string str =
    if same str (text "$")
    then ok (record { base = zero_id; is_next_expected = true })
    else do i ← from_string str; ok (record { base = i; is_next_expected = false })

unfoldable pub read_to_string : ReadStreamId → Bytes
unfolding to_string
read_to_string i = if i.is_next_expected then text "$" else to_string i.base
