-- ===== src/Stream/Value.antt =====
-- StreamValue of src/storage.h and src/storage.cpp: an ordered map from identifiers to entries.
-- An iterator into the map is the number of entries before it, as no entry is ever erased.
pub mod Append
pub mod Accepts
pub mod Ranges
pub mod Reads
use build_your_own_redis.Prelude.{
  ℕ, suc, ◌+◌, ◌-◌, ◌/◌, ◌%◌, ◌^◌, Bool, true, false, not, Option, none, some, List, [], ◌∷◌, ltb,
  leb, ◌==◌, if◌then◌else◌, ◌&&◌, length, take, drop,
}
use build_your_own_redis.Prelude.Cut.{count_while}
use build_your_own_redis.Text.{Bytes}
use build_your_own_redis.Text.Decimal.{u64_mod}
use build_your_own_redis.Outcome.{Outcome, ok, undefined}
use build_your_own_redis.Stream.Id.{
  StreamId, InputStreamId, BoundStreamId, ReadStreamId, zero_id, eq_id, lt_id, input_is_null,
}

-- StreamErrorType
pub data StreamErrorType : Type 0 where
  no_error must_be_not_zero_id must_be_more_than_top wrong_key_type : StreamErrorType

-- StreamPartValue, an entry, and StreamDataType: a list of entries in the order of the map
abbrev pub StreamPartValue : Type 0
StreamPartValue = List (Bytes × Bytes)

abbrev pub Entry : Type 0
Entry = StreamId × StreamPartValue

abbrev pub StreamData : Type 0
StreamData = List Entry

-- The key of `rbegin()`.
unfoldable pub top_id : StreamData → Option StreamId
top_id [] = none
top_id (e ∷ []) = some e.0
top_id (e ∷ f ∷ m) = top_id (f ∷ m)

-- `std::map::emplace_hint`: the map stays as it is where the key is already there.
unfoldable pub emplace : StreamId → StreamPartValue → StreamData → StreamData
emplace i v [] = (i, v) ∷ []
emplace i v ((j, w) ∷ m) =
    if lt_id i j
    then (i, v) ∷ (j, w) ∷ m
    else if lt_id j i
    then (j, w) ∷ emplace i v m
    else (j, w) ∷ m

-- `duration_cast<milliseconds>` of the clock, which counts nanoseconds
abbrev pub ms_of : ℕ → ℕ
ms_of now = now / 1_000_000

-- `++last_id.id` on a `std::size_t`
abbrev pub next_counter : StreamId → ℕ
next_counter last = (last.id + 1) % u64_mod

-- The identifier of a new entry, or the error of an early return.
pub data Choice : Type 0 where
  chosen : StreamId → Choice
  refused : StreamErrorType → Choice

abbrev pub id_of : ℕ → ℕ → StreamId
id_of ms id = record { ms = ms; id = id }

unfoldable pub choose_after : ℕ → StreamId → InputStreamId → Choice
choose_after now last in_id =
    if in_id.general_wildcard
    then (if leb (ms_of now) last.ms
        then chosen (id_of last.ms (next_counter last))
        else chosen (id_of (ms_of now) 0))
    else if in_id.id_wildcard
    then (if ltb in_id.ms last.ms
        then refused must_be_more_than_top
        else if in_id.ms == last.ms
        then chosen (id_of in_id.ms (next_counter last))
        else chosen (id_of in_id.ms 0))
    else if ltb in_id.ms last.ms
    then refused must_be_more_than_top
    else if in_id.ms == last.ms && leb in_id.id last.id
    then refused must_be_more_than_top
    else chosen (id_of in_id.ms in_id.id)

unfoldable pub choose_first : ℕ → InputStreamId → Choice
choose_first now in_id =
    if in_id.general_wildcard
    then chosen (id_of (ms_of now) 0)
    else if in_id.id_wildcard
    then (if in_id.ms == 0 then chosen (id_of 0 1) else chosen (id_of in_id.ms 0))
    else chosen (id_of in_id.ms in_id.id)

unfoldable pub choose : ℕ → Option StreamId → InputStreamId → Choice
unfolding choose_after choose_first
choose now none in_id = choose_first now in_id
choose now (some last) in_id = choose_after now last in_id

-- The result of an append: the new map, and the tuple that the source returns.
pub record Appended : Type 0 where
  pub content : StreamData
  pub id : StreamId
  pub error : StreamErrorType

unfoldable pub finish : StreamData → StreamPartValue → Choice → Appended
finish m values (refused e) = record { content = m; id = zero_id; error = e }
finish m values (chosen i) = record { content = emplace i values m; id = i; error = no_error }

-- StreamValue::append
unfoldable pub append : ℕ → InputStreamId → StreamPartValue → StreamData → Appended
unfolding choose finish
append now in_id values m =
    if input_is_null in_id
    then record { content = m; id = zero_id; error = must_be_not_zero_id }
    else finish m values (choose now (top_id m) in_id)

-- StreamRange: two iterators.
pub record StreamRange : Type 0 where
  pub begin : ℕ
  pub end : ℕ

-- `StreamRange{}`: two equal iterators.
abbrev pub empty_range : StreamRange
empty_range = record { begin = 0; end = 0 }

-- What a loop `for (auto& e : range)` visits. Where `begin` lies behind `end` the loop does not
-- meet `end` before it leaves the map.
unfoldable pub entries : StreamData → StreamRange → Outcome (List Entry)
entries m r = if leb r.begin r.end then ok (take (r.end - r.begin) (drop r.begin m)) else undefined

unfoldable pub lower_bound : StreamId → StreamData → ℕ
lower_bound i m = count_while (λ e. lt_id e.0 i) m

unfoldable pub upper_bound : StreamId → StreamData → ℕ
upper_bound i m = count_while (λ e. not (lt_id i e.0)) m

-- StreamValue::xrange
unfoldable pub xrange : BoundStreamId → BoundStreamId → StreamData → StreamRange
unfolding lower_bound upper_bound
xrange left_id right_id m = record {
  begin = if left_id.is_left_unbound then 0 else lower_bound left_id.base m;
  end = if right_id.is_right_unbound then length m else upper_bound right_id.base m;
}

-- StreamValue::xread, from the position that `lower_bound` gave and what stands there
unfoldable pub xread_from : ReadStreamId → StreamData → ℕ → StreamData → StreamRange
xread_from id m begin [] = empty_range
xread_from id m begin (e ∷ rest) =
    if eq_id e.0 id.base
    then record { begin = begin + 1; end = length m }
    else record { begin = begin; end = length m }

unfoldable pub xread : ReadStreamId → StreamData → StreamRange
unfolding lower_bound xread_from
xread id m =
    if id.is_next_expected
    then empty_range
    else xread_from id m (lower_bound id.base m) (drop (lower_bound id.base m) m)

-- StreamValue::last_id
unfoldable pub last_id : StreamData → StreamId
unfolding top_id
last_id m = elim (top_id m) [ none ↦ zero_id | some i ↦ i ]
