-- ===== src/Tests/Streams.antt =====
-- Streams and the keys of the storage at concrete inputs.
use build_your_own_redis.Prelude.{
  ◌-◌, ◌≡◌, ◌≢◌, refl, true, false, not, ◌&&◌, none, some, List, [], ◌∷◌, ◌++◌, arith, inr,
  if◌then◌else◌,
}
use build_your_own_redis.Prelude.Cut.{select}
use build_your_own_redis.Text.{Bytes, text, same}
use build_your_own_redis.Text.Decimal.{u64_mod}
use build_your_own_redis.Outcome.{ok, undefined}
use build_your_own_redis.Dict.{find}
use build_your_own_redis.Stream.Id.{StreamId, InputStreamId, BoundStreamId, lt_id, full_id}
use build_your_own_redis.Stream
use build_your_own_redis.Stream.Value.{
  StreamErrorType, no_error, must_be_more_than_top, must_be_not_zero_id, StreamPartValue,
  StreamData, id_of, append, entries, choose, choose_after, choose_first, finish, emplace, top_id,
  xread, last_id,
}
use build_your_own_redis.Stream.Value.Append.{IsSorted, HasRoom}
use build_your_own_redis.Stream.Value.Accepts.{
  Settles, append-Settles, explicit_error, append_explicit, append_wraps,
}
use build_your_own_redis.Stream.Value.Ranges.{
  is_before, is_not_behind, entries-xrange, entries-xrange_reversed,
}
use build_your_own_redis.Stream.Value.Reads.{after, entries-xread}
use build_your_own_redis.Storage.Keyspace.{
  StorageType, stream_type, string_type, Keyspace, stream_value, xadd, xadd_found, xrange, set, get,
}
use build_your_own_redis.Storage.Keyspace.Expiry.{is_alive, get-set_self}
use build_your_own_redis.Storage.Keyspace.Stored.{stream_of}
use build_your_own_redis.Storage.Keyspace.Streams.{from_start, to_end, above, xrange-xadd}
use build_your_own_redis.Storage.Keyspace.Typed.{IsTyped, perform_all-IsTyped}
use build_your_own_redis.Storage.Keyspace.Invariant.{
  IsValid, Operation, setting, getting, adding, perform_all, perform_all-IsValid,
}

abbrev temperature : StreamPartValue
temperature = (text "t", text "36") ∷ []

abbrev two : StreamData
two = (id_of 1 1, temperature) ∷ (id_of 2 5, []) ∷ []

two-IsSorted : IsSorted two
two-IsSorted = ((refl, tt), (tt, tt))

two-HasRoom : HasRoom two
unfolding top_id
two-HasRoom t e = ground arith

-- `2-*`
abbrev next_in_two : InputStreamId
next_in_two = record { base = id_of 2 0; id_wildcard = true; general_wildcard = false }

abbrev bound : StreamId → BoundStreamId
bound i = record { base = i; is_left_unbound = false; is_right_unbound = false }

append_next : (append 0 next_in_two temperature two).id ≡ id_of 2 6
unfolding append choose choose_after finish top_id
append_next = refl

append-Settles_example : Settles (append 0 next_in_two temperature two) temperature two
append-Settles_example = append-Settles 0 next_in_two temperature two two-IsSorted two-HasRoom

append_explicit_example :
    (append 0 (full_id (id_of 2 5)) temperature two).error ≡ explicit_error (id_of 2 5) (top_id two)
append_explicit_example = append_explicit 0 (id_of 2 5) temperature two

abbrev full : StreamData
full = (id_of 2 (u64_mod - 1), []) ∷ []

append_wraps_example :
    ((append 0 next_in_two temperature full).error ≡ no_error)
    × ((append 0 next_in_two temperature full).id ≡ id_of 2 0)
    × (lt_id (append 0 next_in_two temperature full).id (id_of 2 (u64_mod - 1)) ≡ true)
unfolding top_id
append_wraps_example =
    append_wraps 0 next_in_two temperature full (id_of 2 (u64_mod - 1)) refl refl refl refl refl

entries-xrange_example :
    entries two (Stream.Value.xrange (bound (id_of 1 2)) (bound (id_of 2 5)) two)
    ≡ ok (
        select
          (λ e. not (is_before (bound (id_of 1 2)) e) && is_not_behind (bound (id_of 2 5)) e)
          two)
entries-xrange_example =
    entries-xrange (bound (id_of 1 2)) (bound (id_of 2 5)) two two-IsSorted (inr (inr refl))

entries-xrange_reversed_example :
    entries
      ([] ++ (id_of 2 0, []) ∷ [])
      (Stream.Value.xrange (bound (id_of 3 0)) (bound (id_of 1 0)) ([] ++ (id_of 2 0, []) ∷ []))
    ≡ undefined
entries-xrange_reversed_example =
    entries-xrange_reversed (bound (id_of 3 0)) (bound (id_of 1 0)) [] [] (id_of 2 0, []) (tt, tt)
      refl refl refl refl

entries-xread_example :
    entries two (xread (above (id_of 1 1)) two)
    ≡ ok (if (above (id_of 1 1)).is_next_expected then [] else after (id_of 1 1) two)
entries-xread_example = entries-xread (above (id_of 1 1)) two two-IsSorted

abbrev kept : Keyspace
kept = (text "s", stream_value two) ∷ []

find-kept : find (text "s") kept ≡ some (stream_value two)
unfolding find text same
find-kept = refl

kept-IsSorted : IsSorted (stream_of (find (text "s") kept))
kept-IsSorted = rw find-kept two-IsSorted

kept-HasRoom : HasRoom (stream_of (find (text "s") kept))
kept-HasRoom = rw find-kept two-HasRoom

kept-added : (xadd 1_000_000 (text "s") next_in_two temperature kept).error ≡ no_error
unfolding xadd xadd_found append choose choose_after finish top_id find text same
kept-added = refl

xrange-xadd_example :
    xrange
      (text "s")
      from_start
      to_end
      (xadd 1_000_000 (text "s") next_in_two temperature kept).items
    ≡ ok (
        stream_of (find (text "s") kept)
        ++ ((xadd 1_000_000 (text "s") next_in_two temperature kept).id, temperature) ∷ [])
xrange-xadd_example =
    xrange-xadd 1_000_000 (text "s") next_in_two temperature kept kept-IsSorted kept-HasRoom
      kept-added

kept-refused : (xadd 0 (text "s") (full_id (id_of 2 5)) temperature kept).error ≢ no_error
unfolding xadd xadd_found append choose choose_after finish top_id find text same
kept-refused p = cc

get-set_self_example :
    (get 999_999 (text "k") (set 0 (text "k") (text "v") (some 1) kept)).1
    ≡ (if is_alive 0 (some 1) 999_999 then some (text "v") else none)
get-set_self_example = get-set_self 0 999_999 (text "k") (text "v") (some 1) kept

keys_ne : text "k" ≢ text "j"
unfolding text
keys_ne p = ground arith

abbrev operations : List Operation
operations =
    adding 1_000_000 (text "s") next_in_two temperature
    ∷ setting 1_000_000 (text "k") (text "v") (some 1)
    ∷ getting 9_000_000 (text "k")
    ∷ []

perform_all-IsValid_example : IsValid (perform_all operations [])
perform_all-IsValid_example = perform_all-IsValid operations [] (tt, tt)

abbrev kind : Bytes → StorageType
kind key = if same key (text "s") then stream_type else string_type

perform_all-IsTyped_example : IsTyped kind (perform_all operations [])
unfolding find text same
perform_all-IsTyped_example =
    perform_all-IsTyped kind operations [] (tt, tt) (λ key v e. cc) (refl, (refl, (tt, tt)))
