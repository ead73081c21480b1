-- ===== src/Tests/Readers.antt =====
-- Readers that wait, at concrete inputs.
use build_your_own_redis.Prelude.{◌+◌, ◌≡◌, refl, some, List, [], ◌∷◌, arith}
use build_your_own_redis.Text.{text, same}
use build_your_own_redis.Outcome.{Outcome, ok, ◌>>=◌}
use build_your_own_redis.Dict.{find, insert_or_assign}
use build_your_own_redis.Stream.Id.{InRange, full_id}
use build_your_own_redis.Stream.Value.{
  StreamPartValue, StreamData, id_of, no_error, append, choose, choose_after, choose_first, finish,
  top_id, last_id, emplace,
}
use build_your_own_redis.Stream.Value.Append.{HasRoom}
use build_your_own_redis.Storage
use build_your_own_redis.Stream
use build_your_own_redis.Storage.Keyspace.{xread_all, xread_key}
use build_your_own_redis.Stream.Id.{
  read_from_string, to_string, from_string, from_parts, parse_part,
}
use build_your_own_redis.Text.Decimal.{decimal, parse_uint64, digits, from_digits, scan, skip_plus}
use build_your_own_redis.Text.{split_first}
use build_your_own_redis.Prelude.Cut.{count_while}
use build_your_own_redis.Stream.Value.{entries, lower_bound, xread_from}
use build_your_own_redis.Storage.Blocking.{
  add_reader, answer, answer_or_wait, erase_node, erase_timeout, find_reader, has_timeout, holds,
  is_held, register, release, replied, reply, reply_all, reply_reader, resolve, resolve_all, setup,
  timeout, unregister, waitlist, wakened,
}
use build_your_own_redis.Storage.Keyspace.{Keyspace, stream_value, xadd_found}
use build_your_own_redis.Storage.Blocking.{StorageState, xread, xadd, run_posted}
use build_your_own_redis.Storage.Blocking.Steps.{
  Event, reads, adds, runs_posted, times_out, happen_all, happen, count_reads, all_readers,
  all_readers-happen_all,
}
use build_your_own_redis.Storage.Blocking.Wake.{next_entry, idle, replied_with, xread-woken}

abbrev one : StreamData
one = (id_of 2 5, []) ∷ []

abbrev store : Keyspace
store = (text "s", stream_value one) ∷ []

find-store : find (text "s") store ≡ some (stream_value one)
unfolding find text same
find-store = refl

one-HasRoom : HasRoom one
unfolding top_id
one-HasRoom t e = ground arith

one-InRange : InRange (last_id one)
unfolding last_id top_id
one-InRange = record { ms_fits = omega arith; id_fits = omega arith }

store-added :
    (Storage.Keyspace.xadd 1_000_000 (text "s") (full_id (id_of 3 0)) [] store).error ≡ no_error
unfolding Storage.Keyspace.xadd xadd_found append choose choose_after finish top_id find text same
store-added = refl

xread-woken_example :
    (xread ((text "s", next_entry) ∷ []) (some 100) 7 (idle store) >>= λ s.
    run_posted (xadd 1_000_000 (text "s") (full_id (id_of 3 0)) [] s))
    ≡ ok (
        replied_with
          (text "s")
          100
          7
          (Storage.Keyspace.xadd 1_000_000 (text "s") (full_id (id_of 3 0)) [] store).items
          (((Storage.Keyspace.xadd 1_000_000 (text "s") (full_id (id_of 3 0)) [] store).id, [])
            ∷ []))
xread-woken_example =
    xread-woken 1_000_000 (text "s") (full_id (id_of 3 0)) [] store one 100 7 find-store (tt, tt)
      one-HasRoom one-InRange (omega arith) store-added

abbrev events : List Event
events =
    reads ((text "s", next_entry) ∷ []) (some 100) 7
    ∷ adds 1_000_000 (text "s") (full_id (id_of 3 0)) []
    ∷ runs_posted
    ∷ times_out 0
    ∷ []

abbrev ok_or : StorageState → Outcome StorageState → StorageState
ok_or s (ok t) = t
ok_or s _ = s

abbrev passed : StorageState
passed = ok_or (idle store) (happen_all events (idle store))

events-happen_all : happen_all events (idle store) ≡ ok passed
unfolding happen_all happen xread xadd run_posted text find same last_id append insert_or_assign
    xadd_found choose choose_after choose_first emplace finish top_id Storage.Keyspace.xadd
    Stream.Value.xread xread_all xread_key read_from_string to_string from_string from_parts
    parse_part decimal parse_uint64 digits from_digits scan skip_plus split_first count_while
    entries lower_bound xread_from add_reader answer answer_or_wait erase_node erase_timeout
    find_reader has_timeout holds is_held register release replied reply reply_all reply_reader
    resolve resolve_all setup timeout unregister waitlist wakened
events-happen_all = refl

all_readers-happen_all_example : all_readers passed ≡ all_readers (idle store) + count_reads events
all_readers-happen_all_example = all_readers-happen_all events (idle store) passed events-happen_all
