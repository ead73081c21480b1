-- ===== src/Storage/Blocking/Wake.antt =====
-- A reader of `$` and the XADD that wakes it (Storage::xread, Storage::xadd and WaitHandle of
-- src/storage.cpp).
use mathlib.Core.Path.{subst}
use build_your_own_redis.Prelude.{
  ℕ, ◌<◌, ◌≡◌, refl, sym, ap, ◌∙◌, true, false, some, List, [], ◌∷◌, ltb, if◌then◌else◌,
}
use build_your_own_redis.Text.{Bytes, same_refl}
use build_your_own_redis.Outcome.{ok, ◌>>=◌}
use build_your_own_redis.Dict.{find, insert_or_assign}
use build_your_own_redis.Stream.Id.{InRange, StreamId, InputStreamId, ReadStreamId, zero_id}
use build_your_own_redis.Stream.Id.RoundTrip.{read_from_string-to_string}
use build_your_own_redis.Stream.Value.{StreamPartValue, StreamData, Entry, no_error, ms_of, last_id}
use build_your_own_redis.Stream.Value.Append.{IsSorted, HasRoom}
use build_your_own_redis.Stream.Value.Reads.{entries-xread}
use build_your_own_redis.Storage
use build_your_own_redis.Storage.Keyspace.{
  Keyspace, Added, stream_value, xread_key, xread_all, add_nonempty, StreamsReadRequest,
}
use build_your_own_redis.Storage.Keyspace.Stored.{stream_of}
use build_your_own_redis.Storage.Keyspace.Streams.{above, xread-xadd}
use build_your_own_redis.Storage.Blocking.{
  StorageState, WaitList, xread, xadd, wakened, answer_or_wait, setup, add_reader, register,
  resolve, resolve_all, waitlist, find_reader, release, replied, reply_reader, reply, reply_all,
  run_posted, is_held, holds, unregister, erase_node,
}

-- `$`
abbrev pub next_entry : ReadStreamId
next_entry = record { base = zero_id; is_next_expected = true }

-- A storage in which no reader waits.
abbrev pub idle : Keyspace → StorageState
idle d = record {
  items = d;
  stream_waitlists = [];
  readers = [];
  next_serial = 0;
  next_node = 0;
  posted = [];
  timeouts = [];
  answered = [];
}

-- The storage in which one reader waits for entries above an identifier.
abbrev pub waiting : Bytes → StreamId → ℕ → ℕ → Keyspace → StorageState
waiting key i ms callback d = record {
  items = d;
  stream_waitlists = (key, (0, 0) ∷ []) ∷ [];
  readers =
      record {
        serial = 0;
        request = (key, above i) ∷ [];
        callback = callback;
        stream_its = (key, 0) ∷ [];
        is_spent = false;
      }
      ∷ [];
  next_serial = 1;
  next_node = 1;
  posted = [];
  timeouts = if ltb 0 ms then (0, ms) ∷ [] else [];
  answered = [];
}

xread_all-one :
    (key : Bytes) (id : ReadStreamId) (d : Keyspace) (es : List Entry)
    → xread_key key id d ≡ ok es
    → xread_all ((key, id) ∷ []) d ≡ ok (add_nonempty key es [])
unfolding xread_all
xread_all-one key id d es e = rw e refl

xread_key-next :
    (key : Bytes) (d : Keyspace) (m : StreamData)
    → find key d ≡ some (stream_value m)
    → IsSorted m
    → xread_key key next_entry d ≡ ok []
unfolding xread_key
xread_key-next key d m e s = rw (e, xread_key) (entries-xread next_entry m s)

resolve_all-next :
    (key : Bytes) (d : Keyspace) (m : StreamData)
    → find key d ≡ some (stream_value m)
    → InRange (last_id m)
    → resolve_all ((key, next_entry) ∷ []) d ≡ ok ((key, above (last_id m)) ∷ [])
unfolding resolve_all resolve
resolve_all-next key d m e r = rw (e, resolve, read_from_string-to_string (last_id m) r) refl

xread-waiting :
    (key : Bytes) (ms callback : ℕ) (d : Keyspace) (m : StreamData)
    → find key d ≡ some (stream_value m)
    → IsSorted m
    → InRange (last_id m)
    → xread ((key, next_entry) ∷ []) (some ms) callback (idle d)
      ≡ ok (waiting key (last_id m) ms callback d)
unfolding xread answer_or_wait setup add_reader register waitlist find insert_or_assign
xread-waiting key ms callback d m e s r =
    rw
      (xread_all-one key next_entry d [] (xread_key-next key d m e s), resolve_all-next key d m e r)
      refl

-- XREAD above the last identifier of the stream of a key, after an XADD
xread-xadd_of :
    (now : ℕ) (key : Bytes) (in_id : InputStreamId) (values : StreamPartValue) (d : Keyspace)
    (m : StreamData)
    → find key d ≡ some (stream_value m)
    → IsSorted m
    → HasRoom m
    → (Storage.Keyspace.xadd now key in_id values d).error ≡ no_error
    → 0 < ms_of now
    → xread_key key (above (last_id m)) (Storage.Keyspace.xadd now key in_id values d).items
      ≡ ok (((Storage.Keyspace.xadd now key in_id values d).id, values) ∷ [])
xread-xadd_of now key in_id values d m e s room added pos =
    let same_stream : stream_of (find key d) ≡ m = ap stream_of e in
    subst
      (λ n.
        xread_key key (above (last_id n)) (Storage.Keyspace.xadd now key in_id values d).items
        ≡ ok (((Storage.Keyspace.xadd now key in_id values d).id, values) ∷ []))
      same_stream
      (xread-xadd now key in_id values d (subst IsSorted (sym same_stream) s)
        (subst HasRoom (sym same_stream) room) added pos)

-- The storage behind the reply.
abbrev pub replied_with : Bytes → ℕ → ℕ → Keyspace → List Entry → StorageState
replied_with key ms callback d es = record {
  items = d;
  stream_waitlists = (key, []) ∷ [];
  readers = [];
  next_serial = 1;
  next_node = 1;
  posted = [];
  timeouts = if ltb 0 ms then (0, ms) ∷ [] else [];
  answered = (callback, add_nonempty key es []) ∷ [];
}

waitlist-one : (key : Bytes) (l : WaitList) → waitlist key ((key, l) ∷ []) ≡ l
unfolding waitlist find
waitlist-one key l = rw (same_refl key, find, waitlist) refl

insert_or_assign-one :
    (key : Bytes) (k l : WaitList) → insert_or_assign key k ((key, l) ∷ []) ≡ (key, k) ∷ []
unfolding insert_or_assign
insert_or_assign-one key k l = rw (same_refl key) refl

-- The job that the XADD posted holds the reader.
wakened-waiting :
    (key : Bytes) (i j : StreamId) (ms callback : ℕ) (d e : Keyspace)
    → wakened key (record { items = e; id = j; error = no_error }) (waiting key i ms callback d)
      ≡ record (waiting key i ms callback e) { posted = (0 ∷ []) ∷ [] }
unfolding wakened
wakened-waiting key i j ms callback d e = rw (waitlist-one key ((0, 0) ∷ [])) refl

replied-waiting :
    (key : Bytes) (i : StreamId) (ms callback : ℕ) (d : Keyspace) (es : List Entry)
    → xread_key key (above i) d ≡ ok es
    → run_posted (record (waiting key i ms callback d) { posted = (0 ∷ []) ∷ [] })
      ≡ ok (replied_with key ms callback d es)
unfolding run_posted reply_all reply reply_reader replied find_reader release is_held holds
    unregister erase_node
replied-waiting key i ms callback d es h =
    rw
      (
        xread_all-one key (above i) d es h,
        waitlist-one key ((0, 0) ∷ []),
        insert_or_assign-one key [] ((0, 0) ∷ []),
      )
      refl

woken :
    (key : Bytes) (i : StreamId) (ms callback : ℕ) (d : Keyspace) (r : Added) (es : List Entry)
    → r.error ≡ no_error
    → xread_key key (above i) r.items ≡ ok es
    → run_posted (wakened key r (waiting key i ms callback d))
      ≡ ok (replied_with key ms callback r.items es)
woken key i ms callback d r es e h =
    subst
      (λ x.
        run_posted (
          wakened key (record { items = r.items; id = r.id; error = x })
            (waiting key i ms callback d))
        ≡ ok (replied_with key ms callback r.items es))
      (sym e)
      (ap run_posted (wakened-waiting key i r.id ms callback d r.items)
        ∙ replied-waiting key i ms callback r.items es h)

-- A reader that asks a stream for `$` waits; a successful XADD of that stream wakes it, and it is
-- answered with exactly the entry that was added, under the identifier that XADD returned. The
-- stream is ordered, its identifiers fit 64 bits and its top counter has room, the clock is past its
-- first millisecond, and no other reader waits.
pub xread-woken :
    (now : ℕ) (key : Bytes) (in_id : InputStreamId) (values : StreamPartValue) (d : Keyspace)
    (m : StreamData) (ms callback : ℕ)
    → find key d ≡ some (stream_value m)
    → IsSorted m
    → HasRoom m
    → InRange (last_id m)
    → 0 < ms_of now
    → (Storage.Keyspace.xadd now key in_id values d).error ≡ no_error
    → (xread ((key, next_entry) ∷ []) (some ms) callback (idle d) >>= λ s.
        run_posted (xadd now key in_id values s))
      ≡ ok (
          replied_with key ms callback
            (Storage.Keyspace.xadd now key in_id values d).items
            (((Storage.Keyspace.xadd now key in_id values d).id, values) ∷ []))
unfolding xadd
xread-woken now key in_id values d m ms callback e s room r pos added =
    rw (xread-waiting key ms callback d m e s r) (
      woken key (last_id m) ms callback d (Storage.Keyspace.xadd now key in_id values d) _ added
        (xread-xadd_of now key in_id values d m e s room added pos))
