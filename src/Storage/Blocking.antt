-- ===== src/Storage/Blocking.antt =====
-- Storage with the readers that a blocking XREAD makes wait: Storage::WaitHandle, xread and xadd of
-- src/storage.cpp. A reader is known by a number, which stands for its address; a node of a wait
-- list holds the number of its reader. The jobs that are posted are the lists of readers that they
-- wake.
pub mod Steps
pub mod Wake
use build_your_own_redis.Prelude.{
  ℕ, suc, ◌+◌, Bool, true, false, not, Option, none, some, List, [], ◌∷◌, ◌++◌, map, ltb, ◌==◌,
  if◌then◌else◌,
}
use build_your_own_redis.Text.{Bytes, text}
use build_your_own_redis.Outcome.{Outcome, ok, undefined, ◌>>=◌}
use build_your_own_redis.Dict.{Dict, find, insert_or_assign}
use build_your_own_redis.Stream.Id.{InputStreamId, ReadStreamId, to_string, read_from_string}
use build_your_own_redis.Stream.Value.{StreamErrorType, no_error, StreamPartValue, last_id}
use build_your_own_redis.Storage
use build_your_own_redis.Storage.Keyspace.{
  Keyspace, Added, string_value, stream_value, StreamsReadRequest, StreamsReadResult, xread_all,
}

-- Storage::WaitHandle. `is_spent` is set where it has replied and a list still holds it.
pub record Reader : Type 0 where
  pub serial : ℕ
  pub request : StreamsReadRequest
  pub callback : ℕ
  pub stream_its : Dict ℕ
  pub is_spent : Bool

-- A wait list: nodes and their readers.
abbrev pub WaitList : Type 0
WaitList = List (ℕ × ℕ)

pub record StorageState : Type 0 where
  pub items : Keyspace
  pub stream_waitlists : Dict WaitList
  pub readers : List Reader
  pub next_serial : ℕ
  pub next_node : ℕ
  pub posted : List (List ℕ)
  pub timeouts : List (ℕ × ℕ)
  pub answered : List (ℕ × StreamsReadResult)

-- `_stream_waitlists[key]`
unfoldable pub waitlist : Bytes → Dict WaitList → WaitList
waitlist key w = elim (find key w) [ none ↦ [] | some l ↦ l ]

-- The identifier that `$` stands for in WaitHandle::setup.
unfoldable pub resolve : Bytes → ReadStreamId → Keyspace → Outcome ReadStreamId
resolve key id d =
    if id.is_next_expected
    then (elim (find key d) [
      | none ↦ read_from_string (text "0")
      | some (string_value s) ↦ undefined
      | some (stream_value m) ↦ read_from_string (to_string (last_id m))
    ])
    else ok id

unfoldable pub resolve_all : StreamsReadRequest → Keyspace → Outcome StreamsReadRequest
unfolding resolve
resolve_all [] d = ok []
resolve_all ((key, id) ∷ request) d =
    resolve key id d >>= λ i. resolve_all request d >>= λ rest. ok ((key, i) ∷ rest)

-- The loop of WaitHandle::setup: a node in the list of each key. A key that comes twice keeps its
-- last node only.
pub record Registered : Type 0 where
  pub lists : Dict WaitList
  pub its : Dict ℕ
  pub next : ℕ

unfoldable pub register : ℕ → StreamsReadRequest → Registered → Registered
unfolding waitlist
register serial [] r = r
register serial ((key, id) ∷ request) r = register serial request (record {
  lists = insert_or_assign key (waitlist key r.lists ++ (r.next, serial) ∷ []) r.lists;
  its = insert_or_assign key r.next r.its;
  next = r.next + 1;
})

unfoldable pub add_reader :
    StreamsReadRequest → ℕ → ℕ → StorageState → StreamsReadRequest → StorageState
unfolding register
add_reader request timeout_ms callback s resolved =
    let r =
      register s.next_serial request
        (record { lists = s.stream_waitlists; its = []; next = s.next_node }) in
    record s {
      stream_waitlists = r.lists;
      next_node = r.next;
      next_serial = s.next_serial + 1;
      readers =
          s.readers
          ++ record {
            serial = s.next_serial;
            request = resolved;
            callback = callback;
            stream_its = r.its;
            is_spent = false;
          }
            ∷ [];
      timeouts =
          if ltb 0 timeout_ms then s.timeouts ++ (s.next_serial, timeout_ms) ∷ [] else s.timeouts;
    }

-- WaitHandle::setup
unfoldable pub setup : StreamsReadRequest → ℕ → ℕ → StorageState → Outcome StorageState
unfolding resolve_all add_reader
setup request timeout_ms callback s = resolve_all request s.items >>= λ resolved.
    ok (add_reader request timeout_ms callback s resolved)

unfoldable pub answer : ℕ → StreamsReadResult → StorageState → StorageState
answer callback result s = record s { answered = s.answered ++ (callback, result) ∷ [] }

-- The result of Storage::xread is there: answer, or wait where there is nothing to read.
unfoldable pub answer_or_wait :
    StreamsReadRequest → Option ℕ → ℕ → StorageState → StreamsReadResult → Outcome StorageState
unfolding setup answer
answer_or_wait request none callback s result = ok (answer callback result s)
answer_or_wait request (some block_ms) callback s [] = setup request block_ms callback s
answer_or_wait request (some block_ms) callback s (r ∷ result) = ok (answer callback (r ∷ result) s)

-- Storage::xread
unfoldable pub xread : StreamsReadRequest → Option ℕ → ℕ → StorageState → Outcome StorageState
unfolding answer_or_wait
xread request block_ms callback s =
    xread_all request s.items >>= answer_or_wait request block_ms callback s

unfoldable pub wakened : Bytes → Added → StorageState → StorageState
unfolding waitlist
wakened key r s = elim r.error [
  | no_error ↦ record s {
    items = r.items;
    posted = s.posted ++ map (λ (n : ℕ × ℕ). n.1) (waitlist key s.stream_waitlists) ∷ [];
  }
  | _ ↦ record s { items = r.items }
]

-- Storage::xadd: a successful one posts the job that wakes the readers of the key.
unfoldable pub xadd : ℕ → Bytes → InputStreamId → StreamPartValue → StorageState → StorageState
unfolding wakened
xadd now key id values s = wakened key (Storage.Keyspace.xadd now key id values s.items) s

unfoldable pub erase_node : ℕ → WaitList → WaitList
erase_node node [] = []
erase_node node ((n, serial) ∷ l) =
    let rest = erase_node node l in if n == node then rest else (n, serial) ∷ rest

-- The loop of WaitHandle::reply over the nodes of the reader.
unfoldable pub unregister : Dict ℕ → Dict WaitList → Dict WaitList
unfolding waitlist erase_node
unregister [] w = w
unregister ((key, node) ∷ its) w =
    unregister its (insert_or_assign key (erase_node node (waitlist key w)) w)

unfoldable pub holds : ℕ → WaitList → Bool
holds serial [] = false
holds serial ((n, i) ∷ l) = if i == serial then true else holds serial l

-- Does a list still hold the reader?
unfoldable pub is_held : ℕ → Dict WaitList → Bool
unfolding holds
is_held serial [] = false
is_held serial ((key, l) ∷ w) = if holds serial l then true else is_held serial w

unfoldable pub find_reader : ℕ → List Reader → Option Reader
find_reader serial [] = none
find_reader serial (r ∷ rs) = if r.serial == serial then some r else find_reader serial rs

-- The reader after its reply: freed, or still held by a list.
unfoldable pub release : ℕ → Bool → List Reader → List Reader
release serial held [] = []
release serial held (r ∷ rs) =
    let rest = release serial held rs in
    if r.serial == serial
    then (if held then record r { is_spent = true } ∷ rs else rs)
    else r ∷ rest

unfoldable pub replied : Reader → StorageState → StreamsReadResult → StorageState
unfolding answer unregister is_held release
replied r s result =
    let lists = unregister r.stream_its s.stream_waitlists in
    record s {
      stream_waitlists = lists;
      readers = release r.serial (is_held r.serial lists) s.readers;
      answered = s.answered ++ (r.callback, result) ∷ [];
    }

-- WaitHandle::reply of a reader that is there. A second reply calls a callback that was moved away
-- and erases nodes that are gone.
unfoldable pub reply_reader : Reader → StorageState → Outcome StorageState
unfolding replied
reply_reader r s =
    if r.is_spent
    then undefined
    else xread_all r.request s.items >>= λ result. ok (replied r s result)

-- A weak pointer to a reader is locked, and the reader replies if it is still there.
unfoldable pub reply : ℕ → StorageState → Outcome StorageState
unfolding find_reader reply_reader
reply serial s = elim (find_reader serial s.readers) [ none ↦ ok s | some r ↦ reply_reader r s ]

unfoldable pub reply_all : List ℕ → StorageState → Outcome StorageState
unfolding reply
reply_all [] s = ok s
reply_all (serial ∷ rest) s = reply serial s >>= reply_all rest

-- Is there a timeout job of the reader? The job is there until it has run.
unfoldable pub has_timeout : ℕ → List (ℕ × ℕ) → Bool
has_timeout serial [] = false
has_timeout serial ((i, ms) ∷ l) = if i == serial then true else has_timeout serial l

unfoldable pub erase_timeout : ℕ → List (ℕ × ℕ) → List (ℕ × ℕ)
erase_timeout serial [] = []
erase_timeout serial ((i, ms) ∷ l) =
    let rest = erase_timeout serial l in if i == serial then rest else (i, ms) ∷ rest

unfoldable pub timeout : ℕ → StorageState → Outcome StorageState
unfolding reply has_timeout erase_timeout
timeout serial s =
    if has_timeout serial s.timeouts
    then reply serial (record s { timeouts = erase_timeout serial s.timeouts })
    else ok s

-- The event loop runs the oldest posted job.
unfoldable pub run_posted : StorageState → Outcome StorageState
unfolding reply_all
run_posted s = elim s.posted [ [] ↦ ok s | job ∷ jobs ↦ reply_all job (record s { posted = jobs }) ]
