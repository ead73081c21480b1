-- ===== src/Storage/Blocking/Steps.antt =====
-- The number of readers and of answers, over the calls of Storage and the jobs that its event loop
-- runs (src/storage.cpp).
use mathlib.Core.Path.{subst}
use build_your_own_redis.Prelude.{
  ℕ, suc, ◌+◌, ◌≡◌, ◌≢◌, refl, sym, ap, ◌∙◌, Option-cases, Bool, false, Option, none, some, List,
  [], ◌∷◌, ◌++◌, arith, length, length-append, Bool-cases, inl, inr, ◌==◌, if◌then◌else◌,
}
use build_your_own_redis.Text.{Bytes}
use build_your_own_redis.Outcome.{Outcome, ok, undefined, ◌>>=◌, >>=-eq-ok}
use build_your_own_redis.Stream.Id.{InputStreamId}
use build_your_own_redis.Stream.Value.{StreamPartValue}
use build_your_own_redis.Storage.Keyspace.{StreamsReadRequest, StreamsReadResult, xread_all}
use build_your_own_redis.Storage.Blocking.{
  StorageState, Reader, xread, xadd, wakened, answer, answer_or_wait, setup, add_reader,
  resolve_all, find_reader, release, replied, reply_reader, reply, reply_all, run_posted, timeout,
  is_held, unregister, has_timeout, erase_timeout,
}

-- A call of the storage or a step of the event loop.
pub data Event : Type 0 where
  reads : StreamsReadRequest → Option ℕ → ℕ → Event
  adds : ℕ → Bytes → InputStreamId → StreamPartValue → Event
  runs_posted : Event
  times_out : ℕ → Event

unfoldable pub happen : Event → StorageState → Outcome StorageState
happen (reads request block_ms callback) s = xread request block_ms callback s
happen (adds now key id values) s = ok (xadd now key id values s)
happen runs_posted s = run_posted s
happen (times_out serial) s = timeout serial s

unfoldable pub happen_all : List Event → StorageState → Outcome StorageState
unfolding happen
happen_all [] s = ok s
happen_all (e ∷ es) s = happen e s >>= λ t. happen_all es t

unfoldable pub count_reads : List Event → ℕ
count_reads [] = 0
count_reads (reads request block_ms callback ∷ es) = suc (count_reads es)
count_reads (e ∷ es) = count_reads es

-- The readers that still wait.
unfoldable pub count_waiting : List Reader → ℕ
count_waiting [] = 0
count_waiting (r ∷ rs) = if r.is_spent then count_waiting rs else suc (count_waiting rs)

-- Readers that wait and answers given.
unfoldable pub all_readers : StorageState → ℕ
all_readers s = count_waiting s.readers + length s.answered

count_waiting-append :
    (rs ss : List Reader) → count_waiting (rs ++ ss) ≡ count_waiting rs + count_waiting ss
unfolding count_waiting
count_waiting-append [] ss = omega arith
count_waiting-append (r ∷ rs) ss = ground (arith, count_waiting-append rs ss)

find_reader-serial :
    (serial : ℕ) (rs : List Reader) (r : Reader)
    → find_reader serial rs ≡ some r
    → r.serial ≡ serial
unfolding find_reader
find_reader-serial serial [] r e = cc
find_reader-serial serial (x ∷ rs) r e = ground (arith, find_reader-serial serial rs r)

count_waiting-release :
    (serial : ℕ) (held : Bool) (rs : List Reader) (r : Reader)
    → find_reader serial rs ≡ some r
    → r.is_spent ≡ false
    → count_waiting rs ≡ suc (count_waiting (release serial held rs))
unfolding find_reader release count_waiting
count_waiting-release serial held [] r e h = cc
count_waiting-release serial held (x ∷ rs) r e h = elim (Bool-cases (x.serial == serial)) [
  | inl q ↦ ground arith
  | inr q ↦ ground (arith, count_waiting-release serial held rs r (rw q at e) h)
]

-- What is known of the state of an outcome.
same_count : {v t : StorageState} (n : ℕ) → ok v ≡ ok t → all_readers v ≡ n → all_readers t ≡ n
same_count {v} {t} n e h = let same_state : v ≡ t = cc in rw (sym same_state) h

all_readers-replied :
    (r : Reader) (s : StorageState) (result : StreamsReadResult)
    → find_reader r.serial s.readers ≡ some r
    → r.is_spent ≡ false
    → all_readers (replied r s result) ≡ all_readers s
unfolding replied all_readers
all_readers-replied r s result f h = omega (
  arith,
  length-append s.answered ((r.callback, result) ∷ []),
  count_waiting-release r.serial (is_held r.serial (unregister r.stream_its s.stream_waitlists))
      s.readers r f h,
)

all_readers-reply_reader :
    (serial : ℕ) (r : Reader) (s t : StorageState)
    → find_reader serial s.readers ≡ some r
    → reply_reader r s ≡ ok t
    → all_readers t ≡ all_readers s
unfolding reply_reader
all_readers-reply_reader serial r s t f e = elim (Bool-cases r.is_spent) [
  | inl h ↦ absurd (undefined≢ok (rw h at e))
  | inr h ↦
      let (result, p, q) = >>=-eq-ok (xread_all r.request s.items) _ (rw h at e) in
      same_count _ q (
        all_readers-replied r s result
          (subst (λ n. find_reader n s.readers ≡ some r)
            (sym (find_reader-serial serial s.readers r f)) f)
          h)
]
  where
    undefined≢ok : undefined ≢ ok t
    undefined≢ok p = cc

all_readers-reply :
    (serial : ℕ) (s t : StorageState) → reply serial s ≡ ok t → all_readers t ≡ all_readers s
unfolding reply
all_readers-reply serial s t e = elim (Option-cases (find_reader serial s.readers)) [
  | inl f ↦ same_count _ (rw (f, reply) at e) refl
  | inr (r, f) ↦ all_readers-reply_reader serial r s t f (rw (f, reply) at e)
]

all_readers-reply_all :
    (job : List ℕ) (s t : StorageState) → reply_all job s ≡ ok t → all_readers t ≡ all_readers s
unfolding reply_all
all_readers-reply_all [] s t e = same_count _ e refl
all_readers-reply_all (serial ∷ job) s t e =
    let (u, p, q) = >>=-eq-ok (reply serial s) (reply_all job) e in
    all_readers-reply_all job u t q ∙ all_readers-reply serial s u p

all_readers-run_posted : (s t : StorageState) → run_posted s ≡ ok t → all_readers t ≡ all_readers s
unfolding run_posted
all_readers-run_posted s t e = go s.posted e
  where
    go :
        (jobs : List (List ℕ))
        → (elim jobs [ [] ↦ ok s | job ∷ rest ↦ reply_all job (record s { posted = rest }) ]) ≡ ok t
        → all_readers t ≡ all_readers s
    go [] h = same_count _ h refl
    go (job ∷ rest) h =
        all_readers-reply_all job (record s { posted = rest }) t h ∙ unfold all_readers in refl

all_readers-timeout :
    (serial : ℕ) (s t : StorageState) → timeout serial s ≡ ok t → all_readers t ≡ all_readers s
unfolding timeout
all_readers-timeout serial s t e = elim (Bool-cases (has_timeout serial s.timeouts)) [
  | inl h ↦
      all_readers-reply serial (record s { timeouts = erase_timeout serial s.timeouts }) t
        (rw h at e)
      ∙ unfold all_readers in refl
  | inr h ↦ same_count _ (rw h at e) refl
]

all_readers-xadd :
    (now : ℕ) (key : Bytes) (id : InputStreamId) (values : StreamPartValue) (s : StorageState)
    → all_readers (xadd now key id values s) ≡ all_readers s
unfolding xadd wakened all_readers
all_readers-xadd now key id values s = ground arith

all_readers-answer :
    (callback : ℕ) (result : StreamsReadResult) (s : StorageState)
    → all_readers (answer callback result s) ≡ suc (all_readers s)
unfolding answer all_readers
all_readers-answer callback result s =
    omega (arith, length-append s.answered ((callback, result) ∷ []))

all_readers-add_reader :
    (request resolved : StreamsReadRequest) (timeout_ms callback : ℕ) (s : StorageState)
    → all_readers (add_reader request timeout_ms callback s resolved) ≡ suc (all_readers s)
unfolding add_reader all_readers
all_readers-add_reader request resolved timeout_ms callback s =
    rw count_waiting-append (unfold count_waiting in omega arith)

all_readers-answer_or_wait :
    (request : StreamsReadRequest) (block_ms : Option ℕ) (callback : ℕ) (s t : StorageState)
    (result : StreamsReadResult)
    → answer_or_wait request block_ms callback s result ≡ ok t
    → all_readers t ≡ suc (all_readers s)
unfolding answer_or_wait setup
all_readers-answer_or_wait request none callback s t result e =
    same_count _ e (all_readers-answer callback result s)
all_readers-answer_or_wait request (some ms) callback s t [] e =
    let (resolved, p, q) = >>=-eq-ok (resolve_all request s.items) _ e in
    same_count _ q (all_readers-add_reader request resolved ms callback s)
all_readers-answer_or_wait request (some ms) callback s t (r ∷ result) e =
    same_count _ e (all_readers-answer callback (r ∷ result) s)

all_readers-xread :
    (request : StreamsReadRequest) (block_ms : Option ℕ) (callback : ℕ) (s t : StorageState)
    → xread request block_ms callback s ≡ ok t
    → all_readers t ≡ suc (all_readers s)
unfolding xread
all_readers-xread request block_ms callback s t e =
    let (result, p, q) =
      >>=-eq-ok (xread_all request s.items) (answer_or_wait request block_ms callback s) e in
    all_readers-answer_or_wait request block_ms callback s t result q

all_readers-happen :
    (e : Event) (es : List Event) (s t : StorageState)
    → happen e s ≡ ok t
    → all_readers t + count_reads es ≡ all_readers s + count_reads (e ∷ es)
unfolding happen count_reads
all_readers-happen (reads request block_ms callback) es s t h =
    omega (arith, all_readers-xread request block_ms callback s t h)
all_readers-happen (adds now key id values) es s t h =
    ap (λ n. n + count_reads es) (same_count _ h (all_readers-xadd now key id values s))
all_readers-happen runs_posted es s t h =
    ap (λ n. n + count_reads es) (all_readers-run_posted s t h)
all_readers-happen (times_out serial) es s t h =
    ap (λ n. n + count_reads es) (all_readers-timeout serial s t h)

-- Whatever XREADs, XADDs, posted jobs and timeouts come, in any order, where they return: the number
-- of readers that wait and of answers given grows by one for each XREAD and by nothing else.
pub all_readers-happen_all :
    (es : List Event) (s t : StorageState)
    → happen_all es s ≡ ok t
    → all_readers t ≡ all_readers s + count_reads es
unfolding happen_all
all_readers-happen_all [] s t h = same_count _ h (unfold count_reads in omega arith)
all_readers-happen_all (e ∷ es) s t h =
    let (u, p, q) = >>=-eq-ok (happen e s) (happen_all es) h in
    all_readers-happen_all es u t q ∙ all_readers-happen e es s u p
