-- ===== src/Storage/Keyspace/Streams.antt =====
-- XADD, XRANGE and XREAD on the keys of the storage (Storage::xadd, xrange and xread of
-- src/storage.cpp).
use mathlib.Core.Path.{subst}
use build_your_own_redis.Prelude.{
  ℕ, ◌<◌, ◌≡◌, refl, sym, ap, ◌∙◌, Bool, true, false, none, some, [], ◌∷◌, ◌++◌, arith,
  Option-cases, Bool-cases, inl, inr, All,
}
use build_your_own_redis.Prelude.Cut.{select, select-always, select-none}
use build_your_own_redis.Text.{Bytes}
use build_your_own_redis.Outcome.{ok}
use build_your_own_redis.Dict.{find}
use build_your_own_redis.Stream
use build_your_own_redis.Stream.Id.{
  StreamId, InputStreamId, BoundStreamId, ReadStreamId, zero_id, lt_id,
}
use build_your_own_redis.Stream.Value.{
  StreamErrorType, no_error, wrong_key_type, StreamPartValue, Entry, StreamData, Appended, append,
  top_id, entries, last_id, ms_of, choose, choose_first, finish,
}
use build_your_own_redis.Stream.Value.Append.{
  top_id-none, IsSorted, Below, HasRoom, append-IsSorted,
}
use build_your_own_redis.Stream.Value.Accepts.{append-Settles}
use build_your_own_redis.Stream.Value.Ranges.{entries-xrange}
use build_your_own_redis.Stream.Value.Reads.{after, entries-xread}
use build_your_own_redis.Storage.Keyspace.{Keyspace, stream_value, xadd, xrange, xread_key}
use build_your_own_redis.Storage.Keyspace.Stored.{Leaves, xadd-Leaves, stream_of}

abbrev pub from_start : BoundStreamId
from_start = record { base = zero_id; is_left_unbound = true; is_right_unbound = false }

abbrev pub to_end : BoundStreamId
to_end = record { base = zero_id; is_left_unbound = false; is_right_unbound = true }

-- An identifier of XREAD that is not `$`.
abbrev pub above : StreamId → ReadStreamId
above i = record { base = i; is_next_expected = false }

top_id-max :
    (t : StreamId) (m : StreamData)
    → IsSorted m
    → top_id m ≡ some t
    → All (λ (e : Entry). lt_id t e.0 ≡ false) m
unfolding top_id
top_id-max t [] s e = tt
top_id-max t (x ∷ []) s e = (ground arith, tt)
top_id-max t (x ∷ y ∷ m) s e =
    let rest = top_id-max t (y ∷ m) s.1 e in (ground (arith, s.0.0, rest.0), rest)

select-append : (p : Entry → Bool) (m n : StreamData) → select p (m ++ n) ≡ select p m ++ select p n
unfolding select
select-append p [] n = refl
select-append p (x ∷ m) n = elim (Bool-cases (p x)) [
  | inl e ↦ rw e (ap (λ t. x ∷ t) (select-append p m n))
  | inr e ↦ rw e (select-append p m n)
]

Below-top_id : (t i : StreamId) (m : StreamData) → top_id m ≡ some t → Below i m → lt_id t i ≡ true
unfolding top_id
Below-top_id t i [] e b = cc
Below-top_id t i (x ∷ []) e b = ground (arith, b.0)
Below-top_id t i (x ∷ y ∷ m) e b = Below-top_id t i (y ∷ m) e b.1

last_id-some : (m : StreamData) (t : StreamId) → top_id m ≡ some t → last_id m ≡ t
unfolding last_id
last_id-some m t e = rw (e, last_id)

last_id-none : (m : StreamData) → top_id m ≡ none → last_id m ≡ zero_id
unfolding last_id
last_id-none m e = rw (e, last_id)

-- The last identifier of a stream has no entry of the stream above it.
after-last_id : (m : StreamData) → IsSorted m → after (last_id m) m ≡ []
after-last_id m s = elim (Option-cases (top_id m)) [
  | inl e ↦ rw (top_id-none m e) (unfold select in refl)
  | inr (t, e) ↦ rw (last_id-some m t e) (select-none _ m (top_id-max t m s e))
]

-- Behind the last entry, a new entry alone is above it.
after-append :
    (m : StreamData) (i : StreamId) (values : StreamPartValue)
    → IsSorted m
    → lt_id (last_id m) i ≡ true
    → after (last_id m) (m ++ (i, values) ∷ []) ≡ (i, values) ∷ []
after-append m i values s h =
    select-append _ m ((i, values) ∷ []) ∙ rw (after-last_id m s) (unfold select in rw h refl)

append_first-pos :
    (now : ℕ) (in_id : InputStreamId) (values : StreamPartValue)
    → 0 < ms_of now
    → (append now in_id values []).error ≡ no_error
    → lt_id zero_id (append now in_id values []).id ≡ true
unfolding append choose choose_first finish top_id
append_first-pos now in_id values h e = ground arith

-- A successful append lies above the last identifier, also where that is the 0-0 of no entry.
append-last_id :
    (now : ℕ) (in_id : InputStreamId) (values : StreamPartValue) (m : StreamData)
    → 0 < ms_of now
    → (append now in_id values m).error ≡ no_error
    → Below (append now in_id values m).id m
    → lt_id (last_id m) (append now in_id values m).id ≡ true
append-last_id now in_id values m h e b = elim (Option-cases (top_id m)) [
  | inl o ↦ rw (last_id-none m o) (
      subst (λ n. lt_id zero_id (append now in_id values n).id ≡ true) (sym (top_id-none m o))
        (append_first-pos now in_id values h
          (subst (λ n. (append now in_id values n).error ≡ no_error) (top_id-none m o) e)))
  | inr (t, o) ↦ rw (last_id-some m t o) (Below-top_id t _ m o b)
]

module _ (key : Bytes) where
  xrange-stream :
      (l r : BoundStreamId) (d : Keyspace) (m : StreamData)
      → find key d ≡ some (stream_value m)
      → xrange key l r d ≡ entries m (Stream.Value.xrange l r m)
  unfolding xrange
  xrange-stream l r d m e = rw (e, xrange)

  xread-stream :
      (id : ReadStreamId) (d : Keyspace) (m : StreamData)
      → find key d ≡ some (stream_value m)
      → xread_key key id d ≡ entries m (Stream.Value.xread id m)
  unfolding xread_key
  xread-stream id d m e = rw (e, xread_key)

module _ (now : ℕ) (key : Bytes) (in_id : InputStreamId) (values : StreamPartValue) (d : Keyspace)
    (sorted : IsSorted (stream_of (find key d))) (room : HasRoom (stream_of (find key d)))
    (added : (xadd now key in_id values d).error ≡ no_error) where
  abbrev old : StreamData
  old = stream_of (find key d)

  left_by : Leaves now key in_id values old (xadd now key in_id values d)
  left_by = xadd-Leaves now key in_id values d added

  settled :
      ((append now in_id values old).content
        ≡ old ++ ((append now in_id values old).id, values) ∷ [])
      × Below (append now in_id values old).id old
  settled = elim (append-Settles now in_id values old sorted room) [
    | inl failed ↦ absurd (failed.0 left_by.2)
    | inr done ↦ (done.1, done.2)
  ]

  new-IsSorted : IsSorted (append now in_id values old).content
  new-IsSorted = append-IsSorted now in_id values old sorted

  -- XRANGE from - to + after a successful XADD, in an ordered stream whose top counter has room,
  -- returns the entries that were there, and behind them the new one under the identifier that XADD
  -- returned.
  pub xrange-xadd :
      xrange key from_start to_end (xadd now key in_id values d).items
      ≡ ok (old ++ ((xadd now key in_id values d).id, values) ∷ [])
  xrange-xadd =
      rw (xrange-stream key from_start to_end _ _ left_by.0, left_by.1)
        (entries-xrange from_start to_end _ new-IsSorted (inl refl)
          ∙ ap ok (select-always _ _ (λ e. refl) ∙ settled.0))

  -- XREAD above the last identifier that the stream had returns exactly the entry that XADD added,
  -- in an ordered stream whose top counter has room, where the clock is past its first millisecond.
  pub xread-xadd :
      0 < ms_of now
      → xread_key key (above (last_id old)) (xadd now key in_id values d).items
        ≡ ok (((xadd now key in_id values d).id, values) ∷ [])
  xread-xadd h =
      rw (xread-stream key (above (last_id old)) _ _ left_by.0, left_by.1)
        (entries-xread (above (last_id old)) _ new-IsSorted
          ∙ ap ok (
              ap (after (last_id old)) settled.0
              ∙ after-append old _ values sorted
                  (append-last_id now in_id values old h left_by.2 settled.1)))
