-- ===== src/Storage/Keyspace/Stored.antt =====
-- What XADD leaves under its key and under the others (Storage::xadd of src/storage.cpp).
use build_your_own_redis.Prelude.{ℕ, ◌≡◌, ◌≢◌, refl, Option, none, some, [], arith}
use build_your_own_redis.Text.{Bytes, same_iff, same_refl}
use build_your_own_redis.Dict.{find, insert_or_assign}
use build_your_own_redis.Dict.Laws.{find-insert_or_assign}
use build_your_own_redis.Stream.Id.{InputStreamId}
use build_your_own_redis.Stream.Value.{
  no_error, wrong_key_type, StreamPartValue, StreamData, Appended, append,
}
use build_your_own_redis.Stream.Value.Accepts.{append_error-content}
use build_your_own_redis.Storage.Keyspace.{
  Keyspace, Value, string_value, stream_value, Added, stored_new, xadd, xadd_found,
}

-- The stream that XADD works on: that of the key, or an empty one.
abbrev pub stream_of : Option Value → StreamData
stream_of none = []
stream_of (some (string_value s)) = []
stream_of (some (stream_value m)) = m

abbrev pub IsString : Option Value → Type 0
IsString (some (string_value s)) = Unit
IsString _ = ⊥

stored_new-find :
    (key j : Bytes) (a : Appended) (d : Keyspace)
    → (stored_new key a d).error ≢ no_error
    → find j (stored_new key a d).items ≡ find j d
stored_new-find key j a d h = ground arith

xadd_found-find :
    (now : ℕ) (key j : Bytes) (in_id : InputStreamId) (values : StreamPartValue) (d : Keyspace)
    (o : Option Value)
    → find key d ≡ o
    → (xadd_found now key in_id values o d).error ≢ no_error
    → find j (xadd_found now key in_id values o d).items ≡ find j d
unfolding xadd_found
xadd_found-find now key j in_id values d none e h = stored_new-find key j _ d h
xadd_found-find now key j in_id values d (some (string_value s)) e h = refl
xadd_found-find now key j in_id values d (some (stream_value m)) e h = ground (
  arith,
  find-insert_or_assign key j (stream_value (append now in_id values m).content) d,
  append_error-content now in_id values m h,
  same_iff key j,
)

-- A failed XADD leaves every key as it was: what a lookup finds does not change.
pub xadd_error-find :
    (now : ℕ) (key j : Bytes) (in_id : InputStreamId) (values : StreamPartValue) (d : Keyspace)
    → (xadd now key in_id values d).error ≢ no_error
    → find j (xadd now key in_id values d).items ≡ find j d
unfolding xadd
xadd_error-find now key j in_id values d h =
    xadd_found-find now key j in_id values d (find key d) refl h

-- What a successful XADD leaves under its key, and the answer that it gives.
abbrev pub Leaves : ℕ → Bytes → InputStreamId → StreamPartValue → StreamData → Added → Type 0
Leaves now key in_id values m r =
    (find key r.items ≡ some (stream_value (append now in_id values m).content))
    × (r.id ≡ (append now in_id values m).id)
    × ((append now in_id values m).error ≡ no_error)

stored_new-Leaves :
    (key : Bytes) (a : Appended) (d : Keyspace)
    → (stored_new key a d).error ≡ no_error
    → (find key (stored_new key a d).items ≡ some (stream_value a.content))
      × ((stored_new key a d).id ≡ a.id)
      × (a.error ≡ no_error)
stored_new-Leaves key a d h =
    ground (arith, find-insert_or_assign key key (stream_value a.content) d, same_refl key)

xadd_found-Leaves :
    (now : ℕ) (key : Bytes) (in_id : InputStreamId) (values : StreamPartValue) (d : Keyspace)
    (o : Option Value)
    → (xadd_found now key in_id values o d).error ≡ no_error
    → Leaves now key in_id values (stream_of o) (xadd_found now key in_id values o d)
unfolding xadd_found
xadd_found-Leaves now key in_id values d none h = stored_new-Leaves key _ d h
xadd_found-Leaves now key in_id values d (some (string_value s)) h = absurd (wrong≢none h)
  where
    wrong≢none : wrong_key_type ≢ no_error
    wrong≢none p = cc
xadd_found-Leaves now key in_id values d (some (stream_value m)) h = (found, refl, h)
  where
    found :
        find key (insert_or_assign key (stream_value (append now in_id values m).content) d)
        ≡ some (stream_value (append now in_id values m).content)
    found = rw (find-insert_or_assign key key, same_refl key)

pub xadd-Leaves :
    (now : ℕ) (key : Bytes) (in_id : InputStreamId) (values : StreamPartValue) (d : Keyspace)
    → (xadd now key in_id values d).error ≡ no_error
    → Leaves now key in_id values (stream_of (find key d)) (xadd now key in_id values d)
unfolding xadd
xadd-Leaves now key in_id values d = xadd_found-Leaves now key in_id values d (find key d)
