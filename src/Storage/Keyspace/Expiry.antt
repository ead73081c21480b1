-- ===== src/Storage/Keyspace/Expiry.antt =====
-- SET, GET and the time at which a value expires (Storage::set and Storage::get of src/storage.cpp).
use build_your_own_redis.Prelude.{
  ℕ, ◌+◌, ◌*◌, ◌≤◌, ◌≡◌, ◌≢◌, refl, sym, ◌∙◌, Bool, true, Option, none, some, arith, ltb,
  if◌then◌else◌,
}
use build_your_own_redis.Text.{Bytes, same_iff, same_refl}
use build_your_own_redis.Dict.{find, insert_or_assign}
use build_your_own_redis.Dict.Laws.{find-insert_or_assign, find-erase}
use build_your_own_redis.Storage.Keyspace.{
  Keyspace, Value, string_value, stream_value, set, get, is_expired,
}

-- Is a time before the moment at which a value set at `now` with this lifetime expires?
abbrev pub is_alive : ℕ → Option ℕ → ℕ → Bool
is_alive now none later = true
is_alive now (some ms) later = ltb later (now + ms * 1_000_000)

-- GET after SET of the same key returns the value exactly as long as its lifetime has not passed.
pub get-set_self :
    (now later : ℕ) (key value : Bytes) (expire_ms : Option ℕ) (d : Keyspace)
    → (get later key (set now key value expire_ms d)).1
      ≡ (if is_alive now expire_ms later then some value else none)
unfolding get set
get-set_self now later key value none d = rw (find-insert_or_assign key key, same_refl key) refl
get-set_self now later key value (some ms) d =
    rw (find-insert_or_assign key key, same_refl key) (ground arith)

-- What GET returns, as a function of what the map holds under the key.
unfoldable pub visible : ℕ → Option Value → Option Bytes
visible now none = none
visible now (some (stream_value m)) = none
visible now (some (string_value s)) = if is_expired now s.expire_time then none else some s.content

pub get-eq-visible :
    (now : ℕ) (key : Bytes) (d : Keyspace) → (get now key d).1 ≡ visible now (find key d)
unfolding get visible
get-eq-visible now key d = ground arith

-- SET of one key does not change what GET of another key returns.
pub get-set_ne :
    (now later : ℕ) (k j value : Bytes) (expire_ms : Option ℕ) (d : Keyspace)
    → k ≢ j
    → (get later j (set now k value expire_ms d)).1 ≡ (get later j d).1
unfolding set
get-set_ne now later k j value expire_ms d h =
    rw
      (
        get-eq-visible later j (insert_or_assign k _ d),
        get-eq-visible later j d,
        find-insert_or_assign k j,
      )
      (ground (arith, same_iff k j))

visible-get :
    (now later : ℕ) (k j : Bytes) (d : Keyspace)
    → now ≤ later
    → visible later (find j (get now k d).0) ≡ visible later (find j d)
unfolding get visible
visible-get now later k j d h = ground (arith, find-erase k j d, same_iff k j)

-- GET drops an expired value and nothing else: at the same time or later every GET answers as before.
pub get-get :
    (now later : ℕ) (k j : Bytes) (d : Keyspace)
    → now ≤ later
    → (get later j (get now k d).0).1 ≡ (get later j d).1
get-get now later k j d h =
    get-eq-visible later j (get now k d).0
    ∙ (visible-get now later k j d h ∙ sym (get-eq-visible later j d))
