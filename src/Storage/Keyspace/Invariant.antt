-- ===== src/Storage/Keyspace/Invariant.antt =====
-- The calls on the keys of Storage (src/storage.cpp), and a well-formed map.
use mathlib.Core.List.{cons-ne-nil}
use build_your_own_redis.Prelude.{
  ℕ, ◌≡◌, ◌≢◌, refl, sym, Option, none, some, List, [], ◌∷◌, arith, All, Bool-cases, inl, inr,
}
use build_your_own_redis.Text.{Bytes, same}
use build_your_own_redis.Dict.{Dict, find, insert_or_assign, erase}
use build_your_own_redis.Dict.Laws.{IsDistinct, insert_or_assign-IsDistinct, erase-IsDistinct}
use build_your_own_redis.Stream.Id.{StreamId, InputStreamId, input_is_null, lt_id}
use build_your_own_redis.Stream.Value.{
  StreamErrorType, no_error, must_be_not_zero_id, must_be_more_than_top, wrong_key_type,
  StreamPartValue, StreamData, Appended, Choice, chosen, refused, emplace, finish, choose, append,
  top_id,
}
use build_your_own_redis.Stream.Value.Append.{IsSorted, append-IsSorted, choose-refused}
use build_your_own_redis.Storage.Keyspace.{
  Keyspace, Value, string_value, stream_value, restore, set, is_expired, get, get_found, xadd,
  xadd_found, stored_new,
}

-- What a value of the map satisfies.
abbrev pub IsKept : Value → Type 0
IsKept (string_value s) = Unit
IsKept (stream_value m) = IsSorted m × (m ≢ [])

-- What the map satisfies.
abbrev pub IsValid : Keyspace → Type 0
IsValid d = IsDistinct d × All (λ (e : Bytes × Value). IsKept e.1) d

module _ {ℓ κ} {V : Type ℓ} (P : V → Type κ) where
  insert_or_assign-All :
      (k : Bytes) (v : V) (d : Dict V)
      → P v
      → All (λ (e : Bytes × V). P e.1) d
      → All (λ (e : Bytes × V). P e.1) (insert_or_assign k v d)
  unfolding insert_or_assign
  insert_or_assign-All k v [] p h = (p, tt)
  insert_or_assign-All k v ((i, w) ∷ d) p h = elim (Bool-cases (same i k)) [
    | inl e ↦ rw e (p, h.1)
    | inr e ↦ rw e (h.0, insert_or_assign-All k v d p h.1)
  ]

  erase-All :
      (k : Bytes) (d : Dict V)
      → All (λ (e : Bytes × V). P e.1) d
      → All (λ (e : Bytes × V). P e.1) (erase k d)
  unfolding erase
  erase-All k [] h = tt
  erase-All k ((i, w) ∷ d) h = elim (Bool-cases (same i k)) [
    | inl e ↦ rw e (erase-All k d h.1)
    | inr e ↦ rw e (h.0, erase-All k d h.1)
  ]

  pub find-All :
      (k : Bytes) (d : Dict V) (v : V) → find k d ≡ some v → All (λ (e : Bytes × V). P e.1) d → P v
  unfolding find
  find-All k [] v e h = cc
  find-All k ((i, w) ∷ d) v e h = elim (Bool-cases (same i k)) [
    | inl q ↦ let same_value : w ≡ v = ground arith in rw (sym same_value) h.0
    | inr q ↦ find-All k d v (rw q at e) h.1
  ]

emplace-ne-nil :
    (i : StreamId) (values : StreamPartValue) (m : StreamData) → emplace i values m ≢ []
unfolding emplace
emplace-ne-nil i values [] = cons-ne-nil _ _
emplace-ne-nil i values ((j, w) ∷ m) = elim (Bool-cases (lt_id i j)) [
  | inl e ↦ rw e (cons-ne-nil _ _)
  | inr e ↦ elim (Bool-cases (lt_id j i)) [
    | inl f ↦ rw (e, f) (cons-ne-nil _ _)
    | inr f ↦ rw (e, f) (cons-ne-nil _ _)
  ]
]

finish-ne-nil :
    (m : StreamData) (values : StreamPartValue) (c : Choice)
    → (m ≢ [])
    → (finish m values c).content ≢ []
unfolding finish
finish-ne-nil m values (chosen i) h = emplace-ne-nil i values m
finish-ne-nil m values (refused e) h = h

append-ne-nil :
    (now : ℕ) (id : InputStreamId) (values : StreamPartValue) (m : StreamData)
    → (m ≢ [])
    → (append now id values m).content ≢ []
unfolding append
append-ne-nil now id values m h = elim (Bool-cases (input_is_null id)) [
  | inl e ↦ rw e h
  | inr e ↦ rw e (finish-ne-nil m values (choose now (top_id m) id) h)
]

finish_new-ne-nil :
    (values : StreamPartValue) (c : Choice)
    → ((e : StreamErrorType) → c ≡ refused e → e ≡ must_be_more_than_top)
    → (finish [] values c).error ≡ no_error
    → (finish [] values c).content ≢ []
unfolding finish
finish_new-ne-nil values (chosen i) r h = emplace-ne-nil i values []
finish_new-ne-nil values (refused e) r h = let never : e ≡ must_be_more_than_top = r e refl in cc

append_new-ne-nil :
    (now : ℕ) (id : InputStreamId) (values : StreamPartValue)
    → (append now id values []).error ≡ no_error
    → (append now id values []).content ≢ []
unfolding append
append_new-ne-nil now id values h = elim (Bool-cases (input_is_null id)) [
  | inl e ↦ absurd (null≢none (rw e at h))
  | inr e ↦ rw e (
      finish_new-ne-nil values (choose now (top_id []) id) (choose-refused now (top_id []) id)
        (rw e at h))
]
  where
    null≢none : must_be_not_zero_id ≢ no_error
    null≢none p = cc

insert_or_assign-IsValid :
    (key : Bytes) (v : Value) (d : Keyspace)
    → IsKept v
    → IsValid d
    → IsValid (insert_or_assign key v d)
insert_or_assign-IsValid key v d p h =
    (insert_or_assign-IsDistinct key v d h.0, insert_or_assign-All IsKept key v d p h.1)

get_found-IsValid :
    (now : ℕ) (key : Bytes) (o : Option Value) (d : Keyspace)
    → IsValid d
    → IsValid (get_found now key o d).0
unfolding get_found
get_found-IsValid now key none d h = h
get_found-IsValid now key (some (stream_value m)) d h = h
get_found-IsValid now key (some (string_value s)) d h =
    elim (Bool-cases (is_expired now s.expire_time)) [
      | inl e ↦ rw e (erase-IsDistinct key d h.0, erase-All IsKept key d h.1)
      | inr e ↦ rw e h
    ]

stored_new-IsValid :
    (key : Bytes) (a : Appended) (d : Keyspace) (e : StreamErrorType)
    → a.error ≡ e
    → IsSorted a.content
    → (a.error ≡ no_error → a.content ≢ [])
    → IsValid d
    → IsValid (stored_new key a d).items
stored_new-IsValid key a d no_error p s ne h =
    rw p (insert_or_assign-IsValid key (stream_value a.content) d (s, ne p) h)
stored_new-IsValid key a d must_be_not_zero_id p s ne h = rw p h
stored_new-IsValid key a d must_be_more_than_top p s ne h = rw p h
stored_new-IsValid key a d wrong_key_type p s ne h = rw p h

xadd_found-IsValid :
    (now : ℕ) (key : Bytes) (id : InputStreamId) (values : StreamPartValue) (o : Option Value)
    (d : Keyspace)
    → find key d ≡ o
    → IsValid d
    → IsValid (xadd_found now key id values o d).items
unfolding xadd_found
xadd_found-IsValid now key id values none d e h =
    stored_new-IsValid key (append now id values []) d _ refl (append-IsSorted now id values [] tt)
      (append_new-ne-nil now id values) h
xadd_found-IsValid now key id values (some (string_value s)) d e h = h
xadd_found-IsValid now key id values (some (stream_value m)) d e h =
    let kept = find-All IsKept key d (stream_value m) e h.1 in
    insert_or_assign-IsValid key (stream_value (append now id values m).content) d
      (append-IsSorted now id values m kept.0, append-ne-nil now id values m kept.1) h

-- A call on the keys, with its arguments and its time.
pub data Operation : Type 0 where
  restoring setting : ℕ → Bytes → Bytes → Option ℕ → Operation
  getting : ℕ → Bytes → Operation
  adding : ℕ → Bytes → InputStreamId → StreamPartValue → Operation

unfoldable pub perform : Operation → Keyspace → Keyspace
perform (restoring now key value expire_time) d = restore now key value expire_time d
perform (setting now key value expire_ms) d = set now key value expire_ms d
perform (getting now key) d = (get now key d).0
perform (adding now key id values) d = (xadd now key id values d).items

unfoldable pub perform_all : List Operation → Keyspace → Keyspace
unfolding perform
perform_all [] d = d
perform_all (o ∷ os) d = perform_all os (perform o d)

perform-IsValid : (o : Operation) (d : Keyspace) → IsValid d → IsValid (perform o d)
unfolding perform restore set get xadd
perform-IsValid (restoring now key value expire_time) d h =
    insert_or_assign-IsValid key (string_value _) d tt h
perform-IsValid (setting now key value expire_ms) d h =
    insert_or_assign-IsValid key (string_value _) d tt h
perform-IsValid (getting now key) d h = get_found-IsValid now key (find key d) d h
perform-IsValid (adding now key id values) d h =
    xadd_found-IsValid now key id values (find key d) d refl h

-- A storage whose keys are distinct and whose streams have entries, in strictly ascending order of
-- their identifiers, stays so whatever calls are made on it, in any order and at any times.
pub perform_all-IsValid :
    (os : List Operation) (d : Keyspace) → IsValid d → IsValid (perform_all os d)
unfolding perform_all
perform_all-IsValid [] d h = h
perform_all-IsValid (o ∷ os) d h = perform_all-IsValid os (perform o d) (perform-IsValid o d h)
