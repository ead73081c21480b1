-- ===== src/Storage/Keyspace/Typed.antt =====
-- Keys of one kind each (Storage of src/storage.cpp): XRANGE and XREAD cast a value to a stream with no
-- look at its type.
use build_your_own_redis.Prelude.{
  ℕ, ◌≡◌, refl, sym, ◌∙◌, ap, ◌⊎◌, Option, none, some, List, [], ◌∷◌, arith, All, Bool-cases, inl,
  inr, if◌then◌else◌, Option-cases, not, ◌&&◌,
}
use build_your_own_redis.Prelude.Cut.{select}
use build_your_own_redis.Text.{Bytes, same, same_iff}
use build_your_own_redis.Outcome.{ok}
use build_your_own_redis.Dict.{find, insert_or_assign, erase}
use build_your_own_redis.Dict.Laws.{find-insert_or_assign, find-erase}
use build_your_own_redis.Stream.Id.{BoundStreamId, ReadStreamId, InputStreamId}
use build_your_own_redis.Stream.Value.{
  StreamErrorType, no_error, must_be_not_zero_id, must_be_more_than_top, wrong_key_type,
  StreamPartValue, Entry, Appended, append,
}
use build_your_own_redis.Stream.Value.Ranges.{InOrder, is_before, is_not_behind, entries-xrange}
use build_your_own_redis.Stream.Value.Reads.{after, entries-xread}
use build_your_own_redis.Storage.Keyspace.{
  StorageType, none_type, string_type, stream_type, Keyspace, Value, string_value, stream_value,
  value_type, is_expired, get_found, xadd_found, stored_new, restore, set, get, xadd, type, xrange,
  xread_key, xread_all, StreamsReadRequest, StreamsReadResult, add_nonempty,
}
use build_your_own_redis.Storage.Keyspace.Invariant.{
  IsKept, IsValid, find-All, Operation, restoring, setting, getting, adding, perform, perform_all,
  perform_all-IsValid,
}

module _ (kind : Bytes → StorageType) where
  -- What the map holds under a key is of the kind of the key.
  abbrev pub HasKinds : Keyspace → Type 0
  HasKinds d = (key : Bytes) (v : Value) → find key d ≡ some v → value_type v ≡ kind key

  -- A call treats its key as one of its kind.
  abbrev pub Respects : Operation → Type 0
  Respects (restoring now key value expire_time) = kind key ≡ string_type
  Respects (setting now key value expire_ms) = kind key ≡ string_type
  Respects (getting now key) = Unit
  Respects (adding now key id values) = kind key ≡ stream_type

  insert_or_assign-HasKinds :
      (key : Bytes) (v : Value) (d : Keyspace)
      → value_type v ≡ kind key
      → HasKinds d
      → HasKinds (insert_or_assign key v d)
  insert_or_assign-HasKinds key v d e h j w f = elim (Bool-cases (same key j)) [
    | inl s ↦
        let same_value : some v ≡ some w =
          sym (ap (λ b. if b then some v else find j d) s)
          ∙ sym (find-insert_or_assign key j v d)
          ∙ f in
        let values : v ≡ w = ground arith in
        ap value_type (sym values) ∙ e ∙ ap kind ((same_iff key j).0 s)
    | inr s ↦ h j w (
        sym (ap (λ b. if b then some v else find j d) s)
        ∙ sym (find-insert_or_assign key j v d)
        ∙ f)
  ]

  erase-HasKinds : (key : Bytes) (d : Keyspace) → HasKinds d → HasKinds (erase key d)
  erase-HasKinds key d h j w f = elim (Bool-cases (same key j)) [
    | inl s ↦ cc (find-erase key j d, f, ap (λ b. if b then none else find j d) s)
    | inr s ↦ h j w (sym (ap (λ b. if b then none else find j d) s) ∙ sym (find-erase key j d) ∙ f)
  ]

  get_found-HasKinds :
      (now : ℕ) (key : Bytes) (o : Option Value) (d : Keyspace)
      → HasKinds d
      → HasKinds (get_found now key o d).0
  unfolding get_found
  get_found-HasKinds now key none d h = h
  get_found-HasKinds now key (some (stream_value m)) d h = h
  get_found-HasKinds now key (some (string_value s)) d h =
      elim (Bool-cases (is_expired now s.expire_time)) [
        | inl e ↦ rw e (erase-HasKinds key d h)
        | inr e ↦ rw e h
      ]

  stored_new-HasKinds :
      (key : Bytes) (a : Appended) (d : Keyspace) (e : StreamErrorType)
      → a.error ≡ e
      → kind key ≡ stream_type
      → HasKinds d
      → HasKinds (stored_new key a d).items
  unfolding value_type
  stored_new-HasKinds key a d no_error p k h =
      rw p (insert_or_assign-HasKinds key (stream_value a.content) d (sym k) h)
  stored_new-HasKinds key a d must_be_not_zero_id p k h = rw p h
  stored_new-HasKinds key a d must_be_more_than_top p k h = rw p h
  stored_new-HasKinds key a d wrong_key_type p k h = rw p h

  xadd_found-HasKinds :
      (now : ℕ) (key : Bytes) (id : InputStreamId) (values : StreamPartValue) (o : Option Value)
      (d : Keyspace)
      → kind key ≡ stream_type
      → HasKinds d
      → HasKinds (xadd_found now key id values o d).items
  unfolding xadd_found value_type
  xadd_found-HasKinds now key id values none d k h =
      stored_new-HasKinds key (append now id values []) d _ refl k h
  xadd_found-HasKinds now key id values (some (string_value s)) d k h = h
  xadd_found-HasKinds now key id values (some (stream_value m)) d k h =
      insert_or_assign-HasKinds key (stream_value (append now id values m).content) d (sym k) h

  perform-HasKinds :
      (o : Operation) (d : Keyspace) → Respects o → HasKinds d → HasKinds (perform o d)
  unfolding perform restore set get xadd value_type
  perform-HasKinds (restoring now key value expire_time) d r h =
      insert_or_assign-HasKinds key (string_value _) d (sym r) h
  perform-HasKinds (setting now key value expire_ms) d r h =
      insert_or_assign-HasKinds key (string_value _) d (sym r) h
  perform-HasKinds (getting now key) d r h = get_found-HasKinds now key (find key d) d h
  perform-HasKinds (adding now key id values) d r h =
      xadd_found-HasKinds now key id values (find key d) d r h

  perform_all-HasKinds :
      (os : List Operation) (d : Keyspace)
      → All Respects os
      → HasKinds d
      → HasKinds (perform_all os d)
  unfolding perform_all
  perform_all-HasKinds [] d r h = h
  perform_all-HasKinds (o ∷ os) d r h =
      perform_all-HasKinds os (perform o d) r.1 (perform-HasKinds o d r.0 h)

  -- TYPE answers with the kind of the key, or with none, and reads of streams are defined.
  abbrev pub IsTyped : Keyspace → Type 0
  IsTyped d =
      ((key : Bytes) → (type key d ≡ none_type) ⊎ (type key d ≡ kind key))
      × ((key : Bytes) (l r : BoundStreamId)
          → kind key ≡ stream_type
          → InOrder l r
          → (es : List Entry) × (xrange key l r d ≡ ok es))
      × ((request : StreamsReadRequest)
          → All (λ (e : Bytes × ReadStreamId). kind e.0 ≡ stream_type) request
          → (result : StreamsReadResult) × (xread_all request d ≡ ok result))

  type-HasKinds :
      (key : Bytes) (d : Keyspace) → HasKinds d → (type key d ≡ none_type) ⊎ (type key d ≡ kind key)
  unfolding type
  type-HasKinds key d h = elim (Option-cases (find key d)) [
    | inl e ↦ rw (e, type) (inl refl)
    | inr (v, e) ↦ rw (e, type) (inr (h key v e))
  ]

  xrange-ok :
      (key : Bytes) (l r : BoundStreamId) (d : Keyspace) (o : Option Value)
      → find key d ≡ o
      → IsValid d
      → HasKinds d
      → kind key ≡ stream_type
      → InOrder l r
      → (es : List Entry) × (xrange key l r d ≡ ok es)
  unfolding xrange value_type
  xrange-ok key l r d none e v h k i = ([], rw (e, xrange) refl)
  xrange-ok key l r d (some (string_value s)) e v h k i = cc (h key (string_value s) e)
  xrange-ok key l r d (some (stream_value m)) e v h k i = (
    select (λ x. not (is_before l x) && is_not_behind r x) m,
    rw (e, xrange) (entries-xrange l r m (find-All IsKept key d (stream_value m) e v.1).0 i),
  )

  xread_key-ok :
      (key : Bytes) (id : ReadStreamId) (d : Keyspace) (o : Option Value)
      → find key d ≡ o
      → IsValid d
      → HasKinds d
      → kind key ≡ stream_type
      → (es : List Entry) × (xread_key key id d ≡ ok es)
  unfolding xread_key value_type
  xread_key-ok key id d none e v h k = ([], rw (e, xread_key) refl)
  xread_key-ok key id d (some (string_value s)) e v h k = cc (h key (string_value s) e)
  xread_key-ok key id d (some (stream_value m)) e v h k = (
    if id.is_next_expected then [] else after id.base m,
    rw (e, xread_key) (entries-xread id m (find-All IsKept key d (stream_value m) e v.1).0),
  )

  xread_all-ok :
      (request : StreamsReadRequest) (d : Keyspace)
      → IsValid d
      → HasKinds d
      → All (λ (e : Bytes × ReadStreamId). kind e.0 ≡ stream_type) request
      → (result : StreamsReadResult) × (xread_all request d ≡ ok result)
  unfolding xread_all
  xread_all-ok [] d v h k = ([], refl)
  xread_all-ok ((key, id) ∷ request) d v h k =
      let (es, first) = xread_key-ok key id d (find key d) refl v h k.0 in
      let (rest, others) = xread_all-ok request d v h k.1 in
      (add_nonempty key es rest, rw (first, others) refl)

  -- Where every call that writes takes its key for one of its kind (SET and the records of a file for a
  -- string, XADD for a stream), then after any such calls TYPE of a key is this kind or none, and
  -- XRANGE with bounds in order and XREAD of keys for streams never reach undefined behaviour.
  pub perform_all-IsTyped :
      (os : List Operation) (d : Keyspace)
      → IsValid d
      → HasKinds d
      → All Respects os
      → IsTyped (perform_all os d)
  perform_all-IsTyped os d v h r =
      let valid = perform_all-IsValid os d v in
      let kinds = perform_all-HasKinds os d r h in
      (
        λ key. type-HasKinds key (perform_all os d) kinds,
        λ key l b k i. xrange-ok key l b (perform_all os d) _ refl valid kinds k i,
        λ request k. xread_all-ok request (perform_all os d) valid kinds k,
      )
