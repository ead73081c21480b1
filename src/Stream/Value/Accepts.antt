-- ===== src/Stream/Value/Accepts.antt =====
-- StreamValue::append of src/storage.cpp: which identifiers it accepts.
use mathlib.Core.Path.{subst, sym}
use build_your_own_redis.Prelude.{
  ℕ, ◌+◌, ◌≡◌, ◌≢◌, refl, true, false, Option, none, some, [], ◌∷◌, ◌++◌, arith, ◌⊎◌, Bool-cases,
  Option-cases, inl, inr, if◌then◌else◌,
}
use build_your_own_redis.Text.Decimal.{u64_mod}
use build_your_own_redis.Stream.Id.{
  StreamId, InputStreamId, zero_id, lt_id, input_is_null, is_null, full_id,
}
use build_your_own_redis.Stream.Value.{
  StreamErrorType, no_error, must_be_not_zero_id, must_be_more_than_top, StreamPartValue,
  StreamData, top_id, Appended, Choice, chosen, refused, id_of, choose_after, choose_first, choose,
  finish, append,
}
use build_your_own_redis.Stream.Value.Append.{
  IsSorted, Below, HasRoom, emplace-append, choose-refused, choose-Below,
}

Choice-cases :
    (c : Choice) → ((e : StreamErrorType) × (c ≡ refused e)) ⊎ ((i : StreamId) × (c ≡ chosen i))
Choice-cases (refused e) = inl (e, refl)
Choice-cases (chosen i) = inr (i, refl)

-- A failed append changes nothing and returns 0-0; a successful one adds its entry behind all others,
-- under the identifier that it returns.
abbrev pub Settles : Appended → StreamPartValue → StreamData → Type 0
Settles a values m =
    ((a.error ≢ no_error) × (a.content ≡ m) × (a.id ≡ zero_id))
    ⊎ ((a.error ≡ no_error) × (a.content ≡ m ++ (a.id, values) ∷ []) × Below a.id m)

finish-Settles :
    (m : StreamData) (values : StreamPartValue) (c : Choice)
    → ((e : StreamErrorType) → c ≡ refused e → e ≡ must_be_more_than_top)
    → ((i : StreamId) → c ≡ chosen i → Below i m)
    → Settles (finish m values c) values m
unfolding finish
finish-Settles m values (refused e) r b = inl ((λ h. cc (r e refl)), refl, refl)
finish-Settles m values (chosen i) r b = inr (refl, emplace-append i values m (b i refl), b i refl)

abbrev null_error : StreamData → Appended
null_error m = record { content = m; id = zero_id; error = must_be_not_zero_id }

-- In an ordered stream whose top counter has room an append either fails and changes nothing, or
-- adds its entry at the end, above all entries that were there.
pub append-Settles :
    (now : ℕ) (in_id : InputStreamId) (values : StreamPartValue) (m : StreamData)
    → IsSorted m
    → HasRoom m
    → Settles (append now in_id values m) values m
unfolding append
append-Settles now in_id values m s room = elim (Bool-cases (input_is_null in_id)) [
  | inl e ↦
      subst (λ b. Settles (if b then null_error m else finish m values c) values m) (sym e)
        (inl ((λ h. cc), refl, refl))
  | inr e ↦
      subst (λ b. Settles (if b then null_error m else finish m values c) values m) (sym e)
        (finish-Settles m values (choose now (top_id m) in_id) (choose-refused now (top_id m) in_id)
          (λ i. choose-Below now i in_id m s room))
]
  where
    c : Choice
    c = choose now (top_id m) in_id

-- An append that fails leaves the entries as they were.
pub append_error-content :
    (now : ℕ) (in_id : InputStreamId) (values : StreamPartValue) (m : StreamData)
    → (append now in_id values m).error ≢ no_error
    → (append now in_id values m).content ≡ m
unfolding append finish
append_error-content now in_id values m h = ground arith

-- What the documentation of XADD asks of an explicit identifier.
abbrev pub explicit_error : StreamId → Option StreamId → StreamErrorType
explicit_error i none = if is_null i then must_be_not_zero_id else no_error
explicit_error i (some t) =
    if is_null i then must_be_not_zero_id else if lt_id t i then no_error else must_be_more_than_top

-- An explicit identifier is refused with the first error exactly where it is 0-0, and with the
-- second one exactly where it is not above the top entry; otherwise it is taken.
pub append_explicit :
    (now : ℕ) (i : StreamId) (values : StreamPartValue) (m : StreamData)
    → (append now (full_id i) values m).error ≡ explicit_error i (top_id m)
unfolding append choose finish choose_first choose_after
append_explicit now i values m = elim (Option-cases (top_id m)) [
  | inl e ↦ rw e (ground arith)
  | inr (t, e) ↦ rw e (ground arith)
]

-- Where the top counter is 2 ^ 64 - 1 and `ms-*` asks for the same ms, the counter wraps around: the
-- append reports success under an identifier below the top one.
pub append_wraps :
    (now : ℕ) (in_id : InputStreamId) (values : StreamPartValue) (m : StreamData) (t : StreamId)
    → top_id m ≡ some t
    → t.id + 1 ≡ u64_mod
    → in_id.general_wildcard ≡ false
    → in_id.id_wildcard ≡ true
    → in_id.ms ≡ t.ms
    → ((append now in_id values m).error ≡ no_error)
      × ((append now in_id values m).id ≡ id_of t.ms 0)
      × (lt_id (append now in_id values m).id t ≡ true)
unfolding append choose finish choose_after
append_wraps now in_id values m t top full g w e = rw top (ground arith)
