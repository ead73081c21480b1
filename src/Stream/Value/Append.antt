-- ===== src/Stream/Value/Append.antt =====
-- StreamValue::append of src/storage.cpp and the order of the map.
use mathlib.Core.Path.{subst}
use mathlib.Core.List.{cons-ne-nil}
use build_your_own_redis.Prelude.{
  ap, sym, Option-cases, ℕ, ◌+◌, ◌<◌, ◌≡◌, refl, true, Option, none, some, [], ◌∷◌, ◌++◌, arith,
  All, Bool-cases, inl, inr,
}
use build_your_own_redis.Text.Decimal.{u64_mod}
use build_your_own_redis.Stream.Id.{StreamId, InputStreamId, lt_id, input_is_null}
use build_your_own_redis.Stream.Id.Order.{lt_id_trans, lt_id_asymm}
use build_your_own_redis.Stream.Value.{
  StreamErrorType, must_be_more_than_top, StreamPartValue, Entry, StreamData, top_id, emplace,
  Choice, chosen, refused, choose_after, choose, finish, append,
}

-- All entries lie above an identifier.
abbrev pub Above : StreamId → StreamData → Type 0
Above i = All (λ (e : Entry). lt_id i e.0 ≡ true)

-- Each entry lies below those behind it: the order that `std::map` keeps.
abbrev pub IsSorted : StreamData → Type 0
IsSorted [] = Unit
IsSorted (e ∷ m) = Above e.0 m × IsSorted m

pub Above-trans : (i j : StreamId) (m : StreamData) → lt_id i j ≡ true → Above j m → Above i m
Above-trans i j [] h a = tt
Above-trans i j (e ∷ m) h a = (lt_id_trans i j e.0 h a.0, Above-trans i j m h a.1)

emplace-Above :
    (i j : StreamId) (v : StreamPartValue) (m : StreamData)
    → lt_id j i ≡ true
    → Above j m
    → Above j (emplace i v m)
unfolding emplace
emplace-Above i j v [] h a = (h, tt)
emplace-Above i j v ((k, w) ∷ m) h a = elim (Bool-cases (lt_id i k)) [
  | inl e ↦ rw e (h, a)
  | inr e ↦ elim (Bool-cases (lt_id k i)) [
    | inl f ↦ rw (e, f) (a.0, emplace-Above i j v m h a.1)
    | inr f ↦ rw (e, f) a
  ]
]

emplace-IsSorted :
    (i : StreamId) (v : StreamPartValue) (m : StreamData) → IsSorted m → IsSorted (emplace i v m)
unfolding emplace
emplace-IsSorted i v [] s = (tt, tt)
emplace-IsSorted i v ((k, w) ∷ m) s = elim (Bool-cases (lt_id i k)) [
  | inl e ↦ rw e ((e, Above-trans i k m e s.0), s)
  | inr e ↦ elim (Bool-cases (lt_id k i)) [
    | inl f ↦ rw (e, f) (emplace-Above i k v m f s.0, emplace-IsSorted i v m s.1)
    | inr f ↦ rw (e, f) s
  ]
]

finish-IsSorted :
    (m : StreamData) (values : StreamPartValue) (c : Choice)
    → IsSorted m
    → IsSorted (finish m values c).content
unfolding finish
finish-IsSorted m values (refused e) s = s
finish-IsSorted m values (chosen i) s = emplace-IsSorted i values m s

-- Whatever the clock and the identifier asked for, an append keeps the entries in strictly
-- ascending order of their identifiers.
pub append-IsSorted :
    (now : ℕ) (in_id : InputStreamId) (values : StreamPartValue) (m : StreamData)
    → IsSorted m
    → IsSorted (append now in_id values m).content
unfolding append
append-IsSorted now in_id values m s = elim (Bool-cases (input_is_null in_id)) [
  | inl e ↦ rw e s
  | inr e ↦ rw e (finish-IsSorted m values (choose now (top_id m) in_id) s)
]

-- All entries lie below an identifier.
abbrev pub Below : StreamId → StreamData → Type 0
Below i = All (λ (e : Entry). lt_id e.0 i ≡ true)

top_id-Below :
    (t i : StreamId) (m : StreamData)
    → IsSorted m
    → top_id m ≡ some t
    → lt_id t i ≡ true
    → Below i m
unfolding top_id
top_id-Below t i [] s e h = tt
top_id-Below t i (x ∷ []) s e h = (ground arith, tt)
top_id-Below t i (x ∷ y ∷ m) s e h =
    let below = top_id-Below t i (y ∷ m) s.1 e h in (lt_id_trans x.0 y.0 i s.0.0 below.0, below)

pub emplace-append :
    (i : StreamId) (v : StreamPartValue) (m : StreamData)
    → Below i m
    → emplace i v m ≡ m ++ (i, v) ∷ []
unfolding emplace
emplace-append i v [] b = refl
emplace-append i v ((j, w) ∷ m) b =
    rw (lt_id_asymm j i b.0, b.0) (ap (λ t. (j, w) ∷ t) (emplace-append i v m b.1))

pub top_id-none : (m : StreamData) → top_id m ≡ none → m ≡ []
unfolding top_id
top_id-none [] e = refl
top_id-none (x ∷ []) e = cc
top_id-none (x ∷ y ∷ m) e = absurd (cons-ne-nil y m (top_id-none (y ∷ m) e))

-- The counter of the top identifier has room for one more.
abbrev pub HasRoom : StreamData → Type 0
HasRoom m = (t : StreamId) → top_id m ≡ some t → t.id + 1 < u64_mod

choose_after-lt :
    (now : ℕ) (last i : StreamId) (in_id : InputStreamId)
    → last.id + 1 < u64_mod
    → choose_after now last in_id ≡ chosen i
    → lt_id last i ≡ true
unfolding choose_after
choose_after-lt now last i in_id room e = ground arith

pub choose-refused :
    (now : ℕ) (top : Option StreamId) (in_id : InputStreamId) (e : StreamErrorType)
    → choose now top in_id ≡ refused e
    → e ≡ must_be_more_than_top
unfolding choose
choose-refused now none in_id e h = ground arith
choose-refused now (some last) in_id e h = ground arith

pub choose-Below :
    (now : ℕ) (i : StreamId) (in_id : InputStreamId) (m : StreamData)
    → IsSorted m
    → HasRoom m
    → choose now (top_id m) in_id ≡ chosen i
    → Below i m
choose-Below now i in_id m s room h = elim (Option-cases (top_id m)) [
  | inl e ↦ subst (Below i) (sym (top_id-none m e)) tt
  | inr (t, e) ↦
      top_id-Below t i m s e (choose_after-lt now t i in_id (room t e) (unfold choose in rw e at h))
]
