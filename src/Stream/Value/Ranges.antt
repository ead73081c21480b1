-- ===== src/Stream/Value/Ranges.antt =====
-- StreamValue::xrange of src/storage.cpp.
use build_your_own_redis.Prelude.{
  ◌≤◌, ◌≡◌, ap, ◌⊎◌, ◌<◌, ◌++◌, Bool, true, false, ◌&&◌, ◌||◌, not, [], ◌∷◌, arith, length, All,
  le→leb, if◌then◌else◌, Bool-cases, inl, inr,
}
use build_your_own_redis.Prelude.Cut.{select, count_while, Falls, take-drop-count_while}
use build_your_own_redis.Outcome.{ok, undefined}
use build_your_own_redis.Stream.Id.{BoundStreamId, lt_id}
use build_your_own_redis.Stream.Value.{Entry, StreamData, entries, lower_bound, upper_bound, xrange}
use build_your_own_redis.Stream.Value.Append.{Above, IsSorted}

-- An entry lies before the left bound of XRANGE; it does not lie behind the right one.
abbrev pub is_before : BoundStreamId → Entry → Bool
is_before left_id e = not left_id.is_left_unbound && lt_id e.0 left_id.base

abbrev pub is_not_behind : BoundStreamId → Entry → Bool
is_not_behind right_id e = right_id.is_right_unbound || not (lt_id right_id.base e.0)

-- The bounds are in order: one of them is a sign, or the right one is not below the left one.
abbrev pub InOrder : BoundStreamId → BoundStreamId → Type 0
InOrder l r =
    (l.is_left_unbound ≡ true) ⊎ (r.is_right_unbound ≡ true) ⊎ (lt_id r.base l.base ≡ false)

InOrder_lem :
    (l r : BoundStreamId)
    → InOrder l r
    → (e : Entry) → is_before l e ≡ true
    → is_not_behind r e ≡ true
InOrder_lem l r order e h = ground arith

Falls-before : (l : BoundStreamId) (m : StreamData) → IsSorted m → Falls (is_before l) m
Falls-before l [] s = tt
Falls-before l (e ∷ m) s = (λ h. go m s.0 h, Falls-before l m s.1)
  where
    go : (n : StreamData) → Above e.0 n → is_before l e ≡ false → All (λ d. is_before l d ≡ false) n
    go [] a h = tt
    go (d ∷ n) a h = (ground arith, go n a.1 h)

Falls-not_behind : (r : BoundStreamId) (m : StreamData) → IsSorted m → Falls (is_not_behind r) m
Falls-not_behind r [] s = tt
Falls-not_behind r (e ∷ m) s = (λ h. go m s.0 h, Falls-not_behind r m s.1)
  where
    go :
        (n : StreamData)
        → Above e.0 n
        → is_not_behind r e ≡ false
        → All (λ d. is_not_behind r d ≡ false) n
    go [] a h = tt
    go (d ∷ n) a h = (ground arith, go n a.1 h)

begin_count :
    (l : BoundStreamId) (m : StreamData)
    → (if l.is_left_unbound then 0 else lower_bound l.base m) ≡ count_while (is_before l) m
unfolding lower_bound count_while
begin_count l [] = ground arith
begin_count l (e ∷ m) = ground (arith, begin_count l m)

end_count :
    (r : BoundStreamId) (m : StreamData)
    → (if r.is_right_unbound then length m else upper_bound r.base m)
      ≡ count_while (is_not_behind r) m
unfolding upper_bound count_while
end_count r [] = ground arith
end_count r (e ∷ m) = ground (arith, end_count r m)

-- XRANGE over an ordered stream with bounds in order returns exactly the entries that lie neither
-- before the left bound nor behind the right one, in their order; reading them is defined.
pub entries-xrange :
    (l r : BoundStreamId) (m : StreamData)
    → IsSorted m
    → InOrder l r
    → entries m (xrange l r m) ≡ ok (select (λ e. not (is_before l e) && is_not_behind r e) m)
unfolding entries xrange
entries-xrange l r m s order =
    let (le, same_items) =
      take-drop-count_while (is_before l) (is_not_behind r) m (InOrder_lem l r order)
        (Falls-before l m s) (Falls-not_behind r m s) in
    rw (begin_count l m, end_count r m, le→leb _ _ le) (ap ok same_items)

count_while-le :
    (q : Entry → Bool) (a b : StreamData) (e : Entry)
    → q e ≡ false
    → count_while q (a ++ e ∷ b) ≤ length a
unfolding count_while
count_while-le q [] b e h = rw h (omega arith)
count_while-le q (x ∷ a) b e h = ground (arith, count_while-le q a b e h)

All-at :
    (p : Entry → Bool) (a b : StreamData) (e : Entry)
    → All (λ d. p d ≡ false) (a ++ e ∷ b)
    → p e ≡ false
All-at p [] b e h = h.0
All-at p (x ∷ a) b e h = All-at p a b e h.1

lt-count_while :
    (p : Entry → Bool) (a b : StreamData) (e : Entry)
    → p e ≡ true
    → Falls p (a ++ e ∷ b)
    → length a < count_while p (a ++ e ∷ b)
unfolding count_while
lt-count_while p [] b e h f = rw h (omega arith)
lt-count_while p (x ∷ a) b e h f = elim (Bool-cases (p x)) [
  | inl t ↦ rw t (omega (arith, lt-count_while p a b e h f.1))
  | inr t ↦ cc (All-at p a b e (f.0 t))
]

-- Where the right bound is below the left one and an entry lies between them, the range that XRANGE
-- returns begins behind its end, and the loop that reads it is undefined.
pub entries-xrange_reversed :
    (l r : BoundStreamId) (a b : StreamData) (e : Entry)
    → IsSorted (a ++ e ∷ b)
    → l.is_left_unbound ≡ false
    → r.is_right_unbound ≡ false
    → lt_id r.base e.0 ≡ true
    → lt_id e.0 l.base ≡ true
    → entries (a ++ e ∷ b) (xrange l r (a ++ e ∷ b)) ≡ undefined
unfolding entries xrange
entries-xrange_reversed l r a b e s hl hr re el =
    let m = a ++ e ∷ b in
    let above = lt-count_while (is_before l) a b e (ground arith) (Falls-before l m s) in
    let below = count_while-le (is_not_behind r) a b e (ground arith) in
    rw (begin_count l m, end_count r m) (ground arith)
