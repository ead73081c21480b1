-- ===== src/Stream/Value/Reads.antt =====
-- StreamValue::xread of src/storage.cpp.
use mathlib.Core.Path.{subst}
use build_your_own_redis.Prelude.{
  ℕ, suc, ◌+◌, ◌≡◌, refl, ap, sym, ◌∙◌, true, false, [], ◌∷◌, arith, length, drop, le→leb,
  if◌then◌else◌, Bool-cases, inl, inr,
}
use build_your_own_redis.Prelude.Cut.{
  suc-sub-suc, sub-zero, select, count_while, select_whole, take-length,
}
use build_your_own_redis.Outcome.{ok}
use build_your_own_redis.Stream.Id.{StreamId, ReadStreamId, eq_id, lt_id}
use build_your_own_redis.Stream.Id.Order.{lt_id_asymm, eq_id_iff}
use build_your_own_redis.Stream.Value.{Entry, StreamData, entries, lower_bound, xread_from, xread}
use build_your_own_redis.Stream.Value.Append.{Above, IsSorted, Above-trans}

entries_step :
    (e : Entry) (m : StreamData) (b n : ℕ)
    → entries (e ∷ m) (record { begin = suc b; end = suc n })
      ≡ entries m (record { begin = b; end = n })
unfolding entries
entries_step e m b n = rw suc-sub-suc (ground arith)

suc-add-one : (b : ℕ) → suc b + 1 ≡ suc (b + 1)
suc-add-one b = omega arith

-- An entry before the lower bound moves the range by one.
xread_from_step :
    (id : ReadStreamId) (e : Entry) (m d : StreamData) (b : ℕ)
    → entries (e ∷ m) (xread_from id (e ∷ m) (suc b) d) ≡ entries m (xread_from id m b d)
unfolding xread_from
xread_from_step id e m [] b = unfold entries in refl
xread_from_step id e m (x ∷ d) b = elim (Bool-cases (eq_id x.0 id.base)) [
  | inl h ↦ rw (h, suc-add-one) (entries_step e m (b + 1) (length m))
  | inr h ↦ rw h (entries_step e m b (length m))
]

entries_whole : (m : StreamData) → entries m (record { begin = 0; end = length m }) ≡ ok m
unfolding entries
entries_whole m = rw (le→leb 0 (length m) (omega arith), sub-zero) (ap ok (take-length m))

entries_tail :
    (e : Entry) (m : StreamData)
    → entries (e ∷ m) (record { begin = 1; end = suc (length m) }) ≡ ok m
entries_tail e m = entries_step e m 0 (length m) ∙ entries_whole m

-- The entries that XREAD promises: those above the identifier.
abbrev pub after : StreamId → StreamData → StreamData
after i m = select (λ e. lt_id i e.0) m

xread_here :
    (id : ReadStreamId) (e : Entry) (m : StreamData)
    → Above e.0 m
    → lt_id e.0 id.base ≡ false
    → entries (e ∷ m) (xread_from id (e ∷ m) 0 (e ∷ m)) ≡ ok (after id.base (e ∷ m))
unfolding xread_from
xread_here id e m above h = elim (Bool-cases (eq_id e.0 id.base)) [
  | inl q ↦
      let same_id : e.0 ≡ id.base = (eq_id_iff e.0 id.base).0 q in
      rw (q, zero_add_one)
        (entries_tail e m
          ∙ ap ok (
              sym (
                unfold select in
                rw (not_after same_id) (select_whole _ m (subst (λ i. Above i m) same_id above)))))
  | inr q ↦ rw q (
      entries_whole (e ∷ m)
      ∙ ap ok
          (sym (select_whole _ (e ∷ m) (is_above q, Above-trans id.base e.0 m (is_above q) above))))
]
  where
    zero_add_one : 0 + 1 ≡ 1
    zero_add_one = refl

    not_after : e.0 ≡ id.base → lt_id id.base e.0 ≡ false
    not_after p = ground arith

    is_above : eq_id e.0 id.base ≡ false → lt_id id.base e.0 ≡ true
    is_above q = ground arith

xread_any :
    (id : ReadStreamId) (m : StreamData)
    → IsSorted m
    → entries m (xread_from id m (lower_bound id.base m) (drop (lower_bound id.base m) m))
      ≡ ok (after id.base m)
unfolding lower_bound count_while
xread_any id [] s = unfold xread_from entries select in refl
xread_any id (e ∷ m) s = elim (Bool-cases (lt_id e.0 id.base)) [
  | inl h ↦ rw h (
      xread_from_step id e m (drop (lower_bound id.base m) m) (lower_bound id.base m)
      ∙ xread_any id m s.1
      ∙ ap ok (unfold select in rw (lt_id_asymm e.0 id.base h) refl))
  | inr h ↦ rw h (xread_here id e m s.0 h)
]

-- XREAD of an ordered stream returns exactly the entries above the identifier, in their order, and
-- no entry for `$`; reading them is defined.
pub entries-xread :
    (id : ReadStreamId) (m : StreamData)
    → IsSorted m
    → entries m (xread id m) ≡ ok (if id.is_next_expected then [] else after id.base m)
unfolding xread
entries-xread id m s = elim (Bool-cases id.is_next_expected) [
  | inl h ↦ rw h (unfold entries in refl)
  | inr h ↦ rw h (xread_any id m s)
]
