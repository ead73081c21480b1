-- ===== src/Prelude/Cut.antt =====
-- Cutting a list at the places where tests change: positions as counts of leading items.
use Prim.Native.Nat.{ℕ, suc, ◌-◌, ◌≤◌}
use mathlib.Core.Path.{◌≡◌, refl, sym, ap}
use mathlib.Core.Bool.{Bool, true, false, ◌&&◌, not}
use mathlib.Core.Logic.{inl, inr}
use mathlib.Core.List.{List, [], ◌∷◌}
use native.Mathlib.Omega.{arith}
use build_your_own_redis.Prelude.Tests.{if◌then◌else◌, Bool-cases}
use build_your_own_redis.Prelude.Lists.{length, take, drop, All}

pub suc-sub-suc : (a b : ℕ) → suc a - suc b ≡ a - b
suc-sub-suc a b = omega arith

pub sub-zero : (a : ℕ) → a - 0 ≡ a
sub-zero a = omega arith

module _ {ℓ} {A : Type ℓ} where
  -- The items that pass a test, in order.
  unfoldable pub select : (A → Bool) → List A → List A
  select p [] = []
  select p (x ∷ xs) = let rest = select p xs in if p x then x ∷ rest else rest

  -- The number of leading items that pass a test.
  unfoldable pub count_while : (A → Bool) → List A → ℕ
  count_while p [] = 0
  count_while p (x ∷ xs) = if p x then suc (count_while p xs) else 0

  -- Behind an item that fails the test all items fail it.
  abbrev pub Falls : (A → Bool) → List A → Type ℓ
  Falls p [] = Unit
  Falls p (x ∷ xs) = (p x ≡ false → All (λ y. p y ≡ false) xs) × Falls p xs

  pub select_whole : (p : A → Bool) (xs : List A) → All (λ x. p x ≡ true) xs → select p xs ≡ xs
  unfolding select
  select_whole p [] h = refl
  select_whole p (x ∷ xs) h = rw (h.0, select_whole p xs h.1)

  pub select-none : (p : A → Bool) (xs : List A) → All (λ x. p x ≡ false) xs → select p xs ≡ []
  unfolding select
  select-none p [] h = refl
  select-none p (x ∷ xs) h = rw (h.0, select-none p xs h.1)

  pub select-always : (p : A → Bool) (xs : List A) → ((x : A) → p x ≡ true) → select p xs ≡ xs
  unfolding select
  select-always p [] h = refl
  select-always p (x ∷ xs) h = rw (h x, select-always p xs h)

  pub take-length : (xs : List A) → take (length xs) xs ≡ xs
  take-length [] = refl
  take-length (x ∷ xs) = ap (λ t. x ∷ t) (take-length xs)

  All-and :
      (p q : A → Bool) (xs : List A)
      → All (λ x. q x ≡ false) xs
      → All (λ x. (not (p x) && q x) ≡ false) xs
  All-and p q [] h = tt
  All-and p q (x ∷ xs) h = (ground arith, All-and p q xs h.1)

  -- The leading items that pass `q`, where none passes `p`.
  take-count_while :
      (p q : A → Bool) (xs : List A)
      → All (λ x. p x ≡ false) xs
      → Falls q xs
      → take (count_while q xs) xs ≡ select (λ x. not (p x) && q x) xs
  unfolding select count_while
  take-count_while p q [] hp hq = refl
  take-count_while p q (x ∷ xs) hp hq = elim (Bool-cases (q x)) [
    | inl e ↦ rw (e, hp.0) (ap (λ t. x ∷ t) (take-count_while p q xs hp.1 hq.1))
    | inr e ↦ rw (e, hp.0, select-none _ xs (All-and p q xs (hq.0 e)))
  ]

  -- The items between two cuts are those that fail the first test and pass the second one.
  pub take-drop-count_while :
      (p q : A → Bool) (xs : List A)
      → ((x : A) → p x ≡ true → q x ≡ true)
      → Falls p xs
      → Falls q xs
      → (count_while p xs ≤ count_while q xs)
        × (take (count_while q xs - count_while p xs) (drop (count_while p xs) xs)
            ≡ select (λ x. not (p x) && q x) xs)
  unfolding select count_while
  take-drop-count_while p q [] i hp hq = (omega arith, refl)
  take-drop-count_while p q (x ∷ xs) i hp hq = elim (Bool-cases (p x)) [
    | inl e ↦
        let (le, same_items) = take-drop-count_while p q xs i hp.1 hq.1 in
        rw (e, i x e) (omega arith, rw suc-sub-suc same_items)
    | inr e ↦ elim (Bool-cases (q x)) [
      | inl f ↦
          rw (e, f)
            (omega arith, rw sub-zero (ap (λ t. x ∷ t) (take-count_while p q xs (hp.0 e) hq.1)))
      | inr f ↦ rw (e, f) (omega arith, sym (select-none _ xs (All-and p q xs (hq.0 f))))
    ]
  ]
