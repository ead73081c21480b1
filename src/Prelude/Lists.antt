-- ===== src/Prelude/Lists.antt =====
-- Lists measured by native numbers, under the library's names.
use Prim.Native.Nat.{ℕ, zero, suc, ◌+◌, ◌-◌, ◌≤◌}
use mathlib.Core.Path.{◌≡◌, refl, ap}
use mathlib.Core.Option.{Option, none, some}
use mathlib.Core.Logic.{◌≢◌, ◌⊎◌, inl, inr}
use mathlib.Core.List.{List, [], ◌∷◌, ◌++◌}
use native.Mathlib.Omega.{arith}

module _ {ℓ} {A : Type ℓ} where
  abbrev pub length : List A → ℕ
  length [] = 0
  length (x ∷ xs) = suc (length xs)

  abbrev pub take : ℕ → List A → List A
  take zero xs = []
  take (suc n) [] = []
  take (suc n) (x ∷ xs) = x ∷ take n xs

  abbrev pub drop : ℕ → List A → List A
  drop zero xs = xs
  drop (suc n) [] = []
  drop (suc n) (x ∷ xs) = drop n xs

  abbrev pub get_elem? : List A → ℕ → Option A
  get_elem? [] i = none
  get_elem? (x ∷ xs) zero = some x
  get_elem? (x ∷ xs) (suc i) = get_elem? xs i

  -- A write out of range changes nothing.
  abbrev pub set : List A → ℕ → A → List A
  set [] i v = []
  set (x ∷ xs) zero v = v ∷ xs
  set (x ∷ xs) (suc i) v = x ∷ set xs i v

  pub get_elem?-set_self :
      (xs : List A) (i : ℕ) (v w : A) → get_elem? xs i ≡ some w → get_elem? (set xs i v) i ≡ some v
  get_elem?-set_self [] i v w e = cc
  get_elem?-set_self (x ∷ xs) zero v w e = refl
  get_elem?-set_self (x ∷ xs) (suc i) v w e = get_elem?-set_self xs i v w e

  pub get_elem?-set_ne :
      (xs : List A) (i j : ℕ) (v : A) → i ≢ j → get_elem? (set xs i v) j ≡ get_elem? xs j
  get_elem?-set_ne [] i j v ne = refl
  get_elem?-set_ne (x ∷ xs) zero zero v ne = absurd (ne refl)
  get_elem?-set_ne (x ∷ xs) zero (suc j) v ne = refl
  get_elem?-set_ne (x ∷ xs) (suc i) zero v ne = refl
  get_elem?-set_ne (x ∷ xs) (suc i) (suc j) v ne = get_elem?-set_ne xs i j v (λ e. ne (ap suc e))

  pub length-set : (xs : List A) (i : ℕ) (v : A) → length (set xs i v) ≡ length xs
  length-set [] i v = refl
  length-set (x ∷ xs) zero v = refl
  length-set (x ∷ xs) (suc i) v = ap suc (length-set xs i v)

  -- The item behind a list is the one at its length.
  pub get_elem?-length : (xs ys : List A) (y : A) → get_elem? (xs ++ y ∷ ys) (length xs) ≡ some y
  get_elem?-length [] ys y = refl
  get_elem?-length (x ∷ xs) ys y = get_elem?-length xs ys y

  -- An item of a list with one more behind it is an old one, or the new one at the end.
  pub get_elem?-last :
      (xs : List A) (y z : A) (i : ℕ)
      → get_elem? (xs ++ y ∷ []) i ≡ some z
      → (get_elem? xs i ≡ some z) ⊎ ((y ≡ z) × (i ≡ length xs))
  get_elem?-last [] y z zero e = inr (ground arith, refl)
  get_elem?-last [] y z (suc i) e = cc
  get_elem?-last (x ∷ xs) y z zero e = inl e
  get_elem?-last (x ∷ xs) y z (suc i) e = elim (get_elem?-last xs y z i e) [
    | inl old ↦ inl old
    | inr (same_item, last) ↦ inr (same_item, ap suc last)
  ]

  pub get_elem?-old :
      (xs ys : List A) (z : A) (i : ℕ) → get_elem? xs i ≡ some z → get_elem? (xs ++ ys) i ≡ some z
  get_elem?-old [] ys z i e = cc
  get_elem?-old (x ∷ xs) ys z zero e = e
  get_elem?-old (x ∷ xs) ys z (suc i) e = get_elem?-old xs ys z i e

  pub length-append : (xs ys : List A) → length (xs ++ ys) ≡ length xs + length ys
  length-append [] ys = omega arith
  length-append (x ∷ xs) ys = omega (arith, length-append xs ys)

  pub take-append_length : (s r : List A) → take (length s) (s ++ r) ≡ s
  take-append_length [] r = refl
  take-append_length (c ∷ s) r = ap (λ t. c ∷ t) (take-append_length s r)

  pub drop-append_length : (s r : List A) (n k : ℕ) → k ≡ length s + n → drop k (s ++ r) ≡ drop n r
  drop-append_length [] r n k e = let same_count : k ≡ n = omega arith in rw same_count refl
  drop-append_length (c ∷ s) r n zero e = absurd (omega arith)
  drop-append_length (c ∷ s) r n (suc k) e = drop-append_length s r n k (omega arith)

  pub length-drop : (n : ℕ) (s : List A) → length (drop n s) ≡ length s - n
  length-drop zero s = omega arith
  length-drop (suc n) [] = omega arith
  length-drop (suc n) (c ∷ s) = omega (arith, length-drop n s)

  pub take-drop : (n : ℕ) (s : List A) → take n s ++ drop n s ≡ s
  take-drop zero s = refl
  take-drop (suc n) [] = refl
  take-drop (suc n) (c ∷ s) = ap (λ t. c ∷ t) (take-drop n s)

  pub take-append : (n : ℕ) (s p : List A) → n ≤ length s → take n (s ++ p) ≡ take n s
  take-append zero s p h = refl
  take-append (suc n) [] p h = absurd (omega arith)
  take-append (suc n) (c ∷ s) p h = ap (λ t. c ∷ t) (take-append n s p (omega arith))

  pub drop-append : (n : ℕ) (s p : List A) → n ≤ length s → drop n (s ++ p) ≡ drop n s ++ p
  drop-append zero s p h = refl
  drop-append (suc n) [] p h = absurd (omega arith)
  drop-append (suc n) (c ∷ s) p h = drop-append n s p (omega arith)

module _ {ℓ κ} {A : Type ℓ} (P : A → Type κ) where
  -- Every item satisfies `P`.
  abbrev pub All : List A → Type κ
  All [] = Unit
  All (x ∷ xs) = P x × All xs

  pub All-append : (xs ys : List A) → All xs → All ys → All (xs ++ ys)
  All-append [] ys hx hy = hy
  All-append (x ∷ xs) ys hx hy = (hx.0, All-append xs ys hx.1 hy)
