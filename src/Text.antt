-- ===== src/Text.antt =====
-- Texts as lists of bytes, and the text functions of src/utils.cpp and of the standard library
-- that the program calls.
pub mod Decimal
pub mod Helpers
use Prim.Native.Char.{code}
use build_your_own_redis.Prelude.{
  ℕ, ◌+◌, ◌-◌, String, ◌≡◌, refl, ◌≢◌, ◌↔◌, Bool, true, false, ◌&&◌, Option, none, some, List, [],
  ◌∷◌, ◌++◌, map, arith, ltb, leb, ◌==◌, if◌then◌else◌, All,
}

-- `std::string`: a list of bytes.
abbrev pub Bytes : Type 0
Bytes = List ℕ

-- The bytes of a (7-bit) literal of the source.
unfoldable pub text : String → Bytes
text String.[] = []
text (String.◌∷◌ c s) = code c ∷ text s

-- `==` of `std::string` and `std::string_view`.
unfoldable pub same : Bytes → Bytes → Bool
same [] [] = true
same [] (d ∷ t) = false
same (c ∷ s) [] = false
same (c ∷ s) (d ∷ t) = c == d && same s t

pub same_iff : (s t : Bytes) → (same s t ≡ true) ↔ (s ≡ t)
unfolding same
same_iff [] [] = ((λ h. refl), (λ h. refl))
same_iff [] (d ∷ t) = ((λ h. cc), (λ h. cc))
same_iff (c ∷ s) [] = ((λ h. cc), (λ h. cc))
same_iff (c ∷ s) (d ∷ t) = ground (arith, same_iff s t)

pub same_refl : (s : Bytes) → same s s ≡ true
same_refl s = (same_iff s s).1 refl

-- `std::tolower` and `std::toupper` of the C locale, on one byte.
unfoldable pub to_lower : ℕ → ℕ
to_lower c = if leb b'A' c && leb c b'Z' then c + 32 else c

unfoldable pub to_upper : ℕ → ℕ
to_upper c = if leb b'a' c && leb c b'z' then c - 32 else c

unfoldable pub to_lower_case : Bytes → Bytes
unfolding to_lower
to_lower_case s = map to_lower s

unfoldable pub to_upper_case : Bytes → Bytes
unfolding to_upper
to_upper_case s = map to_upper s

-- `str.find(d)` and the parts before and after the position that it returns.
unfoldable pub split_first : ℕ → Bytes → Option (Bytes × Bytes)
split_first d [] = none
split_first d (c ∷ s) =
    if c == d
    then some ([], s)
    else elim (split_first d s) [ none ↦ none | some (l, r) ↦ some (c ∷ l, r) ]

pub split_first-append :
    (d : ℕ) (l r : Bytes) → All (λ c. c ≢ d) l → split_first d (l ++ d ∷ r) ≡ some (l, r)
unfolding split_first
split_first-append d [] r h = ground arith
split_first-append d (c ∷ l) r h = ground (arith, split_first-append d l r h.1)
