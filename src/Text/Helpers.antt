-- ===== src/Text/Helpers.antt =====
-- The helpers of src/utils.cpp for prefixes, random texts and the order of bytes.
use build_your_own_redis.Prelude.{
  ℕ, zero, suc, ◌+◌, ◌*◌, ◌/◌, ◌%◌, ◌<◌, ◌≡◌, ◌↔◌, refl, sym, ap, ◌∙◌, Bool, true, false, [], ◌∷◌,
  ◌++◌, arith, ltb, if◌then◌else◌, length, take, drop, All, All-append, length-append,
  take-append_length, take-drop, ◌⊎◌, Bool-cases, inl, inr, Option, none, some, get_elem?,
}
use build_your_own_redis.Text.{Bytes, text, same, same_iff}

-- starts_with
unfoldable pub starts_with : Bytes → Bytes → Bool
starts_with str what =
    if ltb (length str) (length what) then false else same (take (length what) str) what

-- skip
unfoldable pub skip : Bytes → Bytes → Bytes
skip str what =
    if ltb (length str) (length what)
    then str
    else if same (take (length what) str) what
    then drop (length what) str
    else str

abbrev characters : Bytes
characters = text "0123456789abcdef"

abbrev character : Option ℕ → ℕ
character none = 0
character (some c) = c

-- random_hexstring: the draws of the distribution, which are below 16, are an argument.
unfoldable pub random_hexstring : ℕ → (ℕ → ℕ) → Bytes
unfolding text
random_hexstring zero draw = []
random_hexstring (suc n) draw =
    random_hexstring n draw ++ character (get_elem? characters (draw n)) ∷ []

-- byteswap of 16 and of 32 bits, on patterns
unfoldable pub byteswap16 : ℕ → ℕ
byteswap16 v = (v % 256) * 256 + v / 256 % 256

unfoldable pub byteswap32 : ℕ → ℕ
byteswap32 v =
    (v % 256) * 16_777_216
    + (v / 256 % 256) * 65_536
    + (v / 65_536 % 256) * 256
    + v / 16_777_216 % 256

-- Swapping the bytes of a word twice gives the word back, and gives a word of the same width.
pub byteswap32-byteswap32 :
    (v : ℕ) → v < 4_294_967_296 → (byteswap32 (byteswap32 v) ≡ v) × (byteswap32 v < 4_294_967_296)
unfolding byteswap32
byteswap32-byteswap32 v h = omega arith

byteswap16-byteswap16 :
    (v : ℕ) → v < 65_536 → (byteswap16 (byteswap16 v) ≡ v) × (byteswap16 v < 65_536)
unfolding byteswap16
byteswap16-byteswap16 v h = omega arith

starts_with-append : (what rest : Bytes) → starts_with (what ++ rest) what ≡ true
unfolding starts_with
starts_with-append what rest =
    rw (fits what rest, take-append_length what rest) ((same_iff what what).1 refl)
  where
    fits : (s r : Bytes) → ltb (length (s ++ r)) (length s) ≡ false
    fits s r = ground (arith, length-append s r)

append-skip : (str what : Bytes) → starts_with str what ≡ true → what ++ skip str what ≡ str
unfolding starts_with skip
append-skip str what e = elim (Bool-cases (ltb (length str) (length what))) [
  | inl q ↦ cc (rw q at e)
  | inr q ↦
      let same_prefix = rw q at e in
      let prefix = (same_iff (take (length what) str) what).0 same_prefix in
      rw (q, same_prefix)
        (ap (λ p. p ++ drop (length what) str) (sym prefix) ∙ take-drop (length what) str)
]

skip_other : (str what : Bytes) → starts_with str what ≡ false → skip str what ≡ str
unfolding starts_with skip
skip_other str what e = elim (Bool-cases (ltb (length str) (length what))) [
  | inl q ↦ rw q refl
  | inr q ↦ rw (q, rw q at e) refl
]

-- A text starts with another one exactly where it is this one with a rest behind it; skip then leaves the
-- rest, and elsewhere the whole text.
pub starts_with-skip :
    (str what : Bytes)
    → ((starts_with str what ≡ true) ↔ ((rest : Bytes) × (str ≡ what ++ rest)))
      × (starts_with str what ≡ true → what ++ skip str what ≡ str)
      × (starts_with str what ≡ false → skip str what ≡ str)
starts_with-skip str what = (
  (
    λ e. (skip str what, sym (append-skip str what e)),
    λ (rest, e). ap (λ s. starts_with s what) e ∙ starts_with-append what rest,
  ),
  append-skip str what,
  skip_other str what,
)

abbrev pub IsHex : ℕ → Type 0
IsHex c = ((47 < c) × (c < 58)) ⊎ ((96 < c) × (c < 103))

All-character :
    (cs : Bytes) (n : ℕ) → All IsHex cs → n < length cs → IsHex (character (get_elem? cs n))
All-character [] n h lt = absurd (omega arith)
All-character (c ∷ cs) zero h lt = h.0
All-character (c ∷ cs) (suc n) h lt = All-character cs n h.1 (omega arith)

digits-IsHex : All IsHex (text "0123456789")
unfolding text
digits-IsHex = (
  inl (omega arith),
  (
    inl (omega arith),
    (
      inl (omega arith),
      (
        inl (omega arith),
        (
          inl (omega arith),
          (
            inl (omega arith),
            (inl (omega arith), (inl (omega arith), (inl (omega arith), (inl (omega arith), tt)))),
          ),
        ),
      ),
    ),
  ),
)

letters-IsHex : All IsHex (text "abcdef")
unfolding text
letters-IsHex = (
  inr (omega arith),
  (
    inr (omega arith),
    (inr (omega arith), (inr (omega arith), (inr (omega arith), (inr (omega arith), tt)))),
  ),
)

character-IsHex : (n : ℕ) → n < 16 → IsHex (character (get_elem? characters n))
unfolding text
character-IsHex n h =
    All-character characters n
      (All-append IsHex (text "0123456789") (text "abcdef") digits-IsHex letters-IsHex) h

-- A random text has the length that is asked for and only digits of base 16, where the draws are below 16.
pub random_hexstring-IsHex :
    (n : ℕ) (draw : ℕ → ℕ)
    → ((k : ℕ) → draw k < 16)
    → (length (random_hexstring n draw) ≡ n) × All IsHex (random_hexstring n draw)
unfolding random_hexstring
random_hexstring-IsHex zero draw h = (refl, tt)
random_hexstring-IsHex (suc n) draw h =
    let (long, hex) = random_hexstring-IsHex n draw h in
    let last = character (get_elem? characters (draw n)) in
    (
      omega (arith, length-append (random_hexstring n draw) (last ∷ []), long),
      All-append IsHex (random_hexstring n draw) (last ∷ []) hex
          (character-IsHex (draw n) (h n), tt),
    )
