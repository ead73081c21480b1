-- ===== src/Stream/Id/RoundTrip.antt =====
-- from_string on what to_string prints, for the identifiers of src/storage.cpp.
use build_your_own_redis.Prelude.{
  ℕ, ◌<◌, ◌≡◌, ◌≢◌, refl, String, true, false, some, [], ◌∷◌, ◌++◌, arith, All, Bool-cases, inl,
  inr,
}
use build_your_own_redis.Text.{Bytes, text, same, same_refl, split_first, split_first-append}
use build_your_own_redis.Text.Decimal.{u64_mod, decimal}
use build_your_own_redis.Text.Decimal.RoundTrip.{
  IsDigit, decimal-All, decimal-ne-nil, decimal-lacks, parse_uint64-decimal_self,
}
use build_your_own_redis.Outcome.{ok}
use build_your_own_redis.Stream.Id.{
  StreamId, InRange, InputStreamId, zero_id, parse_part, from_parts, from_string, to_string,
  input_from_parts, input_from_string, input_to_string, bound_from_string, read_from_string,
  bad_first, bad_second, full_id,
}

abbrev LacksDash : Bytes → Type 0
LacksDash = All (λ c. c ≢ b'-')

-- A text with a '-' differs from one without.
same-dash : (l r t : Bytes) → LacksDash t → same (l ++ b'-' ∷ r) t ≡ false
unfolding same
same-dash [] r [] h = refl
same-dash [] r (d ∷ t) h = ground arith
same-dash (c ∷ l) r [] h = refl
same-dash (c ∷ l) r (d ∷ t) h = ground (arith, same-dash l r t h.1)

same-dash_alone : (l r : Bytes) → l ≢ [] → LacksDash l → same (l ++ b'-' ∷ r) (text "-") ≡ false
unfolding same text
same-dash_alone [] r ne h = absurd (ne refl)
same-dash_alone (c ∷ l) r ne h = ground arith

parse_part-decimal :
    (message : String) (str : Bytes) (n : ℕ)
    → n < u64_mod
    → parse_part message str (decimal n) ≡ ok n
unfolding parse_part
parse_part-decimal message str n h = rw (parse_uint64-decimal_self n h, parse_part)

split-to_string :
    (i : StreamId) → split_first b'-' (to_string i) ≡ some (decimal i.ms, decimal i.id)
unfolding to_string
split-to_string i =
    split_first-append b'-' (decimal i.ms) (decimal i.id) (decimal-lacks b'-' i.ms refl)

from_parts-decimal :
    (i : StreamId) (str : Bytes)
    → InRange i
    → from_parts str (some (decimal i.ms, decimal i.id)) ≡ ok i
unfolding from_parts
from_parts-decimal i str h = rw (
  parse_part-decimal bad_first str i.ms h.ms_fits,
  parse_part-decimal bad_second str i.id h.id_fits,
)

same-to_string : (i : StreamId) (t : Bytes) → LacksDash t → same (to_string i) t ≡ false
unfolding to_string
same-to_string i t h = same-dash (decimal i.ms) (decimal i.id) t h

text-LacksDash :
    LacksDash (text "0") × LacksDash (text "*") × LacksDash (text "+") × LacksDash (text "$")
unfolding text
text-LacksDash = omega arith

-- Reading back what StreamId::to_string printed gives the same identifier, if its parts fit 64 bits.
pub from_string-to_string : (i : StreamId) → InRange i → from_string (to_string i) ≡ ok i
unfolding from_string
from_string-to_string i h =
    rw (same-to_string i [] tt, same-to_string i (text "0") text-LacksDash.0, split-to_string i)
      (from_parts-decimal i (to_string i) h)

-- An identifier of XADD as a text can give it: `*` and `ms-*` leave the parts that they do not
-- name at 0.
pub record IsCanonical (i : InputStreamId) : Type 0 where
  pub fits : InRange i.base
  pub all_free : i.general_wildcard ≡ true → (i.base ≡ zero_id) × (i.id_wildcard ≡ false)
  pub id_free : i.id_wildcard ≡ true → i.id ≡ 0

wildcard_parts :
    (ms : ℕ) (str : Bytes)
    → ms < u64_mod
    → input_from_parts str (some (decimal ms, text "*"))
      ≡ ok (record {
        base = record { ms = ms; id = 0 };
        id_wildcard = true;
        general_wildcard = false;
      })
unfolding input_from_parts
wildcard_parts ms str h = rw (parse_part-decimal bad_first str ms h, same_refl (text "*"))

same-decimal_star : (n : ℕ) → same (decimal n) (text "*") ≡ false
unfolding same text
same-decimal_star n = go (decimal n) (decimal-All n) (decimal-ne-nil n)
  where
    go : (s : Bytes) → All IsDigit s → s ≢ [] → same s (b'*' ∷ []) ≡ false
    go [] a ne = refl
    go (c ∷ s) a ne = ground arith

full_parts :
    (i : StreamId) (str : Bytes)
    → InRange i
    → input_from_parts str (some (decimal i.ms, decimal i.id)) ≡ ok (full_id i)
unfolding input_from_parts
full_parts i str h = rw (
  parse_part-decimal bad_first str i.ms h.ms_fits,
  same-decimal_star i.id,
  parse_part-decimal bad_second str i.id h.id_fits,
)

input_full : (i : StreamId) → InRange i → input_from_string (to_string i) ≡ ok (full_id i)
unfolding input_from_string
input_full i h =
    rw
      (
        same-to_string i (text "0") text-LacksDash.0,
        same-to_string i (text "*") text-LacksDash.1,
        split-to_string i,
      )
      (full_parts i (to_string i) h)

abbrev star_text : ℕ → Bytes
star_text ms = decimal ms ++ b'-' ∷ text "*"

input_star :
    (ms : ℕ)
    → ms < u64_mod
    → input_from_string (star_text ms)
      ≡ ok (record {
        base = record { ms = ms; id = 0 };
        id_wildcard = true;
        general_wildcard = false;
      })
unfolding input_from_string
input_star ms h =
    rw
      (
        same-dash (decimal ms) (text "*") (text "0") text-LacksDash.0,
        same-dash (decimal ms) (text "*") (text "*") text-LacksDash.1,
        split_first-append b'-' (decimal ms) (text "*") (decimal-lacks b'-' ms refl),
      )
      (wildcard_parts ms (star_text ms) h)

input_any :
    input_from_string (text "*")
    ≡ ok (record { base = zero_id; id_wildcard = false; general_wildcard = true })
unfolding input_from_string text same
input_any = refl

star_text_lem : (ms : ℕ) → decimal ms ++ text "-*" ≡ star_text ms
unfolding text
star_text_lem ms = refl

-- Reading back what InputStreamId::to_string printed gives the same identifier, if its parts fit 64
-- bits and it leaves at 0 the parts that its text does not name.
pub input_from_string-to_string :
    (i : InputStreamId) → IsCanonical i → input_from_string (input_to_string i) ≡ ok i
unfolding input_to_string
input_from_string-to_string i c = elim (Bool-cases i.general_wildcard) [
  | inl g ↦ rw g (ground (arith, input_any, c.all_free g))
  | inr g ↦ elim (Bool-cases i.id_wildcard) [
    | inl w ↦ rw (g, w, star_text_lem) (ground (arith, input_star i.ms c.fits.ms_fits, c.id_free w))
    | inr w ↦ rw (g, w) (ground (arith, input_full i.base c.fits))
  ]
]

same-dash_to_string : (i : StreamId) → same (to_string i) (text "-") ≡ false
unfolding to_string
same-dash_to_string i =
    same-dash_alone (decimal i.ms) (decimal i.id) (decimal-ne-nil i.ms)
      (decimal-lacks b'-' i.ms refl)

-- A bound that is no sign is read back from its text.
pub bound_from_string-to_string :
    (i : StreamId)
    → InRange i
    → bound_from_string (to_string i)
      ≡ ok (record { base = i; is_left_unbound = false; is_right_unbound = false })
unfolding bound_from_string
bound_from_string-to_string i h =
    rw (
      same-dash_to_string i,
      same-to_string i (text "+") text-LacksDash.2,
      from_string-to_string i h,
    )

-- An identifier of XREAD that is not `$` is read back from its text.
pub read_from_string-to_string :
    (i : StreamId)
    → InRange i
    → read_from_string (to_string i) ≡ ok (record { base = i; is_next_expected = false })
unfolding read_from_string
read_from_string-to_string i h =
    rw (same-to_string i (text "$") text-LacksDash.3, from_string-to_string i h)
