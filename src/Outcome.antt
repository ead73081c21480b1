-- ===== src/Outcome.antt =====
-- The outcome of code that may throw. `err` carries the text of the exception, `undefined` stands
-- for undefined behaviour: a read out of range or through a pointer of the wrong class.
use build_your_own_redis.Prelude.{◌≡◌, refl}
use build_your_own_redis.Text.{Bytes}

pub data Outcome {ℓ} (A : Type ℓ) : Type ℓ where
  ok : A → Outcome A
  err : Bytes → Outcome A
  undefined : Outcome A

infixl 5 ◌>>=◌
abbrev pub ◌>>=◌ {ℓ κ} : {A : Type ℓ} {B : Type κ} → Outcome A → (A → Outcome B) → Outcome B
undefined >>= next = undefined
err reason >>= next = err reason
ok a >>= next = next a

module _ {ℓ κ} {A : Type ℓ} {B : Type κ} where
  -- What an outcome that goes through says of its two steps.
  pub >>=-eq-ok :
      (first : Outcome A) (next : A → Outcome B) {b : B}
      → (first >>= next) ≡ ok b
      → (a : A) × (first ≡ ok a) × (next a ≡ ok b)
  >>=-eq-ok undefined next e = cc
  >>=-eq-ok (err reason) next e = cc
  >>=-eq-ok (ok a) next e = (a, refl, e)
