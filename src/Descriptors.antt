-- ===== src/Descriptors.antt =====
-- std::unordered_map with the int of a descriptor as its key, as an association list. An int is a
-- pattern of 32 bits, so -1 is the greatest one.
use build_your_own_redis.Prelude.{
  ℕ, ◌≡◌, ◌≢◌, refl, sym, ap, ◌∙◌, ◌⊎◌, inl, inr, ==_iff, Bool-cases, Option, none, some, List, [],
  ◌∷◌, ◌==◌, if◌then◌else◌, arith,
}

abbrev pub minus_one : ℕ
minus_one = 4_294_967_295

abbrev pub Table {ℓ} : Type ℓ → Type ℓ
Table V = List (ℕ × V)

some-injective {ℓ} : {V : Type ℓ} (v w : V) → some v ≡ some w → v ≡ w
some-injective v w e = cc

module _ {ℓ} {V : Type ℓ} where
  unfoldable pub find : ℕ → Table V → Option V
  find k [] = none
  find k ((j, v) ∷ t) = if j == k then some v else find k t

  unfoldable pub assign : ℕ → V → Table V → Table V
  assign k v [] = (k, v) ∷ []
  assign k v ((j, w) ∷ t) = if j == k then (j, v) ∷ t else (j, w) ∷ assign k v t

  unfoldable pub erase : ℕ → Table V → Table V
  erase k [] = []
  erase k ((j, v) ∷ t) = let rest = erase k t in if j == k then rest else (j, v) ∷ rest

  pub find-assign :
      (k j : ℕ) (v : V) (t : Table V)
      → find j (assign k v t) ≡ (if k == j then some v else find j t)
  unfolding find assign
  find-assign k j v [] = refl
  find-assign k j v ((i, w) ∷ t) = ground (arith, find-assign k j v t)

  pub find-erase :
      (k j : ℕ) (t : Table V) → find j (erase k t) ≡ (if k == j then none else find j t)
  unfolding find erase
  find-erase k j [] = ground arith
  find-erase k j ((i, w) ∷ t) = ground (arith, find-erase k j t)

  -- What is found behind an assignment is what was assigned, or an old value of another key.
  pub find-assign_cases :
      (k j : ℕ) (v w : V) (t : Table V)
      → find j (assign k v t) ≡ some w
      → ((k ≡ j) × (v ≡ w)) ⊎ ((k ≢ j) × (find j t ≡ some w))
  find-assign_cases k j v w t e = elim (Bool-cases (k == j)) [
    | inl q ↦
        let found : some v ≡ some w =
          sym (ap (λ b. if b then some v else find j t) q) ∙ sym (find-assign k j v t) ∙ e in
        inl ((==_iff k j).0 q, some-injective v w found)
    | inr q ↦ inr (
      λ p. cc ((==_iff k j).1 p),
      sym (ap (λ b. if b then some v else find j t) q) ∙ sym (find-assign k j v t) ∙ e,
    )
  ]

  pub find-erase_cases :
      (k j : ℕ) (w : V) (t : Table V) → find j (erase k t) ≡ some w → (k ≢ j) × (find j t ≡ some w)
  find-erase_cases k j w t e = elim (Bool-cases (k == j)) [
    | inl q ↦ cc (find-erase k j t, ap (λ b. if b then none else find j t) q)
    | inr q ↦ (
      λ p. cc ((==_iff k j).1 p),
      sym (ap (λ b. if b then none else find j t) q) ∙ sym (find-erase k j t) ∙ e,
    )
  ]

  pub find-assign_self : (k : ℕ) (v : V) (t : Table V) → find k (assign k v t) ≡ some v
  find-assign_self k v t = rw (find-assign k k v t) (ground arith)

  pub find-assign_ne : (k j : ℕ) (v : V) (t : Table V) → k ≢ j → find j (assign k v t) ≡ find j t
  find-assign_ne k j v t ne = rw (find-assign k j v t) (ground arith)

  pub find-erase_ne : (k j : ℕ) (t : Table V) → k ≢ j → find j (erase k t) ≡ find j t
  find-erase_ne k j t ne = rw (find-erase k j t) (ground arith)
