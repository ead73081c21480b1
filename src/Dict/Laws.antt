-- ===== src/Dict/Laws.antt =====
-- Lookup after an update of an association list, and lists whose keys are distinct.
use build_your_own_redis.Prelude.{
  ◌≡◌, refl, false, none, some, [], ◌∷◌, arith, if◌then◌else◌, All, Bool-cases, inl, inr,
}
use build_your_own_redis.Text.{Bytes, same, same_iff}
use build_your_own_redis.Dict.{Dict, find, insert_or_assign, erase}

module _ {ℓ} {V : Type ℓ} where
  pub find-insert_or_assign :
      (k j : Bytes) (v : V) (d : Dict V)
      → find j (insert_or_assign k v d) ≡ (if same k j then some v else find j d)
  unfolding find insert_or_assign
  find-insert_or_assign k j v [] = refl
  find-insert_or_assign k j v ((i, w) ∷ d) =
      ground (arith, same_iff k j, same_iff i k, same_iff i j, find-insert_or_assign k j v d)

  pub find-erase :
      (k j : Bytes) (d : Dict V) → find j (erase k d) ≡ (if same k j then none else find j d)
  unfolding find erase
  find-erase k j [] = ground arith
  find-erase k j ((i, w) ∷ d) =
      ground (arith, same_iff k j, same_iff i k, same_iff i j, find-erase k j d)

  -- No key stands twice.
  abbrev pub Lacks : Bytes → Dict V → Type 0
  Lacks k = All (λ (e : Bytes × V). same e.0 k ≡ false)

  abbrev pub IsDistinct : Dict V → Type 0
  IsDistinct [] = Unit
  IsDistinct ((k, v) ∷ d) = Lacks k d × IsDistinct d

  Lacks-insert_or_assign :
      (k j : Bytes) (v : V) (d : Dict V)
      → same j k ≡ false
      → Lacks k d
      → Lacks k (insert_or_assign j v d)
  unfolding insert_or_assign
  Lacks-insert_or_assign k j v [] ne l = (ne, tt)
  Lacks-insert_or_assign k j v ((i, w) ∷ d) ne l = elim (Bool-cases (same i j)) [
    | inl e ↦ rw e l
    | inr e ↦ rw e (l.0, Lacks-insert_or_assign k j v d ne l.1)
  ]

  pub insert_or_assign-IsDistinct :
      (k : Bytes) (v : V) (d : Dict V) → IsDistinct d → IsDistinct (insert_or_assign k v d)
  unfolding insert_or_assign
  insert_or_assign-IsDistinct k v [] h = (tt, tt)
  insert_or_assign-IsDistinct k v ((i, w) ∷ d) h = elim (Bool-cases (same i k)) [
    | inl e ↦ rw e h
    | inr e ↦ rw e (
      Lacks-insert_or_assign i k v d (same_false_sym i k e) h.0,
      insert_or_assign-IsDistinct k v d h.1,
    )
  ]
    where
      same_false_sym : (s t : Bytes) → same s t ≡ false → same t s ≡ false
      same_false_sym s t p = ground (arith, same_iff s t, same_iff t s)

  Lacks-erase : (k j : Bytes) (d : Dict V) → Lacks k d → Lacks k (erase j d)
  unfolding erase
  Lacks-erase k j [] l = tt
  Lacks-erase k j ((i, w) ∷ d) l = elim (Bool-cases (same i j)) [
    | inl e ↦ rw e (Lacks-erase k j d l.1)
    | inr e ↦ rw e (l.0, Lacks-erase k j d l.1)
  ]

  pub erase-IsDistinct : (k : Bytes) (d : Dict V) → IsDistinct d → IsDistinct (erase k d)
  unfolding erase
  erase-IsDistinct k [] h = tt
  erase-IsDistinct k ((i, w) ∷ d) h = elim (Bool-cases (same i k)) [
    | inl e ↦ rw e (erase-IsDistinct k d h.1)
    | inr e ↦ rw e (Lacks-erase i k d h.0, erase-IsDistinct k d h.1)
  ]
