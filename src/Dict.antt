-- ===== src/Dict.antt =====
-- `std::unordered_map` with text keys. The order of iteration, which C++ leaves open, is the order
-- of the entries.
pub mod Laws
use build_your_own_redis.Prelude.{
  Bool, true, false, Option, none, some, List, [], ◌∷◌, map, if◌then◌else◌,
}
use build_your_own_redis.Text.{Bytes, same}

abbrev pub Dict {ℓ} : Type ℓ → Type ℓ
Dict V = List (Bytes × V)

module _ {ℓ} {V : Type ℓ} where
  unfoldable pub find : Bytes → Dict V → Option V
  find k [] = none
  find k ((j, v) ∷ d) = if same j k then some v else find k d

  unfoldable pub insert_or_assign : Bytes → V → Dict V → Dict V
  insert_or_assign k v [] = (k, v) ∷ []
  insert_or_assign k v ((j, w) ∷ d) =
      if same j k then (j, v) ∷ d else (j, w) ∷ insert_or_assign k v d

  unfoldable pub erase : Bytes → Dict V → Dict V
  erase k [] = []
  erase k ((j, v) ∷ d) = let rest = erase k d in if same j k then rest else (j, v) ∷ rest

  unfoldable pub key_list : Dict V → List Bytes
  key_list d = map (λ e. e.0) d
