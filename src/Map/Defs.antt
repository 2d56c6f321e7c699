-- ===== src/Map/Defs.antt =====
-- The operations of the map.
use irods_client_http_api.Prelude.{
  Bool, List, [], ◌∷◌, Option, none, some, if◌then◌else◌, Bytes, ◌≡◌,
}
use irods_client_http_api.Text.{bytes_eq}

abbrev pub Map {ℓ} : Type ℓ → Type ℓ
Map V = List (Bytes × V)

module _ {ℓ} {V : Type ℓ} where
  -- `m.find(k)`; `none` is `std::end(m)`.
  unfoldable pub find : Bytes → Map V → Option V
  find k [] = none
  find k ((j, v) ∷ m) = if bytes_eq j k then some v else find k m

  -- `m.insert_or_assign(k, v)`
  unfoldable pub insert_or_assign : Bytes → V → Map V → Map V
  insert_or_assign k v [] = (k, v) ∷ []
  insert_or_assign k v ((j, w) ∷ m) =
      let rest = insert_or_assign k v m in if bytes_eq j k then (j, v) ∷ m else (j, w) ∷ rest

  -- `std::erase_if(m, p)`, the map that is left.
  unfoldable pub erase_if : (Bytes → V → Bool) → Map V → Map V
  erase_if p [] = []
  erase_if p ((j, v) ∷ m) = let rest = erase_if p m in if p j v then rest else (j, v) ∷ rest

  -- `m.erase(k)`, the map that is left.
  unfoldable pub erase : Bytes → Map V → Map V
  unfolding erase_if
  erase k m = erase_if (λ j v. bytes_eq j k) m

  -- The keys in the order of iteration.
  unfoldable pub keys : Map V → List Bytes
  keys [] = []
  keys ((j, v) ∷ m) = j ∷ keys m

  -- No key stands twice.
  abbrev pub IsMap : Map V → Type ℓ
  IsMap [] = Unit
  IsMap ((j, v) ∷ m) = (find j m ≡ none) × IsMap m
