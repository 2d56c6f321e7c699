-- ===== src/Map/Laws.antt =====
-- Laws of the map's operations.
use irods_client_http_api.Prelude.{
  Bool, [], ◌∷◌, none, some, if◌then◌else◌, Bytes, ◌≡◌, refl, arith,
}
use irods_client_http_api.Text.{bytes_eq, bytes_eq_iff, bytes_eq_self}
use irods_client_http_api.Map.Defs.{Map, find, insert_or_assign, erase_if, erase, IsMap}

module _ {ℓ} {V : Type ℓ} where
  pub find-insert_or_assign :
      (k j : Bytes) (v : V) (m : Map V)
      → find j (insert_or_assign k v m) ≡ (if bytes_eq k j then some v else find j m)
  unfolding find insert_or_assign
  find-insert_or_assign k j v [] = refl
  find-insert_or_assign k j v ((i, w) ∷ m) =
      ground
        (arith, bytes_eq_iff i k, bytes_eq_iff i j, bytes_eq_iff k j, find-insert_or_assign k j v m)

  pub find-insert_or_assign_self :
      (k : Bytes) (v : V) (m : Map V) → find k (insert_or_assign k v m) ≡ some v
  find-insert_or_assign_self k v m = ground (arith, find-insert_or_assign k k v m, bytes_eq_self k)

  pub find-erase_if-none :
      (p : Bytes → V → Bool) (k : Bytes) (m : Map V)
      → find k m ≡ none
      → find k (erase_if p m) ≡ none
  unfolding find erase_if
  find-erase_if-none p k [] h = refl
  find-erase_if-none p k ((j, v) ∷ m) h = ground (arith, find-erase_if-none p k m)

  pub insert_or_assign-IsMap :
      (k : Bytes) (v : V) (m : Map V) → IsMap m → IsMap (insert_or_assign k v m)
  unfolding insert_or_assign find
  insert_or_assign-IsMap k v [] h = (refl, tt)
  insert_or_assign-IsMap k v ((j, w) ∷ m) h = ground (
    arith,
    insert_or_assign-IsMap k v m h.1,
    find-insert_or_assign k j v m,
    bytes_eq_iff k j,
    bytes_eq_iff j k,
  )

  pub erase_if-IsMap : (p : Bytes → V → Bool) (m : Map V) → IsMap m → IsMap (erase_if p m)
  unfolding erase_if
  erase_if-IsMap p [] h = tt
  erase_if-IsMap p ((j, v) ∷ m) h =
      ground (arith, erase_if-IsMap p m h.1, find-erase_if-none p j m h.0)

  -- An entry stays if and only if the predicate is false of it.
  pub find-erase_if :
      (p : Bytes → V → Bool) (k : Bytes) (m : Map V) (v : V)
      → IsMap m
      → find k m ≡ some v
      → find k (erase_if p m) ≡ (if p k v then none else some v)
  unfolding find erase_if
  find-erase_if p k [] v h e = cc
  find-erase_if p k ((j, w) ∷ m) v h e =
      ground (arith, bytes_eq_iff j k, find-erase_if p k m v h.1, find-erase_if-none p k m)

  pub find-erase :
      (k j : Bytes) (m : Map V) → find j (erase k m) ≡ (if bytes_eq k j then none else find j m)
  unfolding find erase
  find-erase k j [] = ground arith
  find-erase k j ((i, w) ∷ m) =
      ground (arith, bytes_eq_iff i k, bytes_eq_iff i j, bytes_eq_iff k j, find-erase k j m)
