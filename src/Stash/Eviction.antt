-- ===== src/Stash/Eviction.antt =====
-- What the eviction leaves, and what an insertion leaves alone.
use irods_client_http_api.Prelude.{
  ℕ, ◌+◌, ◌≡◌, none, some, Bytes, arith, length, inl, inr, Option-cases, if◌then◌else◌, false, leb,
}
use irods_client_http_api.Text.{bytes_eq}
use irods_client_http_api.Map.{
  find, insert_or_assign, find-insert_or_assign, find-erase_if, find-erase_if-none,
  insert_or_assign-IsMap, IsMap,
}
use irods_client_http_api.Stash.{
  StashValue, client_info, time_point, other, Stash, generate_unique_key, insert, is_evicted, evict,
}
use irods_client_http_api.Stash.Keys.{
  IsInjective, generate_unique_key_total, generate_unique_key-fresh, generate_unique_key-draw,
}

-- An entry survives the eviction exactly if it is not a token or a state whose time has come; no
-- entry appears.
pub find-evict :
    (now : ℕ) (key : Bytes) (stash : Stash)
    → IsMap stash
    → find key (evict now stash) ≡ elim (find key stash) [
      | none ↦ none
      | some v ↦
          if elim v [
            | client_info info ↦ leb info.expires_at now
            | time_point t ↦ leb t now
            | other ↦ false
          ]
          then none
          else some v
    ]
unfolding evict is_evicted
find-evict now key stash distinct = elim (Option-cases (find key stash)) [
  | inl e ↦ rw e (find-erase_if-none (is_evicted now) key stash e)
  | inr (client_info info, e) ↦
      rw e (find-erase_if (is_evicted now) key stash (client_info info) distinct e)
  | inr (time_point t, e) ↦
      rw e (find-erase_if (is_evicted now) key stash (time_point t) distinct e)
  | inr (other, e) ↦ rw e (find-erase_if (is_evicted now) key stash other distinct e)
]

-- The insertion under a key that was drawn.
insert-of_key :
    (random : ℕ → Bytes) (drawn : ℕ) (v : StashValue) (stash : Stash) (key : Bytes) (drawn' : ℕ)
    → generate_unique_key random (length stash + 1) drawn stash ≡ some (key, drawn')
    → insert random drawn v stash ≡ some (key, drawn', insert_or_assign key v stash)
unfolding insert
insert-of_key random drawn v stash key drawn' e = rw (e, insert)

-- With identifiers that are not drawn twice an insertion gives one of the identifiers, which was
-- not in use, as the key under which the value is found; every other key keeps its value, and keys
-- stay distinct.
pub insert_lem :
    (random : ℕ → Bytes) (drawn : ℕ) (v : StashValue) (stash : Stash)
    → IsInjective random
    → IsMap stash
    → (key : Bytes) × (drawn' : ℕ) × (stash' : Stash) × (insert random drawn v stash
        ≡ some (key, drawn', stash'))
      × (find key stash ≡ none)
      × ((k : Bytes) → find k stash' ≡ (if bytes_eq key k then some v else find k stash))
      × IsMap stash'
      × (n : ℕ) × (key ≡ random n)
insert_lem random drawn v stash inj distinct =
    let ((key, drawn'), e) =
      generate_unique_key_total random (length stash + 1) drawn stash inj (omega arith) in
    (
      key,
      drawn',
      insert_or_assign key v stash,
      insert-of_key random drawn v stash key drawn' e,
      generate_unique_key-fresh random _ drawn stash key drawn' e,
      (λ k. find-insert_or_assign key k v stash),
      insert_or_assign-IsMap key v stash distinct,
      (generate_unique_key-draw random (length stash + 1) drawn stash key drawn' e).0,
      (generate_unique_key-draw random (length stash + 1) drawn stash key drawn' e).1,
    )
