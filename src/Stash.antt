-- ===== src/Stash.antt =====
-- core/src/process_stash.cpp, the eviction of core/src/main.cpp, and `generate_uuid` of
-- core/include/irods/private/http_api/common.hpp, whose loop is that of `generate_unique_key`.
pub mod Keys
pub mod Eviction
use irods_client_http_api.Prelude.{
  ℕ, zero, suc, ◌+◌, ◌-◌, Bool, true, false, ◌||◌, not, Option, none, some, List, Bytes, leb,
  if◌then◌else◌, length,
}
use irods_client_http_api.Map.{Map, find, insert_or_assign, erase, erase_if, keys}

pub data Scheme : Type 0 where
  basic openid_connect : Scheme

-- `authenticated_client_info`; times are points of the steady clock.
pub record ClientInfo : Type 0 where
  pub auth_scheme : Scheme
  pub username : Bytes
  pub expires_at : ℕ

-- What a `boost::any` of the stash can hold.
pub data StashValue : Type 0 where
  client_info : ClientInfo → StashValue
  time_point : ℕ → StashValue
  other : StashValue

abbrev pub Stash : Type 0
Stash = Map StashValue

abbrev pub is_some : {A : Type 0} → Option A → Bool
is_some none = false
is_some (some a) = true

-- The loop over random identifiers on fuel, with the number of those drawn so far; `none` means
-- that the fuel ran out.
unfoldable pub generate_unique_key : {V : Type 0} → (ℕ → Bytes) → ℕ → ℕ → Map V → Option (Bytes × ℕ)
generate_unique_key random zero drawn m = none
generate_unique_key random (suc fuel) drawn m =
    let again = generate_unique_key random fuel (suc drawn) m in
    if is_some (find (random drawn) m) then again else some (random drawn, suc drawn)

-- One draw more than there are entries finds a key that is not in use.
unfoldable pub insert : (ℕ → Bytes) → ℕ → StashValue → Stash → Option (Bytes × ℕ × Stash)
insert random drawn v stash = elim (generate_unique_key random (length stash + 1) drawn stash) [
  | none ↦ none
  | some (key, drawn') ↦ some (key, drawn', insert_or_assign key v stash)
]

-- `erase` reports whether there was an entry, `erase_if` how many there were.
unfoldable pub erase_key : Bytes → Stash → Bool × Stash
erase_key key stash = (is_some (find key stash), erase key stash)

unfoldable pub erase_entries : (Bytes → StashValue → Bool) → Stash → ℕ × Stash
erase_entries p stash = (length stash - length (erase_if p stash), erase_if p stash)

unfoldable pub handles : Stash → List Bytes
handles stash = keys stash

-- The predicate of the eviction at a time.
unfoldable pub is_evicted : ℕ → Bytes → StashValue → Bool
is_evicted now key (client_info info) = leb info.expires_at now
is_evicted now key (time_point t) = leb t now
is_evicted now key other = false

-- One firing of the timer without an error.
unfoldable pub evict : ℕ → Stash → Stash
unfolding erase_entries
evict now stash = (erase_entries (is_evicted now) stash).1
