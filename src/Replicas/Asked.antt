-- ===== src/Replicas/Asked.antt =====
-- What is asked of the catalog in a modification of a replica, in the words of API.md.
use irods_client_http_api.Prelude.{
  ℕ, ◌≤◌, ◌<◌, ◌≡◌, refl, ◌⊎◌, inl, inr, Bool, true, false, Option, none, some, Bytes, text, arith,
  Bool-cases,
}
use irods_client_http_api.Text.{bytes_eq}
use irods_client_http_api.Map.{Map, find}
use irods_client_http_api.Replicas.Input.{
  Keyword, Conditions, Layout, own_layout, irods5_layout, irods4_layout, dest_resc_name, resc_name,
  repl_num, admin, copies, file_path, reg_repl, data_size, reg_chksum, force_flag, force_chksum,
  chksum_all, verify_chksum, no_compute, chksum, data_comments, data_create, data_expiry, data_mode,
  data_modify, repl_status, resc_id, status_string, data_type, version, data_access_time,
}
use irods_client_http_api.Replicas.Modify.{properties, collect, at_least_irods5, choose_layout}
use irods_client_http_api.Replicas.Columns.{
  column_value, is_some, map_c_str, Reflects, fresh, asks_atime, collect-fresh, collect-Reflects,
  properties_distinct,
}

-- The argument that gives a column its new value.
abbrev pub argument_name : Keyword → Option Bytes
argument_name chksum = some (text "new-data-checksum")
argument_name data_comments = some (text "new-data-comments")
argument_name data_create = some (text "new-data-create-time")
argument_name data_expiry = some (text "new-data-expiry-time")
argument_name data_mode = some (text "new-data-mode")
argument_name data_modify = some (text "new-data-modify-time")
argument_name file_path = some (text "new-data-path")
argument_name repl_num = some (text "new-data-replica-number")
argument_name repl_status = some (text "new-data-replica-status")
argument_name resc_id = some (text "new-data-resource-id")
argument_name data_size = some (text "new-data-size")
argument_name status_string = some (text "new-data-status")
argument_name data_type = some (text "new-data-type-name")
argument_name version = some (text "new-data-version")
argument_name data_access_time = some (text "new-data-access-time")
argument_name _ = none

abbrev wanted : Map Bytes → Option Bytes → Option Bytes
wanted args none = none
wanted args (some name) = map_c_str (find name args)

-- Every column has the value of its argument, as C reads it, and no value where this is not given.
abbrev pub Asked : Map Bytes → Conditions → Type 0
Asked args kvp = (k : Keyword) → column_value k kvp ≡ wanted args (argument_name k)

abbrev pub asks_access_time : Map Bytes → Bool
asks_access_time args = is_some (find (text "new-data-access-time") args)

-- The release of the server, where it is known, is 4.90 or later.
abbrev pub IsIrods5 : Option (ℕ × ℕ × ℕ) → Type 0
IsIrods5 none = ⊥
IsIrods5 (some (major, minor, patch)) = (4 < major) ⊎ ((major ≡ 4) × (90 ≤ minor))

-- The layout of the input is that of the release of the server; it is written out where this server
-- was built against another one.
abbrev pub IsLayout : Bool → Option (ℕ × ℕ × ℕ) → Layout → Type 0
IsLayout irods5 release own_layout =
    ((irods5 ≡ true) × IsIrods5 release) ⊎ ((irods5 ≡ false) × ¬ (IsIrods5 release))
IsLayout irods5 release irods5_layout = (irods5 ≡ false) × IsIrods5 release
IsLayout irods5 release irods4_layout = (irods5 ≡ true) × ¬ (IsIrods5 release)

pub at_least_irods5-IsIrods5 :
    (release : Option (ℕ × ℕ × ℕ)) → at_least_irods5 release ≡ true → IsIrods5 release
unfolding at_least_irods5
at_least_irods5-IsIrods5 none e = absurd (ground (arith, e))
at_least_irods5-IsIrods5 (some (major, minor, patch)) e = ground (arith, e)

pub at_least_irods5-not_IsIrods5 :
    (release : Option (ℕ × ℕ × ℕ)) → at_least_irods5 release ≡ false → ¬ (IsIrods5 release)
unfolding at_least_irods5
at_least_irods5-not_IsIrods5 none e h = h
at_least_irods5-not_IsIrods5 (some (major, minor, patch)) e (inl h) = ground (arith, e, h)
at_least_irods5-not_IsIrods5 (some (major, minor, patch)) e (inr h) = ground (arith, e, h.0, h.1)

pub choose_layout-IsLayout :
    (irods5 : Bool) (release : Option (ℕ × ℕ × ℕ))
    → IsLayout irods5 release (choose_layout irods5 (at_least_irods5 release)).0
choose_layout-IsLayout irods5 release = elim (Bool-cases (at_least_irods5 release)) [
  | inl e ↦ rw e (new irods5 (at_least_irods5-IsIrods5 release e))
  | inr e ↦ rw e (old irods5 (at_least_irods5-not_IsIrods5 release e))
]
  where
    new : (b : Bool) → IsIrods5 release → IsLayout b release (choose_layout b true).0
    new true h = inl (refl, h)
    new false h = (refl, h)

    old : (b : Bool) → ¬ (IsIrods5 release) → IsLayout b release (choose_layout b false).0
    old true h = (refl, h)
    old false h = inr (refl, h)

pub asks_atime-asks_access_time :
    (args : Map Bytes) → asks_atime args properties ≡ asks_access_time args
unfolding properties bytes_eq
asks_atime-asks_access_time args = ground arith

-- The column of each property, and none of the others.
columns :
    (args : Map Bytes) (kvp : Conditions)
    → Reflects args properties kvp
    → ((k : Keyword) → fresh k properties ≡ true → column_value k kvp ≡ none)
    → Asked args kvp
unfolding properties
columns args kvp all unset dest_resc_name = unset dest_resc_name refl
columns args kvp all unset resc_name = unset resc_name refl
columns args kvp all unset repl_num = all.1.1.1.1.1.1.1.0
columns args kvp all unset admin = unset admin refl
columns args kvp all unset copies = unset copies refl
columns args kvp all unset file_path = all.1.1.1.1.1.1.0
columns args kvp all unset reg_repl = unset reg_repl refl
columns args kvp all unset data_size = all.1.1.1.1.1.1.1.1.1.1.0
columns args kvp all unset reg_chksum = unset reg_chksum refl
columns args kvp all unset force_flag = unset force_flag refl
columns args kvp all unset force_chksum = unset force_chksum refl
columns args kvp all unset chksum_all = unset chksum_all refl
columns args kvp all unset verify_chksum = unset verify_chksum refl
columns args kvp all unset no_compute = unset no_compute refl
columns args kvp all unset chksum = all.0
columns args kvp all unset data_comments = all.1.0
columns args kvp all unset data_create = all.1.1.0
columns args kvp all unset data_expiry = all.1.1.1.0
columns args kvp all unset data_mode = all.1.1.1.1.0
columns args kvp all unset data_modify = all.1.1.1.1.1.0
columns args kvp all unset repl_status = all.1.1.1.1.1.1.1.1.0
columns args kvp all unset resc_id = all.1.1.1.1.1.1.1.1.1.0
columns args kvp all unset status_string = all.1.1.1.1.1.1.1.1.1.1.1.0
columns args kvp all unset data_type = all.1.1.1.1.1.1.1.1.1.1.1.1.0
columns args kvp all unset version = all.1.1.1.1.1.1.1.1.1.1.1.1.1.0
columns args kvp all unset data_access_time = all.1.1.1.1.1.1.1.1.1.1.1.1.1.1.0

-- The loop collects what is asked for.
pub collect-Asked :
    (refuse_atime : Bool) (args : Map Bytes) (kvp : Conditions)
    → collect refuse_atime args properties ≡ some kvp
    → Asked args kvp
collect-Asked refuse_atime args kvp c =
    columns args kvp (collect-Reflects refuse_atime args properties kvp properties_distinct c)
      (λ k e. collect-fresh refuse_atime args properties k kvp e c)
