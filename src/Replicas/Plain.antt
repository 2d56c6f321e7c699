-- ===== src/Replicas/Plain.antt =====
-- The inputs of requests that do not ask for the rights of an administrator.
use irods_client_http_api.Prelude.{ℕ, ◌≡◌, Bool, true, false, [], ◌∷◌, Bytes, text, arith, ◌||◌}
use irods_client_http_api.Map.{Map, find}
use irods_client_http_api.Http.{ℤ}
use irods_client_http_api.DataObjects.Io.{has_value}
use irods_client_http_api.Replicas.Input.{Keyword, admin, Conditions, given, flag}
use irods_client_http_api.Replicas.Copies.{
  replicate_input, trim_input, remove_input, register_input, copy_input,
}
use irods_client_http_api.Replicas.Changes.{truncate_input}
use irods_client_http_api.Replicas.Queries.{calculate_input, verify_input}

abbrev pub is_admin : Keyword → Bool
is_admin admin = true
is_admin _ = false

abbrev pub has_admin : Conditions → Bool
has_admin [] = false
has_admin ((k, v) ∷ conditions) = is_admin k || has_admin conditions

module _ (limit : ℕ) where
  pub replicate_input_plain :
      (args : Map Bytes) (path dst : Bytes)
      → has_value (find (text "admin") args) (text "1") ≡ false
      → has_admin (replicate_input limit args path dst).cond_input ≡ false
  unfolding replicate_input given flag
  replicate_input_plain args path dst no_admin = ground (arith, no_admin)

  pub trim_input_plain :
      (args : Map Bytes) (path number : Bytes)
      → has_value (find (text "admin") args) (text "1") ≡ false
      → has_admin (trim_input limit args path number).cond_input ≡ false
  unfolding trim_input given flag
  trim_input_plain args path number no_admin = ground (arith, no_admin)

  pub remove_input_plain :
      (args : Map Bytes) (path catalog_only : Bytes)
      → has_value (find (text "admin") args) (text "1") ≡ false
      → has_admin (remove_input limit args path catalog_only).cond_input ≡ false
  unfolding remove_input given flag
  remove_input_plain args path catalog_only no_admin = ground (arith, no_admin)

  pub calculate_input_plain :
      (args : Map Bytes) (path : Bytes)
      → has_value (find (text "admin") args) (text "1") ≡ false
      → has_admin (calculate_input limit args path).cond_input ≡ false
  unfolding calculate_input given flag
  calculate_input_plain args path no_admin = ground (arith, no_admin)

  pub verify_input_plain :
      (args : Map Bytes) (path : Bytes)
      → has_value (find (text "admin") args) (text "1") ≡ false
      → has_admin (verify_input limit args path).cond_input ≡ false
  unfolding verify_input given flag
  verify_input_plain args path no_admin = ground (arith, no_admin)

  pub truncate_input_plain :
      (args : Map Bytes) (path : Bytes) (size : ℤ)
      → has_value (find (text "admin") args) (text "1") ≡ false
      → has_admin (truncate_input limit args path size).cond_input ≡ false
  unfolding truncate_input given flag
  truncate_input_plain args path size no_admin = ground (arith, no_admin)

  pub register_input_plain :
      (args : Map Bytes) (path ppath resource : Bytes)
      → has_admin (register_input limit args path ppath resource).cond_input ≡ false
  unfolding register_input given flag
  register_input_plain args path ppath resource = ground arith

  pub copy_input_plain :
      (args : Map Bytes) (from to : Bytes)
      → (has_admin (copy_input limit args from to).0.cond_input
          || has_admin (copy_input limit args from to).1.cond_input)
        ≡ false
  unfolding copy_input given flag
  copy_input_plain args from to = ground arith
