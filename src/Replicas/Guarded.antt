-- ===== src/Replicas/Guarded.antt =====
-- Each operation that may ask for the rights of an administrator.
use irods_client_http_api.Prelude.{
  ◌≡◌, refl, Bool, false, Option, Bytes, text, if◌then◌else◌, Option-cases, inl, inr, ◌||◌,
}
use irods_client_http_api.Map.{Map, find}
use irods_client_http_api.Http.{ℤ, Request, Response}
use irods_client_http_api.Http.Exec.{Exec, client}
use irods_client_http_api.DataObjects.Io.{Io, has_value}
use irods_client_http_api.Replicas.Input.{DataObjInp, ObjectCalls, handle_request}
use irods_client_http_api.Replicas.Copies.{
  op_replicate, replicate_task, op_trim, trim_task, op_register, op_remove, remove_task, op_copy,
}
use irods_client_http_api.Replicas.Changes.{
  op_set_permission, set_permission_task, op_truncate, truncate_task,
}
use irods_client_http_api.Replicas.Queries.{
  op_calculate_checksum, calculate_task, op_verify_checksum, verify_task,
}
use irods_client_http_api.Number.{stoll}
use irods_client_http_api.Replicas.Copies.{copy_task, register_task}
use irods_client_http_api.Replicas.Queries.{verify_results}
use irods_client_http_api.Replicas.Plain.{
  has_admin, replicate_input_plain, trim_input_plain, remove_input_plain, calculate_input_plain,
  verify_input_plain, truncate_input_plain, register_input_plain, copy_input_plain,
}

-- A client library that deals with a request for these rights in a way of its own.
pub record Privileged (Z Conn : Type 0) : Type 0 where
  pub code : Conn → DataObjInp → Exec Z ℤ
  pub copying : Conn → DataObjInp → DataObjInp → Exec Z ℤ
  pub checksum : Conn → DataObjInp → Exec Z (ℤ × Bytes)
  pub truncation : Conn → DataObjInp → Exec Z (ℤ × Option Bytes)
  pub permission : Conn → Bytes → Exec Z (Unit {0})

abbrev pub guarded :
    {A Z Conn : Type 0}
    → (Conn → DataObjInp → Exec Z A)
    → (Conn → DataObjInp → Exec Z A)
    → Conn
    → DataObjInp
    → Exec Z A
guarded other call conn input =
    if has_admin input.cond_input then other conn input else call conn input

abbrev pub with_privileged :
    {Z Conn : Type 0} → Privileged Z Conn → ObjectCalls Z Conn → ObjectCalls Z Conn
with_privileged other calls = record calls {
  data_obj_repl = guarded other.code calls.data_obj_repl;
  data_obj_trim = guarded other.code calls.data_obj_trim;
  phy_path_reg = guarded other.code calls.phy_path_reg;
  data_obj_unlink = guarded other.code calls.data_obj_unlink;
  data_obj_copy = λ conn from to.
      if has_admin from.cond_input || has_admin to.cond_input
      then other.copying conn from to
      else calls.data_obj_copy conn from to;
  data_obj_chksum = guarded other.checksum calls.data_obj_chksum;
  replica_truncate = guarded other.truncation calls.replica_truncate;
  permissions = λ flag conn path name perm.
      if flag then other.permission conn path else calls.permissions flag conn path name perm;
}

module _ {Z Conn Out : Type 0} (io : Io Z Conn Out) (calls : ObjectCalls Z Conn) (compat : Bool)
    (other : Privileged Z Conn) where
  pub op_replicate_plain :
      (username : Bytes) (req : Request) (args : Map Bytes) (z : Z)
      → has_value (find (text "admin") args) (text "1") ≡ false
      → op_replicate io (with_privileged other calls) compat (client username) req args z
        ≡ op_replicate io calls compat (client username) req args z
  unfolding op_replicate replicate_task handle_request
  op_replicate_plain username req args z no_admin = elim (Option-cases (find (text "lpath") args)) [
    | inl e ↦ rw e refl
    | inr (path, e) ↦ elim (Option-cases (find (text "dst-resource") args)) [
      | inl d ↦ rw (e, d) refl
      | inr (dst, d) ↦
          rw (e, d, replicate_input_plain calls.max_name_len args path dst no_admin) refl
    ]
  ]

  pub op_trim_plain :
      (username : Bytes) (req : Request) (args : Map Bytes) (z : Z)
      → has_value (find (text "admin") args) (text "1") ≡ false
      → op_trim io (with_privileged other calls) compat (client username) req args z
        ≡ op_trim io calls compat (client username) req args z
  unfolding op_trim trim_task handle_request
  op_trim_plain username req args z no_admin = elim (Option-cases (find (text "lpath") args)) [
    | inl e ↦ rw e refl
    | inr (path, e) ↦ elim (Option-cases (find (text "replica-number") args)) [
      | inl d ↦ rw (e, d) refl
      | inr (number, d) ↦
          rw (e, d, trim_input_plain calls.max_name_len args path number no_admin) refl
    ]
  ]

  pub op_remove_plain :
      (username : Bytes) (req : Request) (args : Map Bytes) (z : Z)
      → has_value (find (text "admin") args) (text "1") ≡ false
      → op_remove io (with_privileged other calls) compat (client username) req args z
        ≡ op_remove io calls compat (client username) req args z
  unfolding op_remove remove_task handle_request
  op_remove_plain username req args z no_admin = elim (Option-cases (find (text "lpath") args)) [
    | inl e ↦ rw e refl
    | inr (path, e) ↦ elim (Option-cases (find (text "catalog-only") args)) [
      | inl d ↦ rw (e, d) refl
      | inr (catalog_only, d) ↦
          rw (e, d, remove_input_plain calls.max_name_len args path catalog_only no_admin) refl
    ]
  ]

  pub op_calculate_checksum_plain :
      (username : Bytes) (req : Request) (args : Map Bytes) (z : Z)
      → has_value (find (text "admin") args) (text "1") ≡ false
      → op_calculate_checksum io (with_privileged other calls) compat (client username) req args z
        ≡ op_calculate_checksum io calls compat (client username) req args z
  unfolding op_calculate_checksum calculate_task handle_request
  op_calculate_checksum_plain username req args z no_admin =
      elim (Option-cases (find (text "lpath") args)) [
        | inl e ↦ rw e refl
        | inr (path, e) ↦ rw (e, calculate_input_plain calls.max_name_len args path no_admin) refl
      ]

  pub op_verify_checksum_plain :
      (username : Bytes) (req : Request) (args : Map Bytes) (z : Z)
      → has_value (find (text "admin") args) (text "1") ≡ false
      → op_verify_checksum io (with_privileged other calls) compat (client username) req args z
        ≡ op_verify_checksum io calls compat (client username) req args z
  unfolding op_verify_checksum verify_task verify_results handle_request
  op_verify_checksum_plain username req args z no_admin =
      elim (Option-cases (find (text "lpath") args)) [
        | inl e ↦ rw e refl
        | inr (path, e) ↦ rw (e, verify_input_plain calls.max_name_len args path no_admin) refl
      ]

  pub op_set_permission_plain :
      (username : Bytes) (req : Request) (args : Map Bytes) (z : Z)
      → has_value (find (text "admin") args) (text "1") ≡ false
      → op_set_permission io (with_privileged other calls) compat (client username) req args z
        ≡ op_set_permission io calls compat (client username) req args z
  unfolding op_set_permission set_permission_task handle_request
  op_set_permission_plain username req args z no_admin =
      elim (Option-cases (find (text "lpath") args)) [
        | inl e ↦ rw e refl
        | inr (path, e) ↦ rw (e, no_admin) refl
      ]

  pub op_truncate_plain :
      (undefined : Exec Z Response) (username : Bytes) (req : Request) (args : Map Bytes) (z : Z)
      → has_value (find (text "admin") args) (text "1") ≡ false
      → op_truncate io (with_privileged other calls) compat undefined (client username) req args z
        ≡ op_truncate io calls compat undefined (client username) req args z
  unfolding op_truncate truncate_task handle_request
  op_truncate_plain undefined username req args z no_admin =
      elim (Option-cases (find (text "lpath") args)) [
        | inl e ↦ rw e refl
        | inr (path, e) ↦ elim (Option-cases (find (text "size") args)) [
          | inl d ↦ rw (e, d) refl
          | inr (number, d) ↦ elim (Option-cases (stoll number)) [
            | inl c ↦ rw (e, d, c) refl
            | inr (size, c) ↦
                rw (e, d, c, truncate_input_plain calls.max_name_len args path size no_admin) refl
          ]
        ]
      ]

  pub op_register_plain :
      (username : Bytes) (req : Request) (args : Map Bytes) (z : Z)
      → op_register io (with_privileged other calls) compat (client username) req args z
        ≡ op_register io calls compat (client username) req args z
  unfolding op_register register_task handle_request
  op_register_plain username req args z = elim (Option-cases (find (text "lpath") args)) [
    | inl e ↦ rw e refl
    | inr (path, e) ↦ elim (Option-cases (find (text "ppath") args)) [
      | inl d ↦ rw (e, d) refl
      | inr (ppath, d) ↦ elim (Option-cases (find (text "resource") args)) [
        | inl c ↦ rw (e, d, c) refl
        | inr (resource, c) ↦
            rw (e, d, c, register_input_plain calls.max_name_len args path ppath resource) refl
      ]
    ]
  ]

  pub op_copy_plain :
      (username : Bytes) (req : Request) (args : Map Bytes) (z : Z)
      → op_copy io (with_privileged other calls) compat (client username) req args z
        ≡ op_copy io calls compat (client username) req args z
  unfolding op_copy copy_task handle_request
  op_copy_plain username req args z = elim (Option-cases (find (text "src-lpath") args)) [
    | inl e ↦ rw e refl
    | inr (from, e) ↦ elim (Option-cases (find (text "dst-lpath") args)) [
      | inl d ↦ rw (e, d) refl
      | inr (to, d) ↦ rw (e, d, copy_input_plain calls.max_name_len args from to) refl
    ]
  ]
