-- ===== src/Replicas/Modify.antt =====
-- `op_modify_replica`.
use irods_client_http_api.Prelude.{
  ℕ, Bool, true, false, [], ◌∷◌, ◌++◌, Option, none, some, Bytes, text, if◌then◌else◌, ltb, ◌==◌,
  ◌||◌, ◌&&◌, not,
}
use irods_client_http_api.Text.{bytes_eq}
use irods_client_http_api.Map.{Map, find}
use irods_client_http_api.Number.{stoi}
use irods_client_http_api.Http.{pos, Request, Response, bad_request, fail_in}
use irods_client_http_api.Http.Exec.{Exec, pure, send, require, ◌>>=◌, catch_irods, Identity}
use irods_client_http_api.DataObjects.Io.{Io}
use irods_client_http_api.DataObjects.Init.{or_throw}
use irods_client_http_api.DataObjects.Write.{get_connection}
use irods_client_http_api.Replicas.Input.{
  Keyword, Conditions, admin, chksum, data_comments, data_create, data_expiry, data_mode,
  data_modify, file_path, repl_num, repl_status, resc_id, data_size, status_string, data_type,
  version, data_access_time, DataObjInfo, Layout, own_layout, irods5_layout, irods4_layout,
  ObjectCalls, c_str, strncpy_null_terminated, zeros, code_response, handle_request,
}

abbrev pub atime_prop : Bytes
atime_prop = text "new-data-access-time"

-- The names of the arguments, and the columns of the catalog.
unfoldable pub properties : Map Keyword
properties =
    (text "new-data-checksum", chksum)
    ∷ (text "new-data-comments", data_comments)
    ∷ (text "new-data-create-time", data_create)
    ∷ (text "new-data-expiry-time", data_expiry)
    ∷ (text "new-data-mode", data_mode)
    ∷ (text "new-data-modify-time", data_modify)
    ∷ (text "new-data-path", file_path)
    ∷ (text "new-data-replica-number", repl_num)
    ∷ (text "new-data-replica-status", repl_status)
    ∷ (text "new-data-resource-id", resc_id)
    ∷ (text "new-data-size", data_size)
    ∷ (text "new-data-status", status_string)
    ∷ (text "new-data-type-name", data_type)
    ∷ (text "new-data-version", version)
    ∷ (atime_prop, data_access_time)
    ∷ []

-- `version && *version >= irods::version{4, 90, 0}`
unfoldable pub at_least_irods5 : Option (ℕ × ℕ × ℕ) → Bool
at_least_irods5 none = false
at_least_irods5 (some (major, minor, patch)) = ltb 4 major || (major == 4 && not (ltb minor 90))

-- The loop over the properties; `none` is a refusal, of the access time where it is not supported.
unfoldable pub collect : Bool → Map Bytes → Map Keyword → Option Conditions
unfolding c_str
collect refuse_atime args [] = some []
collect refuse_atime args ((external_pname, internal_pname) ∷ ps) =
    let rest = collect refuse_atime args ps in
    elim (find external_pname args) [
      | none ↦ rest
      | some v ↦
          if refuse_atime && bytes_eq external_pname atime_prop
          then none
          else elim rest [ none ↦ none | some kvp ↦ some ((internal_pname, c_str v) ∷ kvp) ]
    ]

-- A change of nothing is refused.
abbrev pub nonempty : Option Conditions → Option Conditions
nonempty none = none
nonempty (some []) = none
nonempty (some (e ∷ kvp)) = some (e ∷ kvp)

-- Which block: the version that the server was built against, and that of the iRODS server.
abbrev pub choose_layout : Bool → Bool → Layout × Bool
choose_layout true true = (own_layout, false)
choose_layout false false = (own_layout, true)
choose_layout false true = (irods5_layout, false)
choose_layout true false = (irods4_layout, true)

module _ {Z Conn Out : Type 0} (io : Io Z Conn Out) (calls : ObjectCalls Z Conn)
    (compat : Bool) where
  -- "resource-hierarchy", or else "replica-number", which nothing protects from `stoi`.
  unfoldable pub replica_info : Response → Bytes → Option Bytes → Option Bytes → Exec Z DataObjInfo
  unfolding strncpy_null_terminated zeros
  replica_info res path (some hierarchy) number = pure (record {
    obj_path = strncpy_null_terminated (zeros calls.max_name_len) path;
    resc_hier = strncpy_null_terminated (zeros calls.max_name_len) hierarchy;
    repl_num = pos 0;
  })
  replica_info res path none (some number) = do
    n ← or_throw (stoi number)
    pure (record {
      obj_path = strncpy_null_terminated (zeros calls.max_name_len) path;
      resc_hier = zeros calls.max_name_len;
      repl_num = n;
    })
  replica_info res path none none = send (fail_in res bad_request)

  -- Each of the three blocks, with its layout and its test of the access time.
  unfoldable pub change_replica : Layout → Bool → Map Bytes → Response → Conn → Exec Z Response
  unfolding replica_info collect properties
  change_replica layout refuse_atime args res conn = do
    path ← require (find (text "lpath") args) (fail_in res bad_request)
    info ←
        replica_info res path (find (text "resource-hierarchy") args)
          (find (text "replica-number") args)
    kvp ← require (nonempty (collect refuse_atime args properties)) (fail_in res bad_request)
    ec ← calls.mod_data_obj_meta layout conn info (kvp ++ ((admin, []) ∷ []))
    pure (code_response res ec)

  unfoldable pub modify_task : Bool → Map Bytes → Response → Bytes → Exec Z Response
  unfolding get_connection change_replica at_least_irods5
  modify_task built_against_irods5 args res username = do
    conn ← get_connection io compat username
    λ z.
        let (layout, refuse_atime) =
          choose_layout built_against_irods5 (at_least_irods5 (calls.server_version conn z)) in
        change_replica layout refuse_atime args res conn z

  unfoldable pub op_modify_replica : Bool → Identity → Request → Map Bytes → Z → Response × Z
  unfolding modify_task handle_request
  op_modify_replica built_against_irods5 identity req args =
      handle_request catch_irods (modify_task built_against_irods5 args) identity req
