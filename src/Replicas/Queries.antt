-- ===== src/Replicas/Queries.antt =====
-- `op_calculate_checksum`, `op_verify_checksum`, and `op_stat` as it is built for iRODS 5.1 and later.
use irods_client_http_api.Prelude.{
  ℕ, Bool, false, List, [], ◌∷◌, ◌++◌, Option, none, some, Bytes, text, if◌then◌else◌, not,
}
use irods_client_http_api.Map.{Map, find}
use irods_client_http_api.Http.{
  ℤ, pos, is_negative, Request, Response, bad_request, fail_in, Json, int, str, object, array,
  null_value, Items, last, item, Fields, field, json, irods_response, end,
}
use irods_client_http_api.Http.Exec.{
  Exec, value, pure, send, require, reject_if, ◌>>=◌, ◌>>◌, catch_irods, catch_all, Identity,
}
use irods_client_http_api.Names.{to_permission_string}
use irods_client_http_api.DataObjects.Io.{Io, has_value}
use irods_client_http_api.DataObjects.Write.{get_connection}
use irods_client_http_api.DataObjects.Read.{ticket_or_send}
use irods_client_http_api.Replicas.Input.{
  DataObjInp, EntityPermission, ObjectCalls, resc_name, repl_num, admin, force_chksum, chksum_all,
  verify_chksum, no_compute, strncpy_null_terminated, zeros, given, flag, code_response,
  handle_request, int_eq,
}

-- The list of messages; no message leaves the value null.
abbrev pub error_items : List (ℤ × Bytes) → Items
error_items [] = last
error_items ((status, message) ∷ errors) =
    item (object (field (text "message") (str message) (field (text "status") (int status) end)))
      (error_items errors)

abbrev pub error_info : List (ℤ × Bytes) → Json
error_info [] = null_value
error_info (e ∷ errors) = array (error_items (e ∷ errors))

abbrev pub permission_items : List EntityPermission → Items
unfolding to_permission_string
permission_items [] = last
permission_items (ep ∷ eps) =
    item
      (object (
        field (text "name") (str ep.name) (
          field (text "perm") (str (to_permission_string ep.prms))
            (field (text "type") (str ep.type) (field (text "zone") (str ep.zone) end)))))
      (permission_items eps)

abbrev pub permission_list : List EntityPermission → Json
permission_list [] = null_value
permission_list (ep ∷ eps) = array (permission_items (ep ∷ eps))

-- The inputs; the number is `MAX_NAME_LEN`.
module _ (max_name_len : ℕ) where
  unfoldable pub calculate_input : Map Bytes → Bytes → DataObjInp
  unfolding strncpy_null_terminated zeros given flag
  calculate_input args path = record {
    obj_path = strncpy_null_terminated (zeros max_name_len) path;
    unregister = false;
    size = pos 0;
    cond_input =
        given resc_name (find (text "resource") args)
        ++ given repl_num (find (text "replica-number") args)
        ++ flag force_chksum (find (text "force") args)
        ++ flag chksum_all (find (text "all") args)
        ++ flag admin (find (text "admin") args);
  }

  unfoldable pub verify_input : Map Bytes → Bytes → DataObjInp
  unfolding strncpy_null_terminated zeros given flag
  verify_input args path = record {
    obj_path = strncpy_null_terminated (zeros max_name_len) path;
    unregister = false;
    size = pos 0;
    cond_input =
        ((verify_chksum, []) ∷ [])
        ++ given resc_name (find (text "resource") args)
        ++ given repl_num (find (text "replica-number") args)
        ++ (if has_value (find (text "compute-checksums") args) (text "0")
            then (no_compute, []) ∷ []
            else [])
        ++ flag admin (find (text "admin") args);
  }

module _ {Z Conn Out : Type 0} (io : Io Z Conn Out) (calls : ObjectCalls Z Conn)
    (compat : Bool) where
  unfoldable pub calculate_task : Map Bytes → Response → Bytes → Exec Z Response
  unfolding get_connection calculate_input
  calculate_task args res username = do
    path ← require (find (text "lpath") args) (fail_in res bad_request)
    conn ← get_connection io compat username
    (ec, checksum) ← calls.data_obj_chksum conn (calculate_input calls.max_name_len args path)
    reject_if (is_negative ec) (code_response res ec)
    pure (record res {
      body = json (irods_response ec (field (text "checksum") (str checksum) end));
    })

  unfoldable pub op_calculate_checksum : Identity → Request → Map Bytes → Z → Response × Z
  unfolding calculate_task handle_request
  op_calculate_checksum identity req args =
      handle_request catch_irods (calculate_task args) identity req

  -- The results of a verification that found something; any other error ends the request.
  unfoldable pub verify_results : Response → ℤ → Bytes → Exec Z (Option Json)
  verify_results res ec results =
      if is_negative ec
      then if int_eq ec calls.check_verification_results
        then (do found ← calls.parse_json results; pure (some found))
        else send (code_response res ec)
      else pure none

  abbrev verify_fields : Option Json → Option (List (ℤ × Bytes)) → Fields
  verify_fields none none = end
  verify_fields (some results) none = field (text "results") results end
  verify_fields none (some errors) = field (text "r_error_info") (error_info errors) end
  verify_fields (some results) (some errors) =
      field (text "r_error_info") (error_info errors) (field (text "results") results end)

  unfoldable pub verify_task : Map Bytes → Response → Bytes → Exec Z Response
  unfolding get_connection verify_input verify_results
  verify_task args res username = do
    path ← require (find (text "lpath") args) (fail_in res bad_request)
    conn ← get_connection io compat username
    (ec, text_of_results) ← calls.data_obj_chksum conn (verify_input calls.max_name_len args path)
    results ← verify_results res ec text_of_results
    λ z. (
      value (record res {
        body = json (irods_response ec (verify_fields results (calls.r_error conn z)));
      }),
      z,
    )

  unfoldable pub op_verify_checksum : Identity → Request → Map Bytes → Z → Response × Z
  unfolding verify_task handle_request
  op_verify_checksum identity req args = handle_request catch_irods (verify_task args) identity req

  abbrev stat_response : Response → List EntityPermission → ℕ → Bytes → ℤ → Response
  stat_response res permissions size checksum modified_at = record res {
    body = json (
        object (
          field (text "checksum") (str checksum) (
            field (text "irods_response") (object (field (text "status_code") (int (pos 0)) end)) (
              field (text "modified_at") (int modified_at) (
                field (text "permissions") (permission_list permissions) (
                  field (text "size") (int (pos size))
                    (field (text "type") (str (text "data_object")) end)))))));
  }

  unfoldable pub stat_task : Map Bytes → Response → Bytes → Exec Z Response
  unfolding get_connection ticket_or_send
  stat_task args res username = do
    path ← require (find (text "lpath") args) (fail_in res bad_request)
    conn ← get_connection io compat username
    ticket_or_send io res conn (find (text "ticket") args)
    status ← calls.status conn path
    reject_if (not status.is_data_object) (code_response res calls.not_a_data_object)
    size ← calls.data_object_size conn path
    checksum ← calls.data_object_checksum conn path
    modified_at ← calls.last_write_time conn path
    pure (stat_response res status.permissions size checksum modified_at)

  unfoldable pub op_stat : Identity → Request → Map Bytes → Z → Response × Z
  unfolding stat_task handle_request
  op_stat identity req args = handle_request catch_all (stat_task args) identity req
