-- ===== src/Replicas/Copies.antt =====
-- `op_replicate`, `op_trim`, `op_register`, `op_remove` and `op_copy`.
use irods_client_http_api.Prelude.{
  ℕ, Bool, false, [], ◌∷◌, ◌++◌, some, Bytes, text, if◌then◌else◌, not, ◌&&◌,
}
use irods_client_http_api.Map.{Map, find}
use irods_client_http_api.Http.{
  ℤ, pos, is_negative, Request, Response, bad_request, fail, fail_in, json, irods_response,
  irods_error, end,
}
use irods_client_http_api.Http.Exec.{
  Exec, Outcome, thrown, filesystem_error, pure, require, reject_if, ◌>>=◌, ◌>>◌, catch_irods,
  Identity,
}
use irods_client_http_api.DataObjects.Io.{Io, has_value}
use irods_client_http_api.DataObjects.Write.{get_connection}
use irods_client_http_api.Replicas.Input.{
  DataObjInp, ObjectCalls, dest_resc_name, resc_name, repl_num, admin, copies, file_path, reg_repl,
  data_size, reg_chksum, force_flag, strncpy_null_terminated, zeros, given, flag, code_response,
  handle_request, int_eq,
}
use irods_client_http_api.Text.{bytes_eq}

-- `ec < 0 ? ec : 0`
abbrev pub error_or_zero : ℤ → ℤ
error_or_zero ec = if is_negative ec then ec else pos 0

-- The inputs; the number is `MAX_NAME_LEN`.
module _ (max_name_len : ℕ) where
  unfoldable pub replicate_input : Map Bytes → Bytes → Bytes → DataObjInp
  unfolding strncpy_null_terminated zeros given flag
  replicate_input args path dst = record {
    obj_path = strncpy_null_terminated (zeros max_name_len) path;
    unregister = false;
    size = pos 0;
    cond_input =
        given dest_resc_name (some dst)
        ++ given resc_name (find (text "src-resource") args)
        ++ given repl_num (find (text "src-replica-number") args)
        ++ flag admin (find (text "admin") args);
  }

  unfoldable pub trim_input : Map Bytes → Bytes → Bytes → DataObjInp
  unfolding strncpy_null_terminated zeros given flag
  trim_input args path number = record {
    obj_path = strncpy_null_terminated (zeros max_name_len) path;
    unregister = has_value (find (text "catalog-only") args) (text "1");
    size = pos 0;
    cond_input =
        given repl_num (some number)
        ++ flag admin (find (text "admin") args)
        ++ ((copies, text "1") ∷ []);
  }

  unfoldable pub register_input : Map Bytes → Bytes → Bytes → Bytes → DataObjInp
  unfolding strncpy_null_terminated zeros given flag
  register_input args path ppath resource = record {
    obj_path = strncpy_null_terminated (zeros max_name_len) path;
    unregister = false;
    size = pos 0;
    cond_input =
        given file_path (some ppath)
        ++ given dest_resc_name (some resource)
        ++ flag reg_repl (find (text "as-additional-replica") args)
        ++ given data_size (find (text "data-size") args)
        ++ flag reg_chksum (find (text "checksum") args)
        ++ flag force_flag (find (text "force") args);
  }

  unfoldable pub remove_input : Map Bytes → Bytes → Bytes → DataObjInp
  unfolding strncpy_null_terminated zeros flag
  remove_input args path catalog_only = record {
    obj_path = strncpy_null_terminated (zeros max_name_len) path;
    unregister = bytes_eq catalog_only (text "1");
    size = pos 0;
    cond_input =
        (if bytes_eq catalog_only (text "1")
          then []
          else flag force_flag (find (text "no-trash") args))
        ++ flag admin (find (text "admin") args);
  }

  -- The source and the destination.
  unfoldable pub copy_input : Map Bytes → Bytes → Bytes → DataObjInp × DataObjInp
  unfolding strncpy_null_terminated zeros given flag
  copy_input args from to = (
    record {
      obj_path = strncpy_null_terminated (zeros max_name_len) from;
      unregister = false;
      size = pos 0;
      cond_input = given resc_name (find (text "src-resource") args);
    },
    record {
      obj_path = strncpy_null_terminated (zeros max_name_len) to;
      unregister = false;
      size = pos 0;
      cond_input =
          given dest_resc_name (find (text "dst-resource") args)
          ++ flag force_flag (find (text "overwrite") args);
    },
  )

module _ {Z Conn Out : Type 0} (io : Io Z Conn Out) (calls : ObjectCalls Z Conn)
    (compat : Bool) where
  unfoldable pub replicate_task : Map Bytes → Response → Bytes → Exec Z Response
  unfolding get_connection replicate_input
  replicate_task args res username = do
    path ← require (find (text "lpath") args) (fail_in res bad_request)
    dst ← require (find (text "dst-resource") args) (fail bad_request)
    conn ← get_connection io compat username
    ec ← calls.data_obj_repl conn (replicate_input calls.max_name_len args path dst)
    pure (code_response res ec)

  unfoldable pub op_replicate : Identity → Request → Map Bytes → Z → Response × Z
  unfolding replicate_task handle_request
  op_replicate identity req args = handle_request catch_irods (replicate_task args) identity req

  unfoldable pub trim_task : Map Bytes → Response → Bytes → Exec Z Response
  unfolding get_connection trim_input
  trim_task args res username = do
    path ← require (find (text "lpath") args) (fail_in res bad_request)
    number ← require (find (text "replica-number") args) (fail_in res bad_request)
    conn ← get_connection io compat username
    ec ← calls.data_obj_trim conn (trim_input calls.max_name_len args path number)
    pure (code_response res (error_or_zero ec))

  unfoldable pub op_trim : Identity → Request → Map Bytes → Z → Response × Z
  unfolding trim_task handle_request
  op_trim identity req args = handle_request catch_irods (trim_task args) identity req

  unfoldable pub register_task : Map Bytes → Response → Bytes → Exec Z Response
  unfolding get_connection register_input
  register_task args res username = do
    path ← require (find (text "lpath") args) (fail_in res bad_request)
    ppath ← require (find (text "ppath") args) (fail_in res bad_request)
    resource ← require (find (text "resource") args) (fail_in res bad_request)
    conn ← get_connection io compat username
    ec ← calls.phy_path_reg conn (register_input calls.max_name_len args path ppath resource)
    reject_if (is_negative ec) (code_response res ec)
    pure (code_response res (pos 0))

  unfoldable pub op_register : Identity → Request → Map Bytes → Z → Response × Z
  unfolding register_task handle_request
  op_register identity req args = handle_request catch_irods (register_task args) identity req

  -- To forget an entry of the catalog and to empty the trash do not go together.
  unfoldable pub remove_task : Map Bytes → Response → Bytes → Exec Z Response
  unfolding get_connection remove_input
  remove_task args res username = do
    path ← require (find (text "lpath") args) (fail_in res bad_request)
    catalog_only ← require (find (text "catalog-only") args) (fail_in res bad_request)
    reject_if
        (bytes_eq catalog_only (text "1") && has_value (find (text "no-trash") args) (text "1"))
        (fail_in res bad_request)
    conn ← get_connection io compat username
    ec ← calls.data_obj_unlink conn (remove_input calls.max_name_len args path catalog_only)
    pure (code_response res ec)

  unfoldable pub op_remove : Identity → Request → Map Bytes → Z → Response × Z
  unfolding remove_task handle_request
  op_remove identity req args = handle_request catch_irods (remove_task args) identity req

  unfoldable pub copy_task : Map Bytes → Response → Bytes → Exec Z Response
  unfolding get_connection copy_input
  copy_task args res username = do
    from ← require (find (text "src-lpath") args) (fail_in res bad_request)
    to ← require (find (text "dst-lpath") args) (fail_in res bad_request)
    calls.throw_if_path_length_exceeds_limit from
    calls.throw_if_path_length_exceeds_limit to
    conn ← get_connection io compat username
    is_object ← calls.is_data_object conn from
    reject_if (not is_object) (record res {
      result = bad_request;
      body = json (irods_response calls.not_a_data_object end);
    })
    let input = copy_input calls.max_name_len args from to in
        do ec ← calls.data_obj_copy conn input.0 input.1; pure (code_response res ec)

  -- Only here the code of a `filesystem_error` is translated.
  abbrev pub catch_copy : Response → Outcome Response → Response
  catch_copy res (thrown (filesystem_error ec what)) = record res {
    body = json (
        irods_error (if int_eq ec calls.invalid_object_type then calls.not_a_data_object else ec)
          what);
  }
  catch_copy res r = catch_irods res r

  unfoldable pub op_copy : Identity → Request → Map Bytes → Z → Response × Z
  unfolding copy_task handle_request
  op_copy identity req args = handle_request catch_copy (copy_task args) identity req
