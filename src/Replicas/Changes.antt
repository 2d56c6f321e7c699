-- ===== src/Replicas/Changes.antt =====
-- `op_set_permission`, `op_rename`, `op_touch` and `op_truncate`.
use irods_client_http_api.Prelude.{
  ℕ, ◌-◌, Bool, false, ◌++◌, Option, none, some, Bytes, text, not, ◌&&◌,
}
use irods_client_http_api.Map.{Map, find}
use irods_client_http_api.Number.{stoi, stoll}
use irods_client_http_api.Http.{
  ℤ, pos, Request, Response, bad_request, fail_in, fail_with, Json, int, str, bool, object, Fields,
  field, json, irods_response, end,
}
use irods_client_http_api.Http.Exec.{
  Exec, pure, send, require, reject_if, ◌>>=◌, ◌>>◌, catch_irods, catch_all, Identity,
}
use irods_client_http_api.Names.{to_permission_enum}
use irods_client_http_api.DataObjects.Io.{Io, has_value}
use irods_client_http_api.DataObjects.Write.{get_connection}
use irods_client_http_api.Replicas.Input.{
  DataObjInp, ObjectCalls, resc_name, repl_num, admin, string_copy, zeros, given, flag,
  code_response, handle_request,
}

-- The number of an argument that is given; a text that is not a number is refused.
unfoldable pub stoi_argument : {Z : Type 0} → Response → Option Bytes → Exec Z (Option ℤ)
stoi_argument res none = pure none
stoi_argument res (some number) = elim (stoi number) [
  | none ↦ send (fail_in res bad_request)
  | some n ↦ pure (some n)
]

-- An option of `rc_touch` that is set where the argument is given.
abbrev pub option_field : Bytes → Option Json → Fields → Fields
option_field key none more = more
option_field key (some v) more = field key v more

abbrev map_some : {A B : Type 0} → (A → B) → Option A → Option B
map_some f none = none
map_some f (some a) = some (f a)

-- `json::object_t` is ordered by key.
unfoldable pub touch_input : Bytes → Map Bytes → Option ℤ → Option ℤ → Json
touch_input path args replica seconds = object (
    field (text "logical_path") (str path) (
      field (text "options")
        (object (
          option_field (text "leaf_resource_name") (map_some str (find (text "leaf-resource") args))
            (option_field (text "no_create")
              (map_some (λ v. bool (has_value (some v) (text "1"))) (find (text "no-create") args))
              (option_field (text "reference") (map_some str (find (text "reference") args)) (
                option_field (text "replica_number") (map_some int replica)
                  (option_field (text "seconds_since_epoch") (map_some int seconds) end))))))
        end))

-- The inputs; the number is `MAX_NAME_LEN`.
module _ (max_name_len : ℕ) where
  unfoldable pub truncate_input : Map Bytes → Bytes → ℤ → DataObjInp
  unfolding string_copy zeros given flag
  truncate_input args path size = record {
    obj_path = string_copy (max_name_len - 1) (zeros max_name_len) path;
    unregister = false;
    size = size;
    cond_input =
        given resc_name (find (text "resource") args)
        ++ given repl_num (find (text "replica-number") args)
        ++ flag admin (find (text "admin") args);
  }

module _ {Z Conn Out : Type 0} (io : Io Z Conn Out) (calls : ObjectCalls Z Conn)
    (compat : Bool) where
  abbrev pub not_an_object : Response → Response
  not_an_object res = fail_with res bad_request (json (irods_response calls.not_a_data_object end))

  unfoldable pub set_permission_task : Map Bytes → Response → Bytes → Exec Z Response
  unfolding get_connection to_permission_enum
  set_permission_task args res username = do
    path ← require (find (text "lpath") args) (fail_in res bad_request)
    conn ← get_connection io compat username
    is_object ← calls.is_data_object conn path
    reject_if (not is_object) (not_an_object res)
    entity_name ← require (find (text "entity-name") args) (fail_in res bad_request)
    permission ← require (find (text "permission") args) (fail_in res bad_request)
    perm ← require (to_permission_enum permission) (fail_in res bad_request)
    calls.permissions (has_value (find (text "admin") args) (text "1")) conn path entity_name perm
    pure (code_response res (pos 0))

  unfoldable pub op_set_permission : Identity → Request → Map Bytes → Z → Response × Z
  unfolding set_permission_task handle_request
  op_set_permission identity req args =
      handle_request catch_all (set_permission_task args) identity req

  unfoldable pub rename_task : Map Bytes → Response → Bytes → Exec Z Response
  unfolding get_connection
  rename_task args res username = do
    old_path ← require (find (text "old-lpath") args) (fail_in res bad_request)
    conn ← get_connection io compat username
    is_object ← calls.is_data_object conn old_path
    reject_if (not is_object) (not_an_object res)
    new_path ← require (find (text "new-lpath") args) (fail_in res bad_request)
    calls.rename conn old_path new_path
    pure (code_response res (pos 0))

  unfoldable pub op_rename : Identity → Request → Map Bytes → Z → Response × Z
  unfolding rename_task handle_request
  op_rename identity req args = handle_request catch_all (rename_task args) identity req

  unfoldable pub touch_task : Map Bytes → Response → Bytes → Exec Z Response
  unfolding get_connection stoi_argument touch_input
  touch_task args res username = do
    path ← require (find (text "lpath") args) (fail_in res bad_request)
    replica ← stoi_argument res (find (text "replica-number") args)
    seconds ← stoi_argument res (find (text "seconds-since-epoch") args)
    conn ← get_connection io compat username
    status ← calls.status conn path
    reject_if (status.exists && not status.is_data_object) (not_an_object res)
    ec ← calls.touch conn (touch_input path args replica seconds)
    pure (code_response res ec)

  unfoldable pub op_touch : Identity → Request → Map Bytes → Z → Response × Z
  unfolding touch_task handle_request
  op_touch identity req args = handle_request catch_irods (touch_task args) identity req

  -- The answer of the server is added where there is one.
  abbrev pub truncate_response : Response → ℤ → Option Json → Response
  truncate_response res ec none = code_response res ec
  truncate_response res ec (some info) = record res {
    body = json (
        object (
          field (text "irods_response")
            (object (field (text "additional_info") info (field (text "status_code") (int ec) end)))
            end));
  }

  abbrev parse_output : Option Bytes → Exec Z (Option Json)
  parse_output none = pure none
  parse_output (some output) = do info ← calls.parse_json output; pure (some info)

  -- That "size" is there is not tested: the test behind the search for it looks at "lpath" once more.
  -- To read what lies at the end of the map is undefined, so whatever happens then is the parameter
  -- `undefined`.
  unfoldable pub truncate_task : Exec Z Response → Map Bytes → Response → Bytes → Exec Z Response
  unfolding get_connection truncate_input
  truncate_task undefined args res username = do
    path ← require (find (text "lpath") args) (fail_in res bad_request)
    again ← require (find (text "lpath") args) (fail_in res bad_request)
    elim (find (text "size") args) [
      | none ↦ undefined
      | some number ↦ do
        size ← require (stoll number) (fail_in res bad_request)
        conn ← get_connection io compat username
        (ec, output) ←
            calls.replica_truncate conn (truncate_input calls.max_name_len args path size)
        info ← parse_output output
        pure (truncate_response res ec info)
    ]

  unfoldable pub op_truncate : Exec Z Response → Identity → Request → Map Bytes → Z → Response × Z
  unfolding truncate_task handle_request
  op_truncate undefined identity req args =
      handle_request catch_irods (truncate_task undefined args) identity req
