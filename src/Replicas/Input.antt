-- ===== src/Replicas/Input.antt =====
-- What the operations on replicas send to the client library, and the library as they use it.
use irods_client_http_api.Prelude.{
  ℕ, zero, suc, ◌-◌, length, Bool, false, List, [], ◌∷◌, Option, none, some, Bytes, text, ◌==◌,
  if◌then◌else◌,
}
use irods_client_http_api.Http.{
  ℤ, pos, negsuc, Json, Request, Response, initial_response, json, irods_response, end,
}
use irods_client_http_api.Http.Exec.{Exec, Outcome, Identity, refused, client}
use irods_client_http_api.Names.{Perms}
use irods_client_http_api.DataObjects.Io.{has_value}

-- The keywords of the client library, `DEST_RESC_NAME_KW` and so on.
pub data Keyword : Type 0 where
  dest_resc_name resc_name repl_num admin copies file_path reg_repl data_size reg_chksum : Keyword
  force_flag force_chksum chksum_all verify_chksum no_compute : Keyword
  chksum data_comments data_create data_expiry data_mode data_modify repl_status resc_id : Keyword
  status_string data_type version data_access_time : Keyword

-- `keyValPair_t`, in the order in which `addKeyVal` is called; no operation adds a keyword twice.
abbrev pub Conditions : Type 0
Conditions = List (Keyword × Bytes)

-- `DataObjInp`, as far as the operations fill it in; `obj_path` is the whole array, and `unregister` is
-- `oprType = UNREG_OPR`.
pub record DataObjInp : Type 0 where
  pub obj_path : Bytes
  pub unregister : Bool
  pub size : ℤ
  pub cond_input : Conditions

-- `DataObjInfo` and the two layouts that stand for it with another version of iRODS.
pub record DataObjInfo : Type 0 where
  pub obj_path : Bytes
  pub resc_hier : Bytes
  pub repl_num : ℤ

pub data Layout : Type 0 where
  own_layout irods5_layout irods4_layout : Layout

pub record EntityPermission : Type 0 where
  pub name : Bytes
  pub zone : Bytes
  pub type : Bytes
  pub prms : Perms

-- The status of a path, with what `exists` and `is_data_object` say of it.
pub record ObjectStatus : Type 0 where
  pub exists : Bool
  pub is_data_object : Bool
  pub permissions : List EntityPermission

-- The calls of the client library; each may throw.
pub record ObjectCalls (Z Conn : Type 0) : Type 0 where
  pub data_obj_repl : Conn → DataObjInp → Exec Z ℤ
  pub data_obj_trim : Conn → DataObjInp → Exec Z ℤ
  pub phy_path_reg : Conn → DataObjInp → Exec Z ℤ
  pub data_obj_unlink : Conn → DataObjInp → Exec Z ℤ
  -- The source and the destination.
  pub data_obj_copy : Conn → DataObjInp → DataObjInp → Exec Z ℤ
  -- An error code, and the text behind the output parameter.
  pub data_obj_chksum : Conn → DataObjInp → Exec Z (ℤ × Bytes)
  pub replica_truncate : Conn → DataObjInp → Exec Z (ℤ × Option Bytes)
  pub touch : Conn → Json → Exec Z ℤ
  -- `rcModDataObjMeta`, or `procApiRequest` with another layout.
  pub mod_data_obj_meta : Layout → Conn → DataObjInfo → Conditions → Exec Z ℤ
  pub is_data_object : Conn → Bytes → Exec Z Bool
  pub status : Conn → Bytes → Exec Z ObjectStatus
  -- The flag is `fs::admin`; path, name of the user or group, permission.
  pub permissions : Bool → Conn → Bytes → Bytes → Perms → Exec Z (Unit {0})
  pub rename : Conn → Bytes → Bytes → Exec Z (Unit {0})
  pub throw_if_path_length_exceeds_limit : Bytes → Exec Z (Unit {0})
  pub data_object_size : Conn → Bytes → Exec Z ℕ
  pub data_object_checksum : Conn → Bytes → Exec Z Bytes
  pub last_write_time : Conn → Bytes → Exec Z ℤ
  -- The messages behind `rError` of the connection; `none` is a null pointer.
  pub r_error : Conn → Z → Option (List (ℤ × Bytes))
  -- `to_version` of the server's release.
  pub server_version : Conn → Z → Option (ℕ × ℕ × ℕ)
  -- `json::parse`, which throws.
  pub parse_json : Bytes → Exec Z Json
  -- `MAX_NAME_LEN`
  pub max_name_len : ℕ
  pub not_a_data_object : ℤ
  pub invalid_object_type : ℤ
  pub check_verification_results : ℤ

abbrev pub int_eq : ℤ → ℤ → Bool
int_eq (pos m) (pos n) = m == n
int_eq (negsuc m) (negsuc n) = m == n
int_eq _ _ = false

-- A text as C reads it: up to the first zero.
unfoldable pub c_str : Bytes → Bytes
c_str [] = []
c_str (c ∷ s) = let rest = c_str s in if c == 0 then [] else c ∷ rest

-- `std::strncpy`: the bytes of the text up to its first zero or up to the count, then zeros up to the
-- count; what lies behind keeps its value.
unfoldable pub strncpy : ℕ → Bytes → Bytes → Bytes
strncpy zero dst src = dst
strncpy (suc n) [] src = []
strncpy (suc n) (d ∷ dst) [] = 0 ∷ strncpy n dst []
strncpy (suc n) (d ∷ dst) (c ∷ src) = c ∷ strncpy n dst (if c == 0 then [] else src)

-- The destination is the whole array, whose length the template takes from its type.
unfoldable pub strncpy_null_terminated : Bytes → Bytes → Bytes
unfolding strncpy
strncpy_null_terminated dst src = strncpy (length dst - 1) dst src

-- `std::string::copy`, which does not stop at a zero and fills nothing up.
unfoldable pub string_copy : ℕ → Bytes → Bytes → Bytes
string_copy zero dst src = dst
string_copy (suc n) dst [] = dst
string_copy (suc n) [] (c ∷ src) = []
string_copy (suc n) (d ∷ dst) (c ∷ src) = c ∷ string_copy n dst src

-- An array as value-initialisation leaves it.
unfoldable pub zeros : ℕ → Bytes
zeros zero = []
zeros (suc n) = 0 ∷ zeros n

-- An argument that is passed on where it is given.
unfoldable pub given : Keyword → Option Bytes → Conditions
given k none = []
given k (some v) = (k, c_str v) ∷ []

-- `iter != std::end(_args) && iter->second == "1"`
unfoldable pub flag : Keyword → Option Bytes → Conditions
flag k argument = if has_value argument (text "1") then (k, []) ∷ [] else []

-- The response with an error code as its body.
abbrev pub code_response : Response → ℤ → Response
code_response res ec = record res { body = json (irods_response ec end) }

-- What a handler does around the body of its background task.
unfoldable pub handle_request :
    {Z : Type 0}
    → (Response → Outcome Response → Response)
    → (Response → Bytes → Exec Z Response)
    → Identity
    → Request
    → Z
    → Response × Z
handle_request catch task (refused r) req z = (r, z)
handle_request catch task (client username) req z =
    let done = task (initial_response req) username z in
    (catch (initial_response req) done.0, done.1)
