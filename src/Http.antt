-- ===== src/Http.antt =====
-- Requests, responses and the `fail` family of core/src/common.cpp. A body that the code writes as
-- `json{…}.dump()` is kept as the JSON value. The value of the server field comes from the build.
pub mod Exec
use irods_client_http_api.Prelude.{ℕ, suc, Bool, true, false, List, Bytes, String, text}

-- A signed machine integer: `negsuc n` is -(n + 1).
pub data ℤ : Type 0 where
  pos : ℕ → ℤ
  negsuc : ℕ → ℤ

abbrev pub is_negative : ℤ → Bool
is_negative (pos n) = false
is_negative (negsuc n) = true

pub data Status : Type 0 where
  ok created bad_request unauthorized not_found method_not_allowed : Status
  too_many_requests internal_server_error not_implemented service_unavailable : Status

pub data Verb : Type 0 where
  get post other_verb : Verb

mutual
  pub data Json : Type 0 where
    int : ℤ → Json
    str : Bytes → Json
    bool : Bool → Json
    object : Fields → Json
    array : Items → Json
    null_value : Json

  pub data Items : Type 0 where
    last : Items
    item : Json → Items → Items

  pub data Fields : Type 0 where
    end : Fields
    field : Bytes → Json → Fields → Fields

pub data Body : Type 0 where
  raw : Bytes → Body
  json : Json → Body

abbrev pub empty_body : Body
empty_body = raw (text "")

-- What of a request the code reads; its body and header fields are arguments of the functions.
pub record Request : Type 0 where
  pub version : ℕ
  pub keep_alive : Bool

-- `prepare_payload` sets the length fields, which follow from the body.
pub record Response : Type 0 where
  pub result : Status
  pub version : ℕ
  pub server_set : Bool
  pub content_type : Bytes
  pub keep_alive : Bool
  pub body : Body

-- `response_type r{_status, _version}`; HTTP/1.1 keeps the connection alive unless told otherwise.
abbrev pub fresh : Status → ℕ → Response
fresh status version = record {
  result = status;
  version = version;
  server_set = false;
  content_type = text "";
  keep_alive = true;
  body = empty_body;
}

-- `fail(_response, _status, _error_msg)`
abbrev pub fail_with : Response → Status → Body → Response
fail_with r status message = record r {
  result = status;
  server_set = true;
  content_type = text "application/json";
  body = message;
}

-- `fail(_response, _status)`
abbrev pub fail_in : Response → Status → Response
fail_in r status = fail_with r status empty_body

-- `fail(_status)`
abbrev pub fail : Status → Response
fail status = fail_in (fresh status 11) status

-- The response that each background task begins with.
abbrev pub initial_response : Request → Response
initial_response req = record {
  result = ok;
  version = req.version;
  server_set = true;
  content_type = text "application/json";
  keep_alive = req.keep_alive;
  body = empty_body;
}

-- `json{{"irods_response", {{"status_code", ec}}}}`
abbrev pub irods_response : ℤ → Fields → Json
irods_response ec more =
    object (field (text "irods_response") (object (field (text "status_code") (int ec) end)) more)

-- The same with a status message.
abbrev pub irods_error : ℤ → Bytes → Json
irods_error ec message = object (
    field (text "irods_response")
      (object
        (field (text "status_code") (int ec) (field (text "status_message") (str message) end)))
      end)
