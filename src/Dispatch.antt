-- ===== src/Dispatch.antt =====
-- The way of a request from the session to the handler of an operation: `session::on_read_header` and
-- `on_read_body` of core/src/session.cpp, `parse_url`, `get_url_path` and `execute_operation` of
-- core/src/common.cpp.
pub mod Arguments
pub mod Laws
use irods_client_http_api.Prelude.{
  ℕ, Bool, true, false, ◌&&◌, List, [], ◌∷◌, ◌++◌, Option, none, some, Bytes, text, if◌then◌else◌,
}
use irods_client_http_api.Text.{bytes_eq}
use irods_client_http_api.Map.{Map, find}
use irods_client_http_api.Http.{
  ℤ, Verb, get, post, other_verb, Response, bad_request, not_found, method_not_allowed,
  internal_server_error, fail,
}
use irods_client_http_api.Http.Exec.{Exn, irods_exception, std_exception}
use irods_client_http_api.Arguments.Libraries.{TextLibraries}
use irods_client_http_api.Arguments.{to_argument_list}
use irods_client_http_api.Multipart.Libraries.{HeaderLibraries}
use irods_client_http_api.Multipart.{
  Turn, next, returned, out_of_range, get_multipart_form_data_boundary, parse_multipart_form_data,
}

-- libcurl's URL functions on a whole URL, and Boost's.
pub record UrlLibraries : Type 0 where
  -- `curl_url_set` succeeds.
  pub curl_url_set : Bytes → Bool
  -- `curl_url_get`; `none` is an error code. There is one if the URL has no such part.
  pub curl_path : Bytes → Option Bytes
  pub curl_query : Bytes → Option Bytes
  pub istarts_with : Bytes → Bytes → Bool
  -- `parse_origin_form(target)->segments().back()`; `none` where the target is malformed.
  pub last_segment : Bytes → Option Bytes
  -- `SYS_LIBRARY_ERROR`
  pub sys_library_error : ℤ

-- What the dispatch reads of a request; a field that is missing reads as the empty text.
pub record HttpRequest : Type 0 where
  pub method : Verb
  pub target : Bytes
  pub content_type : Bytes
  pub api_request_op : Bytes
  pub body : Bytes

-- A response is sent, or the handler of an operation is called, or an exception leaves the function.
pub data Dispatched (H : Type 0) : Type 0 where
  respond : Response → Dispatched H
  run_handler : H → Map Bytes → Dispatched H
  raised : Exn → Dispatched H

pub record Url : Type 0 where
  pub path : Bytes
  pub query : Map Bytes

-- `async_read` and `async_read_header` complete.
pub data ReadResult : Type 0 where
  read_ok end_of_stream body_limit other_error : ReadResult

-- What the session does next.
pub data Reaction (H : Type 0) : Type 0 where
  do_close abandon read_body write_streaming : Reaction H
  answer : Response → Reaction H
  handler : H → Map Bytes → Reaction H

abbrev is_post : Verb → Bool
is_post post = true
is_post _ = false

abbrev is_data_objects : Option Bytes → Bool
is_data_objects none = false
is_data_objects (some segment) = bytes_eq segment (text "data-objects")

module _ (texts : TextLibraries) (headers : HeaderLibraries) (urls : UrlLibraries) where
  -- `none` is the exception `SYS_LIBRARY_ERROR`.
  unfoldable pub parse_url : Bytes → Option Url
  parse_url u =
      if urls.curl_url_set u
      then elim (urls.curl_path u) [
        | none ↦ none
        | some path ↦ elim (urls.curl_query u) [
          | none ↦ none
          | some query ↦ some (record { path = path; query = to_argument_list texts query })
        ]
      ]
      else none

  unfoldable pub get_url_path : Bytes → Option Bytes
  get_url_path u = if urls.curl_url_set u then urls.curl_path u else none

  module _ {H : Type 0} where
    -- The operation that the arguments name, from the table.
    unfoldable pub call_operation : Map H → Map Bytes → Dispatched H
    call_operation table args = elim (find (text "op") args) [
      | none ↦ respond (fail bad_request)
      | some op ↦ elim (find op table) [
        | none ↦ respond (fail bad_request)
        | some h ↦ run_handler h args
      ]
    ]

    abbrev call_parsed : Map H → Option Turn → Option (Dispatched H)
    call_parsed table none = none
    call_parsed table (some (returned args)) = some (call_operation table args)
    call_parsed table (some out_of_range) = some (raised std_exception)
    call_parsed table (some (next p)) = none

    abbrev is_nil : Map H → Bool
    is_nil [] = true
    is_nil (p ∷ m) = false

    -- The messages of the three errors of `parse_url` are not told apart.
    unfoldable pub execute_get : Map H → HttpRequest → Dispatched H
    unfolding parse_url call_operation
    execute_get table req =
        if is_nil table
        then respond (fail method_not_allowed)
        else elim (parse_url (text "http://ignored" ++ req.target)) [
          | none ↦ raised (irods_exception urls.sys_library_error (text "curl error"))
          | some url ↦ call_operation table url.query
        ]

    unfoldable pub execute_post : Map H → HttpRequest → Option (Dispatched H)
    unfolding call_operation
    execute_post table req =
        if is_nil table
        then some (respond (fail method_not_allowed))
        else if urls.istarts_with req.content_type (text "multipart/form-data")
        then elim (get_multipart_form_data_boundary headers req.content_type) [
          | none ↦ some (respond (fail bad_request))
          | some boundary ↦ call_parsed table (parse_multipart_form_data headers boundary req.body)
        ]
        else if urls.istarts_with req.content_type (text "application/x-www-form-urlencoded")
        then some (call_operation table (to_argument_list texts req.body))
        else some (respond (fail bad_request))

    -- The tables of the operations for GET and for POST; `none` stands for a parser that does not end.
    unfoldable pub execute_operation : Map H → Map H → HttpRequest → Option (Dispatched H)
    unfolding execute_get execute_post
    execute_operation op_table_get op_table_post req = elim req.method [
      | get ↦ some (execute_get op_table_get req)
      | post ↦ execute_post op_table_post req
      | other_verb ↦ some (respond (fail method_not_allowed))
    ]

    -- The `catch` of the session.
    abbrev pub reaction : Option (Dispatched H) → Option (Reaction H)
    reaction none = none
    reaction (some (respond r)) = some (answer r)
    reaction (some (run_handler h args)) = some (handler h args)
    reaction (some (raised e)) = some (answer (fail internal_server_error))

    -- The map takes a path to the entry function of an endpoint.
    unfoldable pub on_read_body :
        Map (HttpRequest → Option (Dispatched H)) → ReadResult → HttpRequest → Option (Reaction H)
    unfolding get_url_path
    on_read_body req_handlers end_of_stream req = some do_close
    on_read_body req_handlers body_limit req = some abandon
    on_read_body req_handlers other_error req = some abandon
    on_read_body req_handlers read_ok req = elim (get_url_path (text "http://host" ++ req.target)) [
      | none ↦ some (answer (fail bad_request))
      | some path ↦ elim (find path req_handlers) [
        | none ↦ some (answer (fail not_found))
        | some endpoint ↦ reaction (endpoint req)
      ]
    ]

    unfoldable pub on_read_header : ReadResult → HttpRequest → Reaction H
    on_read_header end_of_stream req = do_close
    on_read_header body_limit req = abandon
    on_read_header other_error req = abandon
    on_read_header read_ok req =
        if is_post req.method
          && (is_data_objects (urls.last_segment req.target)
              && bytes_eq (text "write") req.api_request_op)
        then write_streaming
        else read_body
