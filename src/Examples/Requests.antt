-- ===== src/Examples/Requests.antt =====
-- The dispatch at concrete requests.
use irods_client_http_api.Prelude.{
  ℕ, ◌+◌, ◌≡◌, refl, true, [], ◌∷◌, Option, none, some, Bytes, text, take, drop, arith,
}
use irods_client_http_api.Text.{bytes_eq, find_from, first, starts_with}
use irods_client_http_api.Map.{Map, find, insert_or_assign}
use irods_client_http_api.Http.{get, post, negsuc, internal_server_error, fail}
use irods_client_http_api.Multipart.Libraries.{HeaderLibraries}
use irods_client_http_api.Multipart.{
  boundary_start_of, get_multipart_form_data_boundary, header_name, capture_name,
}
use irods_client_http_api.Multipart.Layout.{form_text}
use irods_client_http_api.Dispatch.{
  UrlLibraries, HttpRequest, Dispatched, run_handler, read_ok, answer, execute_operation,
  on_read_body, get_url_path,
}
use irods_client_http_api.Dispatch.Laws.{
  Dispatches, execute_operation-Dispatches, execute_operation-form_text, on_read_body_no_query,
}
use irods_client_http_api.Examples.Libraries.{texts, plain_headers}
use irods_client_http_api.Examples.Forms.{first_part, second_part, boundary, parts-IsPart}

abbrev before_query : Bytes → Bytes
before_query s = elim (find_from s (text "?") 0) [ none ↦ s | some n ↦ take n s ]

abbrev urls : UrlLibraries
urls = record {
  curl_url_set = λ u. true;
  curl_path = λ u. elim (find_from u (text "/") 7) [
    | none ↦ none
    | some n ↦ some (before_query (drop n u))
  ];
  curl_query =
      λ u. elim (find_from u (text "?") 0) [ none ↦ none | some n ↦ some (drop (n + 1) u) ];
  istarts_with = λ s prefix. starts_with prefix s;
  last_segment = λ target. some (drop 1 target);
  sys_library_error = negsuc 807999;
}

-- The boundary stands right behind "form-data; boundary=".
abbrev form_headers : HeaderLibraries
form_headers = record plain_headers {
  ext_find = λ name value. some ((text "name", value) ∷ (text "boundary", drop 20 value) ∷ []);
}

-- A handler is a number.
abbrev reads : Map ℕ
reads = (text "read", 1) ∷ []

abbrev writes : Map ℕ
writes = (text "remove", 2) ∷ (text "write", 3) ∷ []

abbrev get_request : HttpRequest
get_request = record {
  method = get;
  target = text "/data-objects";
  content_type = [];
  api_request_op = [];
  body = [];
}

abbrev form_request : HttpRequest
form_request = record {
  method = post;
  target = text "/data-objects";
  content_type = text "multipart/form-data; boundary=xyz";
  api_request_op = [];
  body = form_text (boundary_start_of boundary) (first_part ∷ second_part ∷ []) [];
}

execute_operation-Dispatches_example :
    (d : Dispatched ℕ) × (execute_operation texts form_headers urls reads writes form_request
      ≡ some d)
    × Dispatches texts form_headers urls post form_request writes d
execute_operation-Dispatches_example =
    execute_operation-Dispatches texts form_headers urls reads writes form_request (omega arith)

execute_operation-form_text_example :
    execute_operation texts form_headers urls reads writes form_request
    ≡ some (run_handler 3 ((text "op", text "write") ∷ (text "bytes", text "a--b") ∷ []))
unfolding get_multipart_form_data_boundary header_name capture_name bytes_eq find insert_or_assign
    find_from first starts_with
execute_operation-form_text_example =
    execute_operation-form_text texts form_headers urls reads writes form_request boundary []
      (text "write") (first_part ∷ second_part ∷ []) 3 refl refl refl refl parts-IsPart
      (omega arith) refl refl

abbrev endpoints : Map (HttpRequest → Option (Dispatched ℕ))
endpoints =
    (text "/tickets", execute_operation texts form_headers urls [] writes)
    ∷ (text "/data-objects", execute_operation texts form_headers urls reads writes)
    ∷ []

on_read_body_no_query_example :
    on_read_body texts form_headers urls endpoints read_ok get_request
    ≡ some (answer (fail internal_server_error))
unfolding get_url_path find_from first starts_with find bytes_eq
on_read_body_no_query_example =
    on_read_body_no_query texts form_headers urls (text "read", 1) [] writes (text "/data-objects")
      get_request endpoints refl refl refl refl
