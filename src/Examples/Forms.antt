-- ===== src/Examples/Forms.antt =====
-- Request bodies at concrete inputs.
use irods_client_http_api.Prelude.{◌≡◌, refl, [], ◌∷◌, some, Bytes, text, arith, All}
use irods_client_http_api.Text.{bytes_eq, first, starts_with}
use irods_client_http_api.Map.{Map, find, insert_or_assign}
use irods_client_http_api.Arguments.{
  to_argument_list, url_encode_body, encode, join_pairs, encode_pair,
}
use irods_client_http_api.Arguments.RoundTrip.{find-to_argument_list-url_encode_body}
use irods_client_http_api.Multipart.{
  parse_multipart_form_data, returned, boundary_start_of, header_name, capture_name,
}
use irods_client_http_api.Multipart.Progress.{parse_multipart_form_data_total}
use irods_client_http_api.Multipart.Layout.{Part, IsPart, form_text}
use irods_client_http_api.Multipart.RoundTrip.{parse_multipart_form_data-form_text}
use irods_client_http_api.Examples.Libraries.{escape, texts, texts-LibraryLaws, plain_headers}

abbrev pairs : Map Bytes
pairs = (text "op", text "write") ∷ (text "bytes", text "1+1=2&3") ∷ []

find-to_argument_list-url_encode_body_example :
    find (text "bytes") (to_argument_list texts (text "op=write&bytes=1+1%e2%a3"))
    ≡ some (text "1 1=2&3")
unfolding find bytes_eq escape encode url_encode_body join_pairs encode_pair
find-to_argument_list-url_encode_body_example =
    find-to_argument_list-url_encode_body texts texts-LibraryLaws pairs
      (text "op=write&bytes=1+1%e2%a3") (text "bytes") (refl, (refl, tt)) (refl, (refl, tt)) refl

abbrev pub first_part : Part
first_part = record {
  name = text "content-disposition";
  value = text "op";
  more = [];
  body = text "write";
}

abbrev pub second_part : Part
second_part = record {
  name = text "content-disposition";
  value = text "bytes";
  more = (text "content-type", text "text/plain") ∷ [];
  body = text "a--b";
}

abbrev pub boundary : Bytes
boundary = text "xyz"

pub parts-IsPart : All (IsPart (boundary_start_of boundary)) (first_part ∷ second_part ∷ [])
unfolding first starts_with
parts-IsPart = (
  record { headers_fit = ((refl, refl, omega arith), tt); body_fits = refl },
  (
    record {
      headers_fit = ((refl, refl, omega arith), ((refl, refl, omega arith), tt));
      body_fits = refl;
    },
    tt,
  ),
)

parse_multipart_form_data-form_text_example :
    parse_multipart_form_data plain_headers boundary
      (form_text (boundary_start_of boundary) (first_part ∷ second_part ∷ []) (text ""))
    ≡ some (returned ((text "op", text "write") ∷ (text "bytes", text "a--b") ∷ []))
unfolding header_name capture_name bytes_eq find insert_or_assign
parse_multipart_form_data-form_text_example =
    parse_multipart_form_data-form_text plain_headers boundary (first_part ∷ second_part ∷ [])
      (text "") parts-IsPart (omega arith)

parse_multipart_form_data_total_example :
    (args : Map Bytes) × (parse_multipart_form_data plain_headers boundary (text "--xyz garbage")
      ≡ some (returned args))
parse_multipart_form_data_total_example =
    parse_multipart_form_data_total plain_headers boundary (text "--xyz garbage") (omega arith)
