-- ===== src/Examples/Providers.antt =====
-- The validation of access tokens at concrete inputs.
use irods_client_http_api.Prelude.{◌≡◌, ◌↔◌, refl, true, false, [], none, some, text, arith}
use irods_client_http_api.Text.{bytes_eq}
use irods_client_http_api.Http.{pos, Json, int, str, bool, object, end, field}
use irods_client_http_api.Http.Exec.{value}
use irods_client_http_api.Openid.Introspection.{Client, validate_using_introspection_endpoint}
use irods_client_http_api.Openid.Algorithms.{
  Jwt, JwtLibraries, algorithm_specifics, allow, add_symmetric_algorithm, add_by_family,
  add_algorithms_to_verifier, is_access_token, is_nested, checked_algorithm,
  validate_using_local_validation,
}
use irods_client_http_api.Openid.Accepted.{IsAccepted, validate_using_introspection_endpoint_iff}
use irods_client_http_api.Openid.Verified.{IsVerified, validate_using_local_validation-IsVerified}

abbrev us : Client
us = record { client_id = text "us"; issuer = text "op"; strict_aud = true }

abbrev answer : Json
answer = object (
    field (text "active") (bool true)
      (field (text "aud") (str (text "us")) (field (text "nbf") (int (pos 7)) end)))

validate_using_introspection_endpoint_iff_example :
    (validate_using_introspection_endpoint us (pos 7000000000) answer ≡ value (some answer))
    ↔ IsAccepted us 7000000000 answer
unfolding bytes_eq
validate_using_introspection_endpoint_iff_example =
    validate_using_introspection_endpoint_iff us 7000000000 answer (omega arith)

-- A library that takes every signature, and knows no keys.
abbrev library : JwtLibraries
library = record {
  to_lower_copy = λ s. s;
  has_rsa_key = λ n e. true;
  has_ec_key = λ crv x y. true;
  get_jwk = λ key_id jwks. none;
  access_token_secret = some (text "s");
  verify = λ issuer audience v token. true;
}

abbrev token : Jwt
token = record {
  type = some (text "at+jwt");
  has_enc = false;
  content_type = none;
  algorithm = some (text "HS256");
  has_crit = false;
  key_id = none;
  payload = answer;
}

validate_using_local_validation-IsVerified_example :
    (answer ≡ answer) × IsVerified library us [] token
unfolding validate_using_local_validation checked_algorithm is_access_token is_nested
    add_algorithms_to_verifier add_by_family add_symmetric_algorithm algorithm_specifics allow
    bytes_eq
validate_using_local_validation-IsVerified_example =
    validate_using_local_validation-IsVerified library us [] token answer
      (λ key_id jwk e. absurd (ground (arith, e))) refl
