-- ===== src/Authentication/Libraries.antt =====
-- What the authentication takes from the libraries and from the configuration.
use irods_client_http_api.Prelude.{ℕ, Bool, Option, Bytes}
use irods_client_http_api.Http.{ℤ, Json}
use irods_client_http_api.Http.Exec.{Exec}

pub record CredentialLibraries (Z Conn : Type 0) : Type 0 where
  pub trim : Bytes → Bytes
  -- `irods::base64_decode`: what it writes of the text into a buffer of this size.
  pub base64_decode : Bytes → ℕ → Bytes
  -- `client_connection` with deferred authentication, and the native login with a password.
  pub connect_as : Bytes → Exec Z Conn
  pub login_with_password : Conn → Bytes → Exec Z ℤ
  -- `obfuscate_password` of a password and the administrator's password.
  pub obfuscate_password : Bytes → Bytes → Exec Z Bytes
  -- `rc_check_auth_credentials` of user, zone and obfuscated password: an error code, and the answer.
  pub check_auth_credentials : Conn → Bytes → Bytes → Bytes → Exec Z (ℤ × Option ℤ)
  -- The sizes of the fields of `CheckAuthCredentialsInput`.
  pub username_size : ℕ
  pub zone_size : ℕ
  pub password_size : ℕ

pub record Config : Type 0 where
  pub timeout_in_seconds : ℕ
  pub rodsadmin_username : Bytes
  pub rodsadmin_password : Bytes
  pub zone : Bytes
  pub enable_4_2_compatibility : Bool

-- The validation of a foreign token, which asks the OpenID provider, and the plugin of the user
-- mapping. `none` as JSON is the empty value.
pub record OpenId (Z : Type 0) : Type 0 where
  -- The server's configuration has the stanza "openid_connect".
  pub oidc_conf_exists : Bool
  pub introspection_endpoint_exists : Bool
  pub access_token_validation_method : Bytes
  -- `jwt::decode` and `validate_using_local_validation`.
  pub local_validation : Bytes → Exec Z (Option Json)
  pub introspection : Bytes → Exec Z (Option Json)
  -- `user_mapper_match`: the return value and the user's name.
  pub user_mapper_match : Json → Exec Z (ℤ × Option Bytes)
