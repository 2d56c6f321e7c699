-- ===== src/Authentication.antt =====
-- The endpoint of endpoints/authentication/src/main.cpp, which exchanges a name and a password for a
-- bearer token, and `resolve_client_identity` and `map_json_to_user` of core/src/common.cpp.
pub mod Libraries
pub mod Tokens
pub mod Outcomes
pub mod Refusals
use irods_client_http_api.Prelude.{
  ℕ, zero, suc, ◌+◌, ◌-◌, Bool, true, false, ◌&&◌, ◌||◌, [], ◌∷◌, Option, none, some, Bytes, text,
  drop, take, leb, if◌then◌else◌,
}
use irods_client_http_api.Text.{bytes_eq, find_from}
use irods_client_http_api.Map.{find}
use irods_client_http_api.Http.{
  ℤ, pos, negsuc, is_negative, Verb, post, get, other_verb, Json, object, end, array, last,
  null_value, raw, Request, Response, ok, bad_request, unauthorized, method_not_allowed, fail,
}
use irods_client_http_api.Http.Exec.{
  Exec, Outcome, value, sent, thrown, pure, ◌>>=◌, std_exception, Identity, refused, client,
}
use irods_client_http_api.Stash.{
  ClientInfo, StashValue, client_info, time_point, other, basic, Stash, insert,
}
use irods_client_http_api.DataObjects.Io.{Io}
use irods_client_http_api.DataObjects.Write.{get_connection}
use irods_client_http_api.Authentication.Libraries.{CredentialLibraries, Config, OpenId}

-- The stash, the random identifiers drawn so far, and the world outside.
pub record State (Z : Type 0) : Type 0 where
  pub stash : Stash
  pub drawn : ℕ
  pub io : Z

abbrev pub is_empty : Bytes → Bool
is_empty [] = true
is_empty (c ∷ s) = false

abbrev pub is_zero : ℤ → Bool
is_zero (pos zero) = true
is_zero (pos (suc n)) = false
is_zero (negsuc n) = false

-- `correct && 1 == *correct`
abbrev pub is_correct : Option ℤ → Bool
is_correct none = false
is_correct (some (pos zero)) = false
is_correct (some (pos (suc zero))) = true
is_correct (some (pos (suc (suc n)))) = false
is_correct (some (negsuc n)) = false

-- Every exception of the check leaves `login_successful` false.
abbrev pub login_successful : Outcome Bool → Bool
login_successful (value b) = b
login_successful (sent r) = false
login_successful (thrown e) = false

abbrev pub token_response : Request → Bytes → Response
token_response req token = record {
  result = ok;
  version = req.version;
  server_set = true;
  content_type = text "text/plain";
  keep_alive = req.keep_alive;
  body = raw token;
}

module _ {Z Conn Out : Type 0} (lib : CredentialLibraries Z Conn) (io : Io Z Conn Out)
    (config : Config) (random : ℕ → Bytes) where
  -- The return value of `base64_decode` is only logged.
  unfoldable pub decode_username_and_password : Bytes → Bytes × Bytes
  decode_username_and_password encoded_data =
      let sv = lib.base64_decode (lib.trim encoded_data) 128 in
      elim (find_from sv (text ":") 0) [
        | none ↦ ([], [])
        | some colon ↦ (take colon sv, drop (colon + 1) sv)
      ]

  -- The body of the `try` block.
  unfoldable pub verify_credentials : Bytes → Bytes → Exec Z Bool
  unfolding get_connection
  verify_credentials username password =
      if config.enable_4_2_compatibility
      then (lib.connect_as username >>= λ conn.
          lib.login_with_password conn password >>= λ ec. pure (is_zero ec))
      else (lib.obfuscate_password password config.rodsadmin_password >>= λ obfuscated_password.
          get_connection io config.enable_4_2_compatibility config.rodsadmin_username >>= λ conn.
          lib.check_auth_credentials conn (take (lib.username_size - 1) username)
            (take (lib.zone_size - 1) config.zone)
            (take (lib.password_size - 1) obfuscated_password)
          >>= λ result. pure (if is_negative result.0 then false else is_correct result.1))

  -- `none` stands for a search for an unused key that does not end.
  unfoldable pub issue_token : Request → ℕ → Bytes → State Z → Option Response × State Z
  unfolding insert
  issue_token req now username s =
      let info : ClientInfo = record {
        auth_scheme = basic;
        username = username;
        expires_at = now + config.timeout_in_seconds;
      } in
      elim (insert random s.drawn (client_info info) s.stash) [
        | none ↦ (none, s)
        | some (bearer_token, drawn, stash) ↦
            (some (token_response req bearer_token), record s { drawn = drawn; stash = stash })
      ]

  -- After the credentials were decoded.
  unfoldable pub log_in : Request → ℕ → Bytes → Bytes → State Z → Option Response × State Z
  unfolding verify_credentials issue_token
  log_in req now username password s =
      if bytes_eq (text "anonymous") username && is_empty password
      then issue_token req now username s
      else if is_empty username || is_empty password
      then (some (fail unauthorized), s)
      else let (outcome, io') = verify_credentials username password s.io in
        let s' : State Z = record s { io = io' } in
        if login_successful outcome
        then issue_token req now username s'
        else (some (fail unauthorized), s')

  -- The handler: verb, the field "authorization", the steady clock.
  unfoldable pub authentication :
      Verb → Request → Option Bytes → ℕ → State Z → Option Response × State Z
  unfolding log_in decode_username_and_password
  authentication get req authorization now s = (some (fail method_not_allowed), s)
  authentication other_verb req authorization now s = (some (fail method_not_allowed), s)
  authentication post req none now s = (some (fail bad_request), s)
  authentication post req (some authorization) now s =
      elim (find_from authorization (text "Basic ") 0) [
        | none ↦ (some (fail bad_request), s)
        | some start ↦
            let (username, password) =
              decode_username_and_password (drop (start + 6) authorization) in
            log_in req now username password s
      ]

-- `json_res.empty()`
abbrev json_empty : Option Json → Bool
json_empty (some (object end)) = true
json_empty (some (array last)) = true
json_empty (some null_value) = true
json_empty (some _) = false
json_empty none = true

module _ {Z : Type 0} (openid : OpenId Z) (trim : Bytes → Bytes) where
  abbrev matched : ℤ × Option Bytes → Option Bytes
  matched (rc, user) = if is_zero rc then user else none

  unfoldable pub map_json_to_user : Json → Exec Z (Option Bytes)
  map_json_to_user json = openid.user_mapper_match json >>= λ r. pure (matched r)

  abbrev validated : Outcome (Option Json) → Option Json
  validated (value r) = r
  validated (sent r) = none
  validated (thrown e) = none

  -- Exceptions of the local validation mean that the token was not validated.
  unfoldable pub try_local_validation : Bytes → Exec Z (Option Json)
  try_local_validation bearer_token s =
      let (outcome, s') = openid.local_validation bearer_token s in (value (validated outcome), s')

  unfoldable pub validate_foreign : Bytes → Exec Z (Option Json)
  unfolding try_local_validation
  validate_foreign bearer_token =
      if bytes_eq openid.access_token_validation_method (text "local_validation")
      then try_local_validation bearer_token
      else if openid.introspection_endpoint_exists
          && bytes_eq openid.access_token_validation_method (text "introspection")
      then openid.introspection bearer_token
      else pure none

  abbrev identity_of_user : Option Bytes → Identity
  identity_of_user none = refused (fail unauthorized)
  identity_of_user (some user) = client user

  unfoldable pub identity_of_json : Option Json → Exec Z Identity
  unfolding map_json_to_user
  identity_of_json json =
      if json_empty json then pure (refused (fail unauthorized)) else elim json [
        | none ↦ pure (refused (fail unauthorized))
        | some j ↦ map_json_to_user j >>= λ user. pure (identity_of_user user)
      ]

  unfoldable pub resolve_bearer_token : Stash → ℕ → Bytes → Exec Z Identity
  unfolding validate_foreign identity_of_json
  resolve_bearer_token stash now bearer_token = elim (find bearer_token stash) [
    | none ↦
        if openid.oidc_conf_exists
        then (validate_foreign bearer_token >>= identity_of_json)
        else pure (refused (fail unauthorized))
    | some (client_info info) ↦
        if leb info.expires_at now
        then pure (refused (fail unauthorized))
        else pure (client info.username)
    | some (time_point t) ↦ pure (refused (fail unauthorized))
    | some other ↦ pure (refused (fail unauthorized))
  ]

  -- The stash, the steady clock, and the field "Authorization" of the request.
  unfoldable pub resolve_client_identity : Stash → ℕ → Option Bytes → Exec Z Identity
  unfolding resolve_bearer_token
  resolve_client_identity stash now none = pure (refused (fail bad_request))
  resolve_client_identity stash now (some authorization) =
      elim (find_from authorization (text "Bearer ") 0) [
        | none ↦ pure (refused (fail bad_request))
        | some start ↦ resolve_bearer_token stash now (trim (drop (start + 7) authorization))
      ]
