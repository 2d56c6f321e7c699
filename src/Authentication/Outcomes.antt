-- ===== src/Authentication/Outcomes.antt =====
-- What the authentication endpoint answers.
use irods_client_http_api.Prelude.{
  ℕ, ◌+◌, ◌≡◌, refl, ap, sym, ◌∙◌, Bool, true, false, not, ◌&&◌, ◌||◌, ◌++◌, some, Bytes, text,
  length, arith, inl, inr, Bool-cases, drop-length_append, take-length_append, drop-add, subst,
}
use irods_client_http_api.Text.{bytes_eq, bytes_eq_self, find_from-At, At-start, Marks}
use irods_client_http_api.Map.{find, IsMap}
use irods_client_http_api.Http.{post, Request, unauthorized, fail}
use irods_client_http_api.Stash.{ClientInfo, client_info, basic, Stash, insert}
use irods_client_http_api.Stash.Keys.{IsInjective}
use irods_client_http_api.Stash.Eviction.{insert_lem}
use irods_client_http_api.DataObjects.Io.{Io}
use irods_client_http_api.Authentication.{
  State, is_empty, login_successful, token_response, decode_username_and_password,
  verify_credentials, issue_token, log_in, authentication,
}
use irods_client_http_api.Authentication.Libraries.{CredentialLibraries, Config, OpenId}
use irods_client_http_api.Authentication.Tokens.{
  resolve_bearer_token-client_info, IsIssued, find_from-scheme, resolve_client_identity-bearer,
}

module _ {Z Conn Out : Type 0} (lib : CredentialLibraries Z Conn) (io : Io Z Conn Out)
    (config : Config) (random : ℕ → Bytes) where
  -- Credentials of a name without a colon and any password are told apart at the first colon.
  decode_username_and_password_lem :
      (encoded username password : Bytes)
      → Marks (text ":") username
      → lib.base64_decode (lib.trim encoded) 128 ≡ username ++ (text ":" ++ password)
      → decode_username_and_password lib io config random encoded ≡ (username, password)
  unfolding decode_username_and_password
  decode_username_and_password_lem encoded username password plain e = ground (
    arith,
    e,
    find_from-At (username ++ (text ":" ++ password)) (text ":") 0 username password plain
        (At-start (username ++ (text ":" ++ password))),
    take-length_append username (text ":" ++ password),
    drop-length_append username (text ":" ++ password),
    drop-add (length username) 1 (username ++ (text ":" ++ password)),
  )

  issue_token-of_insert :
      (req : Request) (now : ℕ) (username : Bytes) (s : State Z) (key : Bytes) (drawn : ℕ)
      (stash : Stash)
      → insert random s.drawn
          (client_info (record {
            auth_scheme = basic;
            username = username;
            expires_at = now + config.timeout_in_seconds;
          }))
          s.stash
        ≡ some (key, drawn, stash)
      → issue_token lib io config random req now username s
        ≡ (some (token_response req key), record s { drawn = drawn; stash = stash })
  unfolding issue_token
  issue_token-of_insert req now username s key drawn stash e = rw (e, issue_token)

  issue_token-IsIssued :
      (openid : OpenId Z) (req : Request) (now : ℕ) (username : Bytes) (s : State Z)
      → IsInjective random
      → ((n : ℕ) → lib.trim (random n) ≡ random n)
      → IsMap s.stash
      → IsIssued openid lib.trim req
          (now + config.timeout_in_seconds)
          username
          s.stash
          (issue_token lib io config random req now username s)
  issue_token-IsIssued openid req now username s inj plain distinct =
      let info : ClientInfo = record {
        auth_scheme = basic;
        username = username;
        expires_at = now + config.timeout_in_seconds;
      } in
      let (key, drawn, stash, e, absent, found, distinct', n, drawn_key) =
        insert_lem random s.drawn (client_info info) s.stash inj distinct in
      let trimmed = ap lib.trim drawn_key ∙ plain n ∙ sym drawn_key in
      let found_key : find key stash ≡ some (client_info info) =
        ground (arith, found key, bytes_eq_self key) in
      subst
        (λ answer.
          IsIssued openid lib.trim req (now + config.timeout_in_seconds) username s.stash answer)
        (sym (issue_token-of_insert req now username s key drawn stash e))
        record {
          token = key;
          answers = refl;
          resolves = λ later z.
              ap (λ f. f z) (resolve_client_identity-bearer openid lib.trim stash later key trimmed)
              ∙ resolve_bearer_token-client_info openid lib.trim stash later key info z found_key;
          keeps = found;
          is_new = absent;
          distinct = distinct';
        }

  -- The anonymous user without a password, or credentials that iRODS confirms.
  unfoldable pub is_permitted : Bytes → Bytes → Z → Bool
  is_permitted username password z =
      (bytes_eq (text "anonymous") username && is_empty password)
      || (not (is_empty username || is_empty password)
          && login_successful (verify_credentials lib io config random username password z).0)

  pub authentication-basic :
      (req : Request) (encoded username password : Bytes) (now : ℕ) (s : State Z)
      → Marks (text ":") username
      → lib.base64_decode (lib.trim encoded) 128 ≡ username ++ (text ":" ++ password)
      → authentication lib io config random post req (some (text "Basic " ++ encoded)) now s
        ≡ log_in lib io config random req now username password s
  unfolding authentication
  authentication-basic req encoded username password now s plain e =
      rw
        (
          find_from-scheme (text "Basic ") encoded,
          decode_username_and_password_lem encoded username password plain e,
          authentication,
        )
        refl

  log_in-issue_token :
      (req : Request) (now : ℕ) (username password : Bytes) (s : State Z)
      → is_permitted username password s.io ≡ true
      → (io' : Z) × (log_in lib io config random req now username password s
          ≡ issue_token lib io config random req now username (record s { io = io' }))
  unfolding is_permitted log_in
  log_in-issue_token req now username password s permitted =
      elim (Bool-cases (bytes_eq (text "anonymous") username && is_empty password)) [
        | inl e ↦ (s.io, rw e refl)
        | inr e ↦
            ((verify_credentials lib io config random username password s.io).1, ground (arith, e))
      ]

  log_in-permitted :
      (openid : OpenId Z) (req : Request) (now : ℕ) (username password : Bytes) (s : State Z)
      → IsInjective random
      → ((n : ℕ) → lib.trim (random n) ≡ random n)
      → IsMap s.stash
      → is_permitted username password s.io ≡ true
      → IsIssued openid lib.trim req
          (now + config.timeout_in_seconds)
          username
          s.stash
          (log_in lib io config random req now username password s)
  log_in-permitted openid req now username password s inj plain distinct permitted =
      let (io', e) = log_in-issue_token req now username password s permitted in
      subst
        (λ answer.
          IsIssued openid lib.trim req (now + config.timeout_in_seconds) username s.stash answer)
        (sym e)
        (issue_token-IsIssued openid req now username (record s { io = io' }) inj plain distinct)

  pub log_in-not_permitted :
      (req : Request) (now : ℕ) (username password : Bytes) (s : State Z)
      → is_permitted username password s.io ≡ false
      → let answer = log_in lib io config random req now username password s in
        (answer.0 ≡ some (fail unauthorized))
        × (answer.1.stash ≡ s.stash)
        × (answer.1.drawn ≡ s.drawn)
  unfolding is_permitted log_in
  log_in-not_permitted req now username password s permitted = ground arith

  -- A POST with "Basic " and the encoding of a name without a colon and a password, where the user
  -- is the anonymous one without a password or iRODS confirms the credentials: the answer is a
  -- bearer token that was not in use, by which the user is known until the timeout has passed and
  -- not after it, and nothing else in the stash changes. Identifiers are not drawn twice and hold
  -- no white space at the ends.
  pub authentication-IsIssued :
      (openid : OpenId Z) (req : Request) (encoded username password : Bytes) (now : ℕ)
      (s : State Z)
      → Marks (text ":") username
      → lib.base64_decode (lib.trim encoded) 128 ≡ username ++ (text ":" ++ password)
      → is_permitted username password s.io ≡ true
      → IsInjective random
      → ((n : ℕ) → lib.trim (random n) ≡ random n)
      → IsMap s.stash
      → IsIssued openid lib.trim req
          (now + config.timeout_in_seconds)
          username
          s.stash
          (authentication lib io config random post req (some (text "Basic " ++ encoded)) now s)
  authentication-IsIssued openid req encoded username password now s no_colon decoded permitted inj
        plain distinct =
      subst
        (λ answer.
          IsIssued openid lib.trim req (now + config.timeout_in_seconds) username s.stash answer)
        (sym (authentication-basic req encoded username password now s no_colon decoded))
        (log_in-permitted openid req now username password s inj plain distinct permitted)
