-- ===== src/Authentication/Tokens.antt =====
-- Tokens from their issue to their use: `authentication`, the stash and `resolve_client_identity`.
use irods_client_http_api.Prelude.{
  ℕ, ◌+◌, ◌≤◌, ◌≡◌, refl, ap, false, [], ◌++◌, Option, none, some, Bytes, text, drop, leb,
  if◌then◌else◌, arith, inl, inr, Option-cases,
}
use irods_client_http_api.Text.{bytes_eq, find_from, find_from-At, At-start, Marks-nil}
use irods_client_http_api.Map.{find, IsMap}
use irods_client_http_api.Http.{Request, Response, unauthorized, fail}
use irods_client_http_api.Http.Exec.{value, refused, client}
use irods_client_http_api.Stash.{ClientInfo, client_info, time_point, other, basic, Stash, evict}
use irods_client_http_api.Stash.Eviction.{find-evict}
use irods_client_http_api.Authentication.{
  State, token_response, resolve_bearer_token, resolve_client_identity,
}
use irods_client_http_api.Authentication.Libraries.{OpenId}

-- A field with a scheme in front: the scheme is found at the start.
pub find_from-scheme : (scheme rest : Bytes) → find_from (scheme ++ rest) scheme 0 ≡ some 0
find_from-scheme scheme rest =
    find_from-At (scheme ++ rest) scheme 0 [] rest (Marks-nil scheme) (At-start (scheme ++ rest))

module _ {Z : Type 0} (openid : OpenId Z) (trim : Bytes → Bytes) where
  pub resolve_client_identity-bearer :
      (stash : Stash) (now : ℕ) (token : Bytes)
      → trim token ≡ token
      → resolve_client_identity openid trim stash now (some (text "Bearer " ++ token))
        ≡ resolve_bearer_token openid trim stash now token
  unfolding resolve_client_identity
  resolve_client_identity-bearer stash now token e =
      rw (find_from-scheme (text "Bearer ") token, resolve_client_identity)
        (ap (resolve_bearer_token openid trim stash now) e)

  resolve_bearer_token-evict :
      (stash : Stash) (evicted_at now : ℕ) (token : Bytes) (z : Z)
      → openid.oidc_conf_exists ≡ false
      → IsMap stash
      → evicted_at ≤ now
      → resolve_bearer_token openid trim (evict evicted_at stash) now token z
        ≡ resolve_bearer_token openid trim stash now token z
  unfolding resolve_bearer_token
  resolve_bearer_token-evict stash evicted_at now token z no_provider distinct later =
      elim (Option-cases (find token stash)) [
        | inl e ↦ ground (arith, find-evict evicted_at token stash distinct, e)
        | inr (client_info info, e) ↦ ground (arith, find-evict evicted_at token stash distinct, e)
        | inr (time_point t, e) ↦ ground (arith, find-evict evicted_at token stash distinct, e)
        | inr (other, e) ↦ ground (arith, find-evict evicted_at token stash distinct, e)
      ]

  -- Without an OpenID provider the eviction cannot be observed by a request that comes at the same
  -- time or later: with any authorization field it gets the same identity or the same refusal as
  -- it would have got from the stash before the eviction.
  pub resolve_client_identity-evict :
      (stash : Stash) (evicted_at now : ℕ) (authorization : Option Bytes) (z : Z)
      → openid.oidc_conf_exists ≡ false
      → IsMap stash
      → evicted_at ≤ now
      → resolve_client_identity openid trim (evict evicted_at stash) now authorization z
        ≡ resolve_client_identity openid trim stash now authorization z
  unfolding resolve_client_identity
  resolve_client_identity-evict stash evicted_at now none z no_provider distinct later = refl
  resolve_client_identity-evict stash evicted_at now (some a) z no_provider distinct later =
      elim (Option-cases (find_from a (text "Bearer ") 0)) [
        | inl e ↦ rw (e, resolve_client_identity) refl
        | inr (start, e) ↦
            rw (e, resolve_client_identity)
              (resolve_bearer_token-evict stash evicted_at now (trim (drop (start + 7) a)) z
                no_provider distinct later)
      ]

  -- The key of a pending login with a provider (its stash entry is a time) is no bearer token:
  -- it is refused with 401, whatever the time.
  pub resolve_bearer_token-time_point :
      (stash : Stash) (now t : ℕ) (token : Bytes) (z : Z)
      → find token stash ≡ some (time_point t)
      → resolve_bearer_token openid trim stash now token z
        ≡ (value (refused (fail unauthorized)), z)
  unfolding resolve_bearer_token
  resolve_bearer_token-time_point stash now t token z e = rw (e, resolve_bearer_token) refl

  pub resolve_bearer_token-client_info :
      (stash : Stash) (now : ℕ) (token : Bytes) (info : ClientInfo) (z : Z)
      → find token stash ≡ some (client_info info)
      → resolve_bearer_token openid trim stash now token z ≡ (
        value
            (if leb info.expires_at now then refused (fail unauthorized) else client info.username),
        z,
      )
  unfolding resolve_bearer_token
  resolve_bearer_token-client_info stash now token info z e = ground (arith, e)

-- What the issue of a token promises: the answer carries a token; with it the client is known by
-- the name until the token expires and refused with 401 from then on; other entries stay.
pub record IsIssued {Z : Type 0} (openid : OpenId Z) (trim : Bytes → Bytes) (req : Request)
    (expires_at : ℕ) (username : Bytes) (before : Stash) (answer : Option Response × State Z)
    : Type 0 where
  pub token : Bytes
  pub answers : answer.0 ≡ some (token_response req token)
  pub resolves :
      (now : ℕ) (z : Z)
      → resolve_client_identity openid trim answer.1.stash now (some (text "Bearer " ++ token)) z
        ≡ (value (if leb expires_at now then refused (fail unauthorized) else client username), z)
  pub keeps :
      (k : Bytes)
      → find k answer.1.stash ≡ (
          if bytes_eq token k
          then some (
              client_info
                (record { auth_scheme = basic; username = username; expires_at = expires_at }))
          else find k before)
  pub is_new : find token before ≡ none
  pub distinct : IsMap answer.1.stash
