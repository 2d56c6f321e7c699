-- ===== src/Openid/Verified.antt =====
-- Which tokens the local validation lets through.
use irods_client_http_api.Prelude.{
  ◌≡◌, inl, inr, true, false, ◌||◌, List, [], some, Bytes, text, arith, Bool-cases, Option-cases,
  subst,
}
use irods_client_http_api.Text.{bytes_eq}
use irods_client_http_api.Http.{Json}
use irods_client_http_api.Openid.Introspection.{Client}
use irods_client_http_api.Openid.Algorithms.{
  Jwk, Jwt, Verifier, JwtLibraries, add_algorithms_to_verifier, checked_algorithm, is_access_token,
  validate_using_local_validation,
}
use irods_client_http_api.Openid.Allowed.{Among, IsSound, SoundOr, add_algorithms_to_verifier-Sound}

module _ (jwt : JwtLibraries) (c : Client) (jwks : List Jwk) (token : Jwt) where
  -- The token names an algorithm, other than "none"; it is an access token, without encryption and without critical
  -- extensions; and it was verified, for this issuer and this client, with sound algorithms only.
  abbrev pub IsVerified : Type 0
  IsVerified =
      (alg : Bytes) × (v : Verifier) × (token.algorithm ≡ some alg)
      × ((bytes_eq alg (text "none") || token.has_crit || token.has_enc) ≡ false)
      × (is_access_token jwt token.type ≡ true)
      × IsSound jwt.access_token_secret jwks alg v
      × (jwt.verify c.issuer c.client_id v token ≡ true)

  checked_algorithm_lem :
      (alg : Bytes)
      → checked_algorithm jwt token ≡ some alg
      → (token.algorithm ≡ some alg)
        × ((bytes_eq alg (text "none") || token.has_crit || token.has_enc) ≡ false)
        × (is_access_token jwt token.type ≡ true)
  unfolding checked_algorithm
  checked_algorithm_lem alg e = elim (Bool-cases (is_access_token jwt token.type)) [
    | inl typed ↦ elim (Option-cases token.algorithm) [
      | inl none_named ↦ absurd (ground (arith, e, typed, none_named))
      | inr (named, f) ↦ (ground (arith, e, typed, f), ground (arith, e, typed, f), typed)
    ]
    | inr untyped ↦ absurd (ground (arith, e, untyped))
  ]

  -- If a key that jwt-cpp finds by its identifier is one of the given ones, then a token that the local validation accepts
  -- names an algorithm other than "none", is an access token without encryption and critical extensions, and was verified for the
  -- issuer and this client with nothing but the algorithm that it names: with the configured secret where this
  -- is a symmetric one, and else with a public key made from the parts of a key that the provider has published.
  pub validate_using_local_validation-IsVerified :
      (payload : Json)
      → ((key_id : Bytes) (jwk : Jwk) → jwt.get_jwk key_id jwks ≡ some jwk → Among jwk jwks)
      → validate_using_local_validation jwt c (some jwks) token ≡ some payload
      → (payload ≡ token.payload) × IsVerified
  unfolding validate_using_local_validation
  validate_using_local_validation-IsVerified payload published accepted =
      elim (Option-cases (checked_algorithm jwt token)) [
        | inl e ↦ absurd (ground (arith, e, accepted))
        | inr (alg, e) ↦
            let sound = add_algorithms_to_verifier-Sound jwt jwks alg [] token published tt in
            let (named, plain, typed) = checked_algorithm_lem alg e in
            elim (Option-cases (add_algorithms_to_verifier jwt [] jwks token alg)) [
              | inl d ↦ absurd (ground (arith, e, d, accepted))
              | inr (v, d) ↦ elim (Bool-cases (jwt.verify c.issuer c.client_id v token)) [
                | inl ok ↦ (
                  ground (arith, e, d, ok, accepted),
                  (
                    alg,
                    v,
                    named,
                    plain,
                    typed,
                    subst (SoundOr jwt.access_token_secret jwks alg) d sound,
                    ok,
                  ),
                )
                | inr bad ↦ absurd (ground (arith, e, d, bad, accepted))
              ]
            ]
      ]
