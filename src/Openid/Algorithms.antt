-- ===== src/Openid/Algorithms.antt =====
-- `validate_using_local_validation`: the checks of a token, and the algorithms that may verify it.
use irods_client_http_api.Prelude.{
  Bool, true, false, not, ◌&&◌, ◌||◌, List, [], ◌∷◌, ◌++◌, Option, none, some, Bytes, text,
  if◌then◌else◌, ltb, length, take, drop,
}
use irods_client_http_api.Text.{bytes_eq}
use irods_client_http_api.Http.{Json}
use irods_client_http_api.Openid.Introspection.{Client}

-- The family and the number of a signing algorithm.
pub data Family : Type 0 where
  hs rs ps es : Family

pub data Bits : Type 0 where
  b256 b384 b512 : Bits

-- A JSON Web Key, as far as the code looks at it.
pub record Jwk : Type 0 where
  pub use_of_key : Option Bytes
  pub key_operations : Option (List Bytes)
  pub algorithm : Option Bytes
  pub key_type : Option Bytes
  pub modulus : Option Bytes
  pub exponent : Option Bytes
  pub curve : Option Bytes
  pub x : Option Bytes
  pub y : Option Bytes

-- A decoded JSON Web Token.
pub record Jwt : Type 0 where
  pub type : Option Bytes
  pub has_enc : Bool
  pub content_type : Option Bytes
  pub algorithm : Option Bytes
  pub has_crit : Bool
  pub key_id : Option Bytes
  pub payload : Json

-- What verifies a signature: a secret, or a public key that was made from parts.
pub data Key : Type 0 where
  secret : Bytes → Key
  rsa_key : Bytes → Bytes → Key
  ec_key : Bytes → Bytes → Bytes → Key

-- The calls of `allow_algorithm`, in their order.
abbrev pub Verifier : Type 0
Verifier = List (Family × Bits × Key)

-- jwt-cpp and Boost, and the configuration. A key that cannot be made is an exception.
pub record JwtLibraries : Type 0 where
  pub to_lower_copy : Bytes → Bytes
  pub has_rsa_key : Bytes → Bytes → Bool
  pub has_ec_key : Bytes → Bytes → Bytes → Bool
  -- `has_jwk` and `get_jwk`.
  pub get_jwk : Bytes → List Jwk → Option Jwk
  -- "access_token_secret", decoded.
  pub access_token_secret : Option Bytes
  -- `verify`, with the issuer and the audience; true is no error.
  pub verify : Bytes → Bytes → Verifier → Jwt → Bool

abbrev pub bits_of : Bytes → Option Bits
bits_of s =
    if bytes_eq s (text "256")
    then some b256
    else if bytes_eq s (text "384")
    then some b384
    else if bytes_eq s (text "512")
    then some b512
    else none

-- An unsupported number adds nothing.
unfoldable pub allow : Verifier → Family → Option Bits → Key → Verifier
allow v family none key = v
allow v family (some b) key = v ++ ((family, b, key) ∷ [])

-- `_alg.substr(2)`, which throws where there is less.
unfoldable pub algorithm_specifics : Bytes → Option Bytes
algorithm_specifics alg = if ltb (length alg) 2 then none else some (drop 2 alg)

abbrev pub any_eq : Bytes → List Bytes → Bool
any_eq s [] = false
any_eq s (t ∷ ts) = bytes_eq t s || any_eq s ts

-- "use" is for signatures where it is there, and "key_ops" has "verify".
abbrev pub may_verify : Option Bytes → Option (List Bytes) → Bool
may_verify none none = true
may_verify (some use_of_key) none = bytes_eq use_of_key (text "sig")
may_verify none (some ops) = any_eq (text "verify") ops
may_verify (some use_of_key) (some ops) =
    bytes_eq use_of_key (text "sig") && any_eq (text "verify") ops

abbrev eq_or_false : Option Bytes → Bytes → Bool
eq_or_false none s = false
eq_or_false (some t) s = bytes_eq t s

-- "alg" decides where it is there, and else "kty".
abbrev pub fits : Option Bytes → Option Bytes → Bytes → Bytes → Bool
fits (some a) kty alg search_string = bytes_eq a alg
fits none kty alg search_string = eq_or_false kty search_string

module _ (jwt : JwtLibraries) where
  unfoldable pub add_symmetric_algorithm : Verifier → Bytes → Option Verifier
  unfolding algorithm_specifics allow
  add_symmetric_algorithm v alg = elim (algorithm_specifics alg) [
    | none ↦ none
    | some specifics ↦ elim jwt.access_token_secret [
      | none ↦ some v
      | some key ↦
          if bytes_eq (take 2 alg) (text "HS")
          then some (allow v hs (bits_of specifics) (secret key))
          else some v
    ]
  ]

  -- The attributes are taken from the key in their order; one that is missing is an exception.
  unfoldable pub rsa_part :
      Verifier → Family → Option Bits → Option Bytes → Option Bytes → Option Verifier
  unfolding allow
  rsa_part v family b (some modulus) (some exponent) =
      if jwt.has_rsa_key modulus exponent
      then some (allow v family b (rsa_key modulus exponent))
      else none
  rsa_part v family b _ _ = none

  unfoldable pub ec_part :
      Verifier → Option Bits → Option Bytes → Option Bytes → Option Bytes → Option Verifier
  unfolding allow
  ec_part v b (some crv) (some x) (some y) =
      if jwt.has_ec_key crv x y then some (allow v es b (ec_key crv x y)) else none
  ec_part v b _ _ _ = none

  unfoldable pub add_asymmetric_algorithm_from_jwk : Verifier → Jwk → Bytes → Option Verifier
  unfolding algorithm_specifics rsa_part ec_part
  add_asymmetric_algorithm_from_jwk v jwk alg = elim (algorithm_specifics alg) [
    | none ↦ none
    | some specifics ↦
        if bytes_eq (take 2 alg) (text "RS")
        then rsa_part v rs (bits_of specifics) jwk.modulus jwk.exponent
        else if bytes_eq (take 2 alg) (text "PS")
        then rsa_part v ps (bits_of specifics) jwk.modulus jwk.exponent
        else if bytes_eq (take 2 alg) (text "ES")
        then ec_part v (bits_of specifics) jwk.curve jwk.x jwk.y
        else some v
  ]

  -- The body of the loop over the key set.
  unfoldable pub consider_jwk : Verifier → Jwk → Bytes → Bytes → Option Verifier
  unfolding add_asymmetric_algorithm_from_jwk
  consider_jwk v jwk alg search_string =
      if may_verify jwk.use_of_key jwk.key_operations
        && fits jwk.algorithm jwk.key_type alg search_string
      then add_asymmetric_algorithm_from_jwk v jwk alg
      else some v

  unfoldable pub consider_jwks : Verifier → List Jwk → Bytes → Bytes → Option Verifier
  unfolding consider_jwk
  consider_jwks v [] alg search_string = some v
  consider_jwks v (jwk ∷ jwks) alg search_string = elim (consider_jwk v jwk alg search_string) [
    | none ↦ none
    | some w ↦ consider_jwks w jwks alg search_string
  ]

  -- Without a usable key identifier: by the family of the algorithm.
  unfoldable pub add_by_family : Verifier → List Jwk → Bytes → Option Verifier
  unfolding consider_jwks add_symmetric_algorithm
  add_by_family v jwks alg =
      if bytes_eq (take 2 alg) (text "RS") || bytes_eq (take 2 alg) (text "PS")
      then consider_jwks v jwks alg (text "RSA")
      else if bytes_eq (take 2 alg) (text "ES")
      then consider_jwks v jwks alg (text "EC")
      else if bytes_eq (take 2 alg) (text "HS")
      then add_symmetric_algorithm v alg
      else some v

  abbrev wanted_jwk : Option Bytes → List Jwk → Option Jwk
  wanted_jwk none jwks = none
  wanted_jwk (some key_id) jwks = jwt.get_jwk key_id jwks

  unfoldable pub add_algorithms_to_verifier : Verifier → List Jwk → Jwt → Bytes → Option Verifier
  unfolding add_asymmetric_algorithm_from_jwk add_by_family
  add_algorithms_to_verifier v jwks token alg = elim (wanted_jwk token.key_id jwks) [
    | none ↦ add_by_family v jwks alg
    | some jwk ↦ add_asymmetric_algorithm_from_jwk v jwk alg
  ]

  -- "typ" is that of an access token, in any case of its letters.
  unfoldable pub is_access_token : Option Bytes → Bool
  is_access_token none = false
  is_access_token (some type) =
      bytes_eq (jwt.to_lower_copy type) (text "at+jwt")
      || bytes_eq (jwt.to_lower_copy type) (text "application/at+jwt")
      || bytes_eq (jwt.to_lower_copy type) (text "jwt")

  unfoldable pub is_nested : Option Bytes → Bool
  is_nested none = false
  is_nested (some type) = bytes_eq (jwt.to_lower_copy type) (text "jwt")

  -- The algorithm of a token that passes the checks before the verification.
  unfoldable pub checked_algorithm : Jwt → Option Bytes
  unfolding is_access_token is_nested
  checked_algorithm token =
      if is_access_token token.type && not token.has_enc && not (is_nested token.content_type)
      then elim token.algorithm [
        | none ↦ none
        | some alg ↦ if bytes_eq alg (text "none") || token.has_crit then none else some alg
      ]
      else none

  -- `jwks` is what the provider has published; `none` is that it cannot be had.
  unfoldable pub validate_using_local_validation : Client → Option (List Jwk) → Jwt → Option Json
  unfolding checked_algorithm is_access_token is_nested add_algorithms_to_verifier
  validate_using_local_validation c none token = none
  validate_using_local_validation c (some jwks) token = elim (checked_algorithm token) [
    | none ↦ none
    | some alg ↦ elim (add_algorithms_to_verifier [] jwks token alg) [
      | none ↦ none
      | some v ↦ if jwt.verify c.issuer c.client_id v token then some token.payload else none
    ]
  ]
