-- ===== src/Openid/Allowed.antt =====
-- Which algorithms and keys may verify a token.
use irods_client_http_api.Prelude.{
  ◌≡◌, refl, ◌⊎◌, inl, inr, Bool, true, false, ◌&&◌, ◌||◌, List, [], ◌∷◌, ◌++◌, Option, none, some,
  Bytes, text, arith, take, drop, if◌then◌else◌, Bool-cases, Option-cases, subst, All, sym, ap, ◌∙◌,
  take-append-drop,
}
use irods_client_http_api.Text.{bytes_eq, bytes_eq_iff}
use irods_client_http_api.Openid.Algorithms.{
  Family, hs, rs, ps, es, Bits, b256, b384, b512, Jwk, Jwt, Key, secret, rsa_key, ec_key, Verifier,
  JwtLibraries, bits_of, allow, algorithm_specifics, may_verify, fits, rsa_part, ec_part,
  add_symmetric_algorithm, add_asymmetric_algorithm_from_jwk, consider_jwk, consider_jwks,
  add_by_family, add_algorithms_to_verifier,
}

abbrev pub family_name : Family → Bytes
family_name hs = text "HS"
family_name rs = text "RS"
family_name ps = text "PS"
family_name es = text "ES"

abbrev pub bits_name : Bits → Bytes
bits_name b256 = text "256"
bits_name b384 = text "384"
bits_name b512 = text "512"

-- One of these keys.
abbrev pub Among : Jwk → List Jwk → Type 0
Among jwk [] = ⊥
Among jwk (k ∷ ks) = (jwk ≡ k) ⊎ Among jwk ks

-- The key is of the kind that the family needs: for the symmetric algorithms the configured secret, and for the others a
-- public key made from what the provider has published.
abbrev pub IsTrusted : Option Bytes → List Jwk → Family → Key → Type 0
IsTrusted configured jwks hs key = (s : Bytes) × (configured ≡ some s) × (key ≡ secret s)
IsTrusted configured jwks rs key =
    (jwk : Jwk) × (n : Bytes) × (e : Bytes) × Among jwk jwks
    × (jwk.modulus ≡ some n)
    × (jwk.exponent ≡ some e)
    × (key ≡ rsa_key n e)
IsTrusted configured jwks ps key =
    (jwk : Jwk) × (n : Bytes) × (e : Bytes) × Among jwk jwks
    × (jwk.modulus ≡ some n)
    × (jwk.exponent ≡ some e)
    × (key ≡ rsa_key n e)
IsTrusted configured jwks es key =
    (jwk : Jwk) × (crv : Bytes) × (x : Bytes) × (y : Bytes) × Among jwk jwks
    × (jwk.curve ≡ some crv)
    × (jwk.x ≡ some x)
    × (jwk.y ≡ some y)
    × (key ≡ ec_key crv x y)

-- Each algorithm is the one that the token names, with a key that is trusted.
abbrev pub IsSound : Option Bytes → List Jwk → Bytes → Verifier → Type 0
IsSound configured jwks alg v =
    All
      (λ (a : Family × Bits × Key).
        (alg ≡ family_name a.0 ++ bits_name a.1) × IsTrusted configured jwks a.0 a.2)
      v

bits_of_lem : (s : Bytes) (b : Bits) → bits_of s ≡ some b → s ≡ bits_name b
bits_of_lem s b e = elim (Bool-cases (bytes_eq s (text "256"))) [
  | inl x ↦ ground (arith, e, x, (bytes_eq_iff s (text "256")).0 x)
  | inr x ↦ elim (Bool-cases (bytes_eq s (text "384"))) [
    | inl y ↦ ground (arith, e, x, y, (bytes_eq_iff s (text "384")).0 y)
    | inr y ↦ elim (Bool-cases (bytes_eq s (text "512"))) [
      | inl z ↦ ground (arith, e, x, y, z, (bytes_eq_iff s (text "512")).0 z)
      | inr z ↦ absurd (ground (arith, e, x, y, z))
    ]
  ]
]

take_two :
    (alg specifics family : Bytes)
    → algorithm_specifics alg ≡ some specifics
    → bytes_eq (take 2 alg) family ≡ true
    → alg ≡ family ++ specifics
unfolding algorithm_specifics
take_two alg specifics family e f =
    let front = (bytes_eq_iff (take 2 alg) family).0 f in
    let back : drop 2 alg ≡ specifics = ground (arith, e) in
    sym (take-append-drop 2 alg)
    ∙ ap (λ (b : Bytes). b ++ drop 2 alg) front
    ∙ ap (λ (b : Bytes). family ++ b) back

module _ (configured : Option Bytes) (jwks : List Jwk) (alg : Bytes) where
  IsSound-append :
      (v w : Verifier)
      → IsSound configured jwks alg v
      → IsSound configured jwks alg w
      → IsSound configured jwks alg (v ++ w)
  IsSound-append [] w sound others = others
  IsSound-append (a ∷ v) w (first, rest) others = (first, IsSound-append v w rest others)

  allow-IsSound :
      (v : Verifier) (family : Family) (specifics : Bytes) (key : Key)
      → IsSound configured jwks alg v
      → alg ≡ family_name family ++ specifics
      → IsTrusted configured jwks family key
      → IsSound configured jwks alg (allow v family (bits_of specifics) key)
  unfolding allow
  allow-IsSound v family specifics key sound named trusted =
      elim (Option-cases (bits_of specifics)) [
        | inl e ↦ rw e sound
        | inr (b, e) ↦
            let same = bits_of_lem specifics b e in
            rw e (
              IsSound-append v ((family, b, key) ∷ []) sound
                ((subst (λ (s : Bytes). alg ≡ family_name family ++ s) same named, trusted), tt))
      ]

  -- Whatever a step leaves is sound.
  abbrev pub SoundOr : Option Verifier → Type 0
  SoundOr none = Unit
  SoundOr (some v) = IsSound configured jwks alg v

module _ (jwt : JwtLibraries) (jwks : List Jwk) (alg : Bytes) where
  abbrev pub Sound : Option Verifier → Type 0
  Sound = SoundOr jwt.access_token_secret jwks alg

  -- What a step leaves is sound if it is the same as another one that is.
  Sound-same : (a b : Option Verifier) → a ≡ b → Sound b → Sound a
  Sound-same a b e sound = subst Sound (sym e) sound

  add_symmetric_algorithm-Sound :
      (v : Verifier) → Sound (some v) → Sound (add_symmetric_algorithm jwt v alg)
  unfolding add_symmetric_algorithm
  add_symmetric_algorithm-Sound v sound = elim (Option-cases (algorithm_specifics alg)) [
    | inl e ↦ Sound-same _ none (ground (arith, e)) tt
    | inr (specifics, e) ↦ elim (Option-cases jwt.access_token_secret) [
      | inl n ↦ Sound-same _ (some v) (ground (arith, e, n)) sound
      | inr (s, n) ↦ elim (Bool-cases (bytes_eq (take 2 alg) (text "HS"))) [
        | inl is_hs ↦
            Sound-same _ (some (allow v hs (bits_of specifics) (secret s)))
              (ground (arith, e, n, is_hs))
              (allow-IsSound jwt.access_token_secret jwks alg v hs specifics (secret s) sound
                (take_two alg specifics (text "HS") e is_hs) (s, n, refl))
        | inr not_hs ↦ Sound-same _ (some v) (ground (arith, e, n, not_hs)) sound
      ]
    ]
  ]

  rsa_part-Sound :
      (v : Verifier) (family : Family) (specifics : Bytes) (modulus exponent : Option Bytes)
      → ((n e : Bytes)
          → modulus ≡ some n
          → exponent ≡ some e
          → IsTrusted jwt.access_token_secret jwks family (rsa_key n e))
      → Sound (some v)
      → alg ≡ family_name family ++ specifics
      → Sound (rsa_part jwt v family (bits_of specifics) modulus exponent)
  unfolding rsa_part
  rsa_part-Sound v family specifics none exponent trusted sound named = tt
  rsa_part-Sound v family specifics (some n) none trusted sound named = tt
  rsa_part-Sound v family specifics (some n) (some e) trusted sound named =
      elim (Bool-cases (jwt.has_rsa_key n e)) [
        | inl has ↦ rw has (
            allow-IsSound jwt.access_token_secret jwks alg v family specifics (rsa_key n e) sound
              named (trusted n e refl refl))
        | inr has ↦ rw has tt
      ]

  ec_part-Sound :
      (v : Verifier) (specifics : Bytes) (crv x y : Option Bytes)
      → ((a b c : Bytes)
          → crv ≡ some a
          → x ≡ some b
          → y ≡ some c
          → IsTrusted jwt.access_token_secret jwks es (ec_key a b c))
      → Sound (some v)
      → alg ≡ family_name es ++ specifics
      → Sound (ec_part jwt v (bits_of specifics) crv x y)
  unfolding ec_part
  ec_part-Sound v specifics none x y trusted sound named = tt
  ec_part-Sound v specifics (some a) none y trusted sound named = tt
  ec_part-Sound v specifics (some a) (some b) none trusted sound named = tt
  ec_part-Sound v specifics (some a) (some b) (some c) trusted sound named =
      elim (Bool-cases (jwt.has_ec_key a b c)) [
        | inl has ↦ rw has (
            allow-IsSound jwt.access_token_secret jwks alg v es specifics (ec_key a b c) sound named
              (trusted a b c refl refl refl))
        | inr has ↦ rw has tt
      ]

  add_asymmetric-Sound :
      (v : Verifier) (jwk : Jwk)
      → Among jwk jwks
      → Sound (some v)
      → Sound (add_asymmetric_algorithm_from_jwk jwt v jwk alg)
  unfolding add_asymmetric_algorithm_from_jwk
  add_asymmetric-Sound v jwk among sound = elim (Option-cases (algorithm_specifics alg)) [
    | inl e ↦ Sound-same _ none (ground (arith, e)) tt
    | inr (specifics, e) ↦ elim (Bool-cases (bytes_eq (take 2 alg) (text "RS"))) [
      | inl is_rs ↦
          Sound-same _ (rsa_part jwt v rs (bits_of specifics) jwk.modulus jwk.exponent)
            (ground (arith, e, is_rs))
            (rsa_part-Sound v rs specifics jwk.modulus jwk.exponent
              (λ n x p q. (jwk, n, x, among, p, q, refl)) sound
              (take_two alg specifics (text "RS") e is_rs))
      | inr not_rs ↦ elim (Bool-cases (bytes_eq (take 2 alg) (text "PS"))) [
        | inl is_ps ↦
            Sound-same _ (rsa_part jwt v ps (bits_of specifics) jwk.modulus jwk.exponent)
              (ground (arith, e, not_rs, is_ps))
              (rsa_part-Sound v ps specifics jwk.modulus jwk.exponent
                (λ n x p q. (jwk, n, x, among, p, q, refl)) sound
                (take_two alg specifics (text "PS") e is_ps))
        | inr not_ps ↦ elim (Bool-cases (bytes_eq (take 2 alg) (text "ES"))) [
          | inl is_es ↦
              Sound-same _ (ec_part jwt v (bits_of specifics) jwk.curve jwk.x jwk.y)
                (ground (arith, e, not_rs, not_ps, is_es))
                (ec_part-Sound v specifics jwk.curve jwk.x jwk.y
                  (λ a b c p q r. (jwk, a, b, c, among, p, q, r, refl)) sound
                  (take_two alg specifics (text "ES") e is_es))
          | inr not_es ↦ Sound-same _ (some v) (ground (arith, e, not_rs, not_ps, not_es)) sound
        ]
      ]
    ]
  ]

  Sound-if : (b : Bool) (x y : Option Verifier) → Sound x → Sound y → Sound (if b then x else y)
  Sound-if true x y p q = p
  Sound-if false x y p q = q

  consider_jwk-Sound :
      (v : Verifier) (jwk : Jwk) (search_string : Bytes)
      → Among jwk jwks
      → Sound (some v)
      → Sound (consider_jwk jwt v jwk alg search_string)
  unfolding consider_jwk
  consider_jwk-Sound v jwk search_string among sound =
      Sound-if
        (may_verify jwk.use_of_key jwk.key_operations
          && fits jwk.algorithm jwk.key_type alg search_string)
        (add_asymmetric_algorithm_from_jwk jwt v jwk alg) (some v)
        (add_asymmetric-Sound v jwk among sound) sound

  consider_jwks-Sound :
      (v : Verifier) (ks : List Jwk) (search_string : Bytes)
      → ((jwk : Jwk) → Among jwk ks → Among jwk jwks)
      → Sound (some v)
      → Sound (consider_jwks jwt v ks alg search_string)
  unfolding consider_jwks
  consider_jwks-Sound v [] search_string published sound = sound
  consider_jwks-Sound v (jwk ∷ ks) search_string published sound =
      let first = consider_jwk-Sound v jwk search_string (published jwk (inl refl)) sound in
      elim (Option-cases (consider_jwk jwt v jwk alg search_string)) [
        | inl e ↦ Sound-same _ none (ground (arith, e)) tt
        | inr (w, e) ↦ Sound-same _ (consider_jwks jwt w ks alg search_string) (ground (arith, e)) (
            consider_jwks-Sound w ks search_string (λ k among. published k (inr among))
              (subst Sound e first))
      ]

  add_by_family-Sound : (v : Verifier) → Sound (some v) → Sound (add_by_family jwt v jwks alg)
  unfolding add_by_family
  add_by_family-Sound v sound =
      let is_rsa = bytes_eq (take 2 alg) (text "RS") || bytes_eq (take 2 alg) (text "PS") in
      let is_es = bytes_eq (take 2 alg) (text "ES") in
      let is_hs = bytes_eq (take 2 alg) (text "HS") in
      let symmetric = if is_hs then add_symmetric_algorithm jwt v alg else some v in
      let by_curve = consider_jwks jwt v jwks alg (text "EC") in
      Sound-if is_rsa (consider_jwks jwt v jwks alg (text "RSA"))
        (if is_es then by_curve else symmetric)
        (consider_jwks-Sound v jwks (text "RSA") (λ k among. among) sound)
        (Sound-if is_es by_curve symmetric
          (consider_jwks-Sound v jwks (text "EC") (λ k among. among) sound)
          (Sound-if is_hs (add_symmetric_algorithm jwt v alg) (some v)
            (add_symmetric_algorithm-Sound v sound) sound))

  pub add_algorithms_to_verifier-Sound :
      (v : Verifier) (token : Jwt)
      → ((key_id : Bytes) (jwk : Jwk) → jwt.get_jwk key_id jwks ≡ some jwk → Among jwk jwks)
      → Sound (some v)
      → Sound (add_algorithms_to_verifier jwt v jwks token alg)
  unfolding add_algorithms_to_verifier
  add_algorithms_to_verifier-Sound v token published sound = elim (Option-cases token.key_id) [
    | inl no_id ↦
        Sound-same _ (add_by_family jwt v jwks alg) (ground (arith, no_id))
          (add_by_family-Sound v sound)
    | inr (key_id, has_id) ↦ elim (Option-cases (jwt.get_jwk key_id jwks)) [
      | inl unknown ↦
          Sound-same _ (add_by_family jwt v jwks alg) (ground (arith, has_id, unknown))
            (add_by_family-Sound v sound)
      | inr (jwk, known) ↦
          Sound-same _ (add_asymmetric_algorithm_from_jwk jwt v jwk alg)
            (ground (arith, has_id, known))
            (add_asymmetric-Sound v jwk (published key_id jwk known) sound)
    ]
  ]
