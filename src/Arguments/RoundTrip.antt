-- ===== src/Arguments/RoundTrip.antt =====
-- What `to_argument_list` reads back from `url_encode_body`.
use mathlib.Core.List.{append_assoc}
use irods_client_http_api.Prelude.{
  ℕ, Bytes, List, [], ◌∷◌, ◌++◌, Option, none, some, ◌≡◌, ◌≢◌, refl, ap, ◌∙◌, arith, text, All, map,
}
use irods_client_http_api.Text.{bytes_eq_iff}
use irods_client_http_api.Map.{Map, find, insert_or_assign, find-insert_or_assign, IsMap}
use irods_client_http_api.Arguments.Libraries.{TextLibraries, LibraryLaws, Lacks}
use irods_client_http_api.Arguments.{
  decode, encode, add_pair, add_tokens, to_argument_list, encode_pair, join_pairs, url_encode_body,
}

-- The tokens joined by the delimiter.
abbrev tokens_after : ℕ → Bytes → List Bytes → Bytes
tokens_after d s [] = s
tokens_after d s (t ∷ ts) = s ++ (d ∷ tokens_after d t ts)

tokens_after-append :
    (d : ℕ) (s t : Bytes) (ts : List Bytes)
    → tokens_after d (s ++ (d ∷ t)) ts ≡ s ++ (d ∷ tokens_after d t ts)
tokens_after-append d s t [] = refl
tokens_after-append d s t (u ∷ ts) = append_assoc s (d ∷ t) (d ∷ tokens_after d u ts)

append-cons-ne-nil : (c : ℕ) (s t : Bytes) → s ++ (c ∷ t) ≢ []
append-cons-ne-nil c [] t e = cc
append-cons-ne-nil c (x ∷ s) t e = cc

-- The value as it comes out: each plus sign is replaced by a blank.
abbrev pub received : TextLibraries → Option Bytes → Option Bytes
received lib none = none
received lib (some v) = some (lib.replace_all v (text "+") (text " "))

-- `to_argument_list` does not decode keys, so they must be texts that `encode` leaves alone.
abbrev pub HasPlainKeys : TextLibraries → Map Bytes → Type 0
HasPlainKeys lib args = All (λ p. encode lib p.0 ≡ p.0) args

-- A value read later, or else one from before.
abbrev later_or : TextLibraries → Option Bytes → Option Bytes → Option Bytes
later_or lib none o = o
later_or lib (some v) o = received lib (some v)

later_or-none : (lib : TextLibraries) (o : Option Bytes) → later_or lib o none ≡ received lib o
later_or-none lib none = refl
later_or-none lib (some v) = refl

module _ (lib : TextLibraries) (laws : LibraryLaws lib) where
  open lib use {split, replace_all}

  split-one : (d : ℕ) (s : Bytes) → Lacks d s → split d s ≡ s ∷ []
  split-one d [] h = laws.split-nil d
  split-one d (c ∷ s) h = laws.split-other d c s s [] h.0 (split-one d s h.1)

  split-append : (d : ℕ) (s rest : Bytes) → Lacks d s → split d (s ++ (d ∷ rest)) ≡ s ∷ split d rest
  split-append d [] rest h = laws.split-delimiter d rest
  split-append d (c ∷ s) rest h =
      laws.split-other d c (s ++ (d ∷ rest)) s (split d rest) h.0 (split-append d s rest h.1)

  split-tokens :
      (d : ℕ) (s : Bytes) (ts : List Bytes)
      → Lacks d s
      → All (Lacks d) ts
      → split d (tokens_after d s ts) ≡ s ∷ ts
  split-tokens d s [] h hs = split-one d s h
  split-tokens d s (t ∷ ts) h hs =
      split-append d s (tokens_after d t ts) h ∙ ap (◌∷◌ s) (split-tokens d t ts hs.0 hs.1)

  encode-escape : (s : Bytes) → (e : Bytes) × (lib.curl_easy_escape s ≡ some e) × (encode lib s ≡ e)
  unfolding encode
  encode-escape s = let (e, h) = laws.escape-total s in (e, h, rw (h, encode))

  encode-Lacks-ampersand : (s : Bytes) → Lacks b'&' (encode lib s)
  encode-Lacks-ampersand s = let (e, h, q) = encode-escape s in rw q (laws.escape-ampersand s e h)

  encode-Lacks-equals : (s : Bytes) → Lacks b'=' (encode lib s)
  encode-Lacks-equals s = let (e, h, q) = encode-escape s in rw q (laws.escape-equals s e h)

  pub decode-encode : (s : Bytes) → decode lib (encode lib s) ≡ s
  unfolding decode
  decode-encode s = let (e, h, q) = encode-escape s in rw (q, laws.unescape-escape s e h, decode)

  Lacks-append : (d : ℕ) (s t : Bytes) → Lacks d s → Lacks d t → Lacks d (s ++ t)
  Lacks-append d [] t h k = k
  Lacks-append d (c ∷ s) t h k = (h.0, Lacks-append d s t h.1 k)

  encode_pair-Lacks : (k v : Bytes) → Lacks b'&' (encode_pair lib (k, v))
  unfolding encode_pair
  encode_pair-Lacks k v =
      Lacks-append b'&' (encode lib k) _ (encode-Lacks-ampersand k)
        (omega arith, encode-Lacks-ampersand v)

  join_pairs-tokens :
      (acc : Bytes) (args : Map Bytes)
      → join_pairs lib acc args ≡ tokens_after b'&' acc (map (encode_pair lib) args)
  unfolding join_pairs
  join_pairs-tokens acc [] = refl
  join_pairs-tokens acc (p ∷ args) =
      join_pairs-tokens (acc ++ (b'&' ∷ encode_pair lib p)) args
      ∙ tokens_after-append b'&' acc (encode_pair lib p) (map (encode_pair lib) args)

  encode_pairs-Lack : (args : Map Bytes) → All (Lacks b'&') (map (encode_pair lib) args)
  encode_pairs-Lack [] = tt
  encode_pairs-Lack ((k, v) ∷ args) = (encode_pair-Lacks k v, encode_pairs-Lack args)

  split-encode_pair :
      (k v : Bytes) → encode lib k ≡ k → split b'=' (encode_pair lib (k, v)) ≡ k ∷ encode lib v ∷ []
  unfolding encode_pair
  split-encode_pair k v plain =
      split-append b'=' (encode lib k) (encode lib v) (encode-Lacks-equals k)
      ∙ rw (plain, split-one b'=' (encode lib v) (encode-Lacks-equals v))

  add_pair-encode_pair :
      (kvps : Map Bytes) (k v : Bytes)
      → encode lib k ≡ k
      → add_pair lib kvps (split b'=' (encode_pair lib (k, v)))
        ≡ insert_or_assign k (replace_all v (text "+") (text " ")) kvps
  unfolding add_pair
  add_pair-encode_pair kvps k v plain = rw (split-encode_pair k v plain, decode-encode v)

  find-add_tokens :
      (j : Bytes) (kvps args : Map Bytes)
      → IsMap args
      → HasPlainKeys lib args
      → find j (add_tokens lib kvps (map (encode_pair lib) args))
        ≡ later_or lib (find j args) (find j kvps)
  unfolding add_tokens find
  find-add_tokens j kvps [] m h = refl
  find-add_tokens j kvps ((k, v) ∷ args) m h =
      let value = replace_all v (text "+") (text " ") in
      ap (λ (acc : Map Bytes). find j (add_tokens lib acc (map (encode_pair lib) args)))
        (add_pair-encode_pair kvps k v h.0)
      ∙ find-add_tokens j (insert_or_assign k value kvps) args m.1 h.1
      ∙ ground (arith, find-insert_or_assign k j value kvps, bytes_eq_iff k j, m.0)

  to_argument_list-split :
      (s : Bytes) → s ≢ [] → to_argument_list lib s ≡ add_tokens lib [] (split b'&' s)
  unfolding to_argument_list
  to_argument_list-split [] h = absurd (h refl)
  to_argument_list-split (c ∷ s) h = refl

  encode_pair-tokens-ne-nil :
      (p : Bytes × Bytes) (ts : List Bytes) → tokens_after b'&' (encode_pair lib p) ts ≢ []
  unfolding encode_pair
  encode_pair-tokens-ne-nil (k, v) [] = append-cons-ne-nil b'=' (encode lib k) (encode lib v)
  encode_pair-tokens-ne-nil (k, v) (t ∷ ts) =
      append-cons-ne-nil b'&' (encode_pair lib (k, v)) (tokens_after b'&' t ts)

  -- If libcurl and Boost behave as documented, then reading an encoded map with plain, distinct keys
  -- gives each key its value with every plus sign replaced by a blank, and no other key.
  pub find-to_argument_list-url_encode_body :
      (args : Map Bytes) (body : Bytes) (j : Bytes)
      → IsMap args
      → HasPlainKeys lib args
      → url_encode_body lib args ≡ some body
      → find j (to_argument_list lib body) ≡ received lib (find j args)
  unfolding url_encode_body find
  find-to_argument_list-url_encode_body [] body j m h e = cc
  find-to_argument_list-url_encode_body ((k, v) ∷ args) body j m h e =
      let ts = map (encode_pair lib) args in
      let joined : body ≡ tokens_after b'&' (encode_pair lib (k, v)) ts =
        ground (arith, e, join_pairs-tokens (encode_pair lib (k, v)) args) in
      rw
        (
          joined,
          to_argument_list-split _ (encode_pair-tokens-ne-nil (k, v) ts),
          split-tokens b'&' (encode_pair lib (k, v)) ts (encode_pair-Lacks k v)
              (encode_pairs-Lack args),
        )
        (find-add_tokens j [] ((k, v) ∷ args) m h ∙ later_or-none lib (find j ((k, v) ∷ args)))
