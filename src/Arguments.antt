-- ===== src/Arguments.antt =====
-- core/src/common.cpp: `decode`, `encode`, `to_argument_list` and `url_encode_body`.
pub mod RoundTrip
pub mod Libraries
use irods_client_http_api.Prelude.{Bytes, List, [], ◌∷◌, ◌++◌, Option, none, some, text}
use irods_client_http_api.Map.{Map, insert_or_assign}
use Libraries.{TextLibraries}

-- What the code takes from libcurl and Boost.
module _ (lib : TextLibraries) where
  open lib use {curl_easy_unescape, curl_easy_escape, split, replace_all}

  -- The input itself where libcurl returns a null pointer.
  unfoldable pub decode : Bytes → Bytes
  decode v = elim (curl_easy_unescape v) [ none ↦ v | some decoded ↦ decoded ]

  unfoldable pub encode : Bytes → Bytes
  encode v = elim (curl_easy_escape v) [ none ↦ v | some encoded ↦ encoded ]

  -- The body of the loop over the tokens; the parts of one token are matched.
  unfoldable pub add_pair : Map Bytes → List Bytes → Map Bytes
  unfolding decode
  add_pair kvps (k ∷ v ∷ []) =
      insert_or_assign k (replace_all (decode v) (text "+") (text " ")) kvps
  add_pair kvps (k ∷ []) = insert_or_assign k [] kvps
  add_pair kvps _ = kvps

  -- The loop.
  unfoldable pub add_tokens : Map Bytes → List Bytes → Map Bytes
  unfolding add_pair
  add_tokens kvps [] = kvps
  add_tokens kvps (t ∷ tokens) = add_tokens (add_pair kvps (split b'=' t)) tokens

  unfoldable pub to_argument_list : Bytes → Map Bytes
  unfolding add_tokens
  to_argument_list [] = []
  to_argument_list (c ∷ s) = add_tokens [] (split b'&' (c ∷ s))

  unfoldable pub encode_pair : Bytes × Bytes → Bytes
  unfolding encode
  encode_pair (k, v) = encode k ++ (b'=' ∷ encode v)

  -- The reduction, from the second pair on.
  unfoldable pub join_pairs : Bytes → Map Bytes → Bytes
  unfolding encode_pair
  join_pairs acc [] = acc
  join_pairs acc (p ∷ args) = join_pairs (acc ++ (b'&' ∷ encode_pair p)) args

  -- `none` where the code dereferences the end of an empty map.
  unfoldable pub url_encode_body : Map Bytes → Option Bytes
  unfolding join_pairs
  url_encode_body [] = none
  url_encode_body (p ∷ args) = some (join_pairs (encode_pair p) args)
