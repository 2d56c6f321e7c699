-- ===== src/Dispatch/Arguments.antt =====
-- Where the arguments of a request come from.
use irods_client_http_api.Prelude.{
  ◌≡◌, ◌⊎◌, inl, inr, true, ◌++◌, some, Bytes, text, arith, Option-cases, Bool-cases,
}
use irods_client_http_api.Map.{Map}
use irods_client_http_api.Http.{Verb, get, post, other_verb}
use irods_client_http_api.Arguments.Libraries.{TextLibraries}
use irods_client_http_api.Arguments.{to_argument_list}
use irods_client_http_api.Multipart.Libraries.{HeaderLibraries}
use irods_client_http_api.Multipart.{
  returned, get_multipart_form_data_boundary, parse_multipart_form_data,
}
use irods_client_http_api.Dispatch.{Url, UrlLibraries, HttpRequest, parse_url}

module _ (texts : TextLibraries) (headers : HeaderLibraries) (urls : UrlLibraries) where
  -- The arguments of a request: those of the query of its URL, or the form in its body, in one of two
  -- formats.
  abbrev pub IsArguments : Verb → HttpRequest → Map Bytes → Type 0
  IsArguments get req args =
      (query : Bytes) × (urls.curl_query (text "http://ignored" ++ req.target) ≡ some query)
      × (args ≡ to_argument_list texts query)
  IsArguments post req args =
      ((urls.istarts_with req.content_type (text "multipart/form-data") ≡ true)
        × ((boundary : Bytes) × (get_multipart_form_data_boundary headers req.content_type
              ≡ some boundary)
            × (parse_multipart_form_data headers boundary req.body ≡ some (returned args))))
      ⊎ ((urls.istarts_with req.content_type (text "application/x-www-form-urlencoded") ≡ true)
          × (args ≡ to_argument_list texts req.body))
  IsArguments other_verb req args = ⊥

  pub parse_url-query :
      (u : Bytes) (url : Url)
      → parse_url texts headers urls u ≡ some url
      → (query : Bytes) × (urls.curl_query u ≡ some query)
        × (url.query ≡ to_argument_list texts query)
  unfolding parse_url
  parse_url-query u url parsed = elim (Bool-cases (urls.curl_url_set u)) [
    | inr c ↦ absurd (ground (arith, c, parsed))
    | inl c ↦ elim (Option-cases (urls.curl_path u)) [
      | inl d ↦ absurd (ground (arith, c, d, parsed))
      | inr (path, d) ↦ elim (Option-cases (urls.curl_query u)) [
        | inl e ↦ absurd (ground (arith, c, d, e, parsed))
        | inr (query, e) ↦ (query, e, ground (arith, c, d, e, parsed))
      ]
    ]
  ]
