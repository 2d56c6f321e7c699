-- ===== src/Dispatch/Laws.antt =====
-- Which requests reach a handler, and with what.
use irods_client_http_api.Prelude.{
  ◌<◌, ◌≡◌, refl, ap, sym, ◌∙◌, ◌⊎◌, inl, inr, true, List, [], ◌∷◌, ◌++◌, Option, none, some, Bytes,
  text, length, arith, All, subst, Option-cases, Bool-cases,
}
use irods_client_http_api.Map.{Map, find}
use irods_client_http_api.Http.Exec.{irods_exception}
use irods_client_http_api.Http.{
  Verb, get, post, other_verb, bad_request, method_not_allowed, internal_server_error, fail,
}
use irods_client_http_api.Arguments.Libraries.{TextLibraries}
use irods_client_http_api.Arguments.{to_argument_list}
use irods_client_http_api.Multipart.Libraries.{HeaderLibraries}
use irods_client_http_api.Multipart.{get_multipart_form_data_boundary, size_mod, boundary_start_of}
use irods_client_http_api.Multipart.Progress.{parse_multipart_form_data_total}
use irods_client_http_api.Multipart.Layout.{Part, IsPart, form_text, add_parts}
use irods_client_http_api.Multipart.RoundTrip.{parse_multipart_form_data-form_text}
use irods_client_http_api.Dispatch.Arguments.{IsArguments, parse_url-query}
use irods_client_http_api.Dispatch.{
  UrlLibraries, HttpRequest, Dispatched, respond, run_handler, raised, read_ok, answer, parse_url,
  get_url_path, call_operation, execute_get, execute_post, execute_operation, on_read_body,
}

module _ {H : Type 0} where
  -- The table that serves a verb.
  abbrev table_for : Verb → Map H → Map H → Map H
  table_for get op_table_get op_table_post = op_table_get
  table_for post op_table_get op_table_post = op_table_post
  table_for other_verb op_table_get op_table_post = []

  module _ (texts : TextLibraries) (headers : HeaderLibraries) (urls : UrlLibraries) where
    -- A refusal is 400 or 405; a handler is the table's for the operation that the arguments of the
    -- request name, and gets these arguments; an exception comes of a GET.
    abbrev pub Dispatches : Verb → HttpRequest → Map H → Dispatched H → Type 0
    Dispatches verb req table (respond r) = (r ≡ fail bad_request) ⊎ (r ≡ fail method_not_allowed)
    Dispatches verb req table (run_handler h args) =
        IsArguments texts headers urls verb req args
        × ((op : Bytes) × (find (text "op") args ≡ some op) × (find op table ≡ some h))
    Dispatches verb req table (raised e) = verb ≡ get

    Dispatches-of_verb :
        (verb verb' : Verb) (req : HttpRequest) (op_table_get op_table_post : Map H)
        (d : Dispatched H)
        → verb ≡ verb'
        → Dispatches verb' req (table_for verb' op_table_get op_table_post) d
        → Dispatches verb req (table_for verb op_table_get op_table_post) d
    Dispatches-of_verb verb verb' req op_table_get op_table_post d e h =
        subst (λ v. Dispatches v req (table_for v op_table_get op_table_post) d) (sym e) h

    call_operation-Dispatches :
        (verb : Verb) (req : HttpRequest) (table : Map H) (args : Map Bytes)
        → IsArguments texts headers urls verb req args
        → Dispatches verb req table (call_operation texts headers urls table args)
    unfolding call_operation
    call_operation-Dispatches verb req table args given =
        elim (Option-cases (find (text "op") args)) [
          | inl e ↦ rw (e, call_operation) (inl refl)
          | inr (op, e) ↦ elim (Option-cases (find op table)) [
            | inl f ↦ rw (e, call_operation) (rw f (inl refl))
            | inr (h, f) ↦ rw (e, call_operation) (rw f (given, (op, e, f)))
          ]
        ]

    call_operation-found :
        (table : Map H) (args : Map Bytes) (op : Bytes) (h : H)
        → find (text "op") args ≡ some op
        → find op table ≡ some h
        → call_operation texts headers urls table args ≡ run_handler h args
    unfolding call_operation
    call_operation-found table args op h e f = rw (e, call_operation) (rw f refl)

    execute_get-Dispatches :
        (table : Map H) (req : HttpRequest)
        → Dispatches get req table (execute_get texts headers urls table req)
    unfolding execute_get
    execute_get-Dispatches [] req = inr refl
    execute_get-Dispatches (p ∷ table) req =
        elim (Option-cases (parse_url texts headers urls (text "http://ignored" ++ req.target))) [
          | inl e ↦ rw (e, execute_get) refl
          | inr (url, e) ↦
              let given =
                parse_url-query texts headers urls (text "http://ignored" ++ req.target) url e in
              rw (e, execute_get) (call_operation-Dispatches get req (p ∷ table) url.query given)
        ]

    execute_post-Dispatches :
        (table : Map H) (req : HttpRequest)
        → length req.body < size_mod
        → (d : Dispatched H) × (execute_post texts headers urls table req ≡ some d)
          × Dispatches post req table d
    unfolding execute_post
    execute_post-Dispatches [] req small = (respond (fail method_not_allowed), refl, inr refl)
    execute_post-Dispatches (p ∷ table) req small =
        elim (Bool-cases (urls.istarts_with req.content_type (text "multipart/form-data"))) [
          | inl e ↦
              elim (Option-cases (get_multipart_form_data_boundary headers req.content_type)) [
                | inl f ↦ (respond (fail bad_request), rw (e, execute_post) (rw f refl), inl refl)
                | inr (boundary, f) ↦
                    let (args, g) =
                      parse_multipart_form_data_total headers boundary req.body small in
                    (
                      call_operation texts headers urls (p ∷ table) args,
                      rw (e, execute_post) (rw f (rw g refl)),
                      call_operation-Dispatches post req (p ∷ table) args
                          (inl (e, (boundary, f, g))),
                    )
              ]
          | inr e ↦
              elim (Bool-cases
                (urls.istarts_with req.content_type (text "application/x-www-form-urlencoded"))) [
                  | inl f ↦ (
                    call_operation texts headers urls (p ∷ table) (to_argument_list texts req.body),
                    rw (e, execute_post) (rw f refl),
                    call_operation-Dispatches post req (p ∷ table) (to_argument_list texts req.body)
                        (inr (f, refl)),
                  )
                  | inr f ↦ (respond (fail bad_request), rw (e, execute_post) (rw f refl), inl refl)
                ]
        ]

    execute_operation-get :
        (op_table_get op_table_post : Map H) (req : HttpRequest)
        → req.method ≡ get
        → execute_operation texts headers urls op_table_get op_table_post req
          ≡ some (execute_get texts headers urls op_table_get req)
    unfolding execute_operation
    execute_operation-get op_table_get op_table_post req e = rw (e, execute_operation) refl

    execute_operation-post :
        (op_table_get op_table_post : Map H) (req : HttpRequest)
        → req.method ≡ post
        → execute_operation texts headers urls op_table_get op_table_post req
          ≡ execute_post texts headers urls op_table_post req
    unfolding execute_operation
    execute_operation-post op_table_get op_table_post req e = rw (e, execute_operation) refl

    -- Every request with a body shorter than the address space is decided: it is refused with 400
    -- or 405, or goes to the handler that the table of its verb has for the operation that its
    -- arguments name, with these arguments: for a GET those of the query of its URL, for a POST those
    -- of the form in its body. Only a GET can end with an exception.
    pub execute_operation-Dispatches :
        (op_table_get op_table_post : Map H) (req : HttpRequest)
        → length req.body < size_mod
        → (d : Dispatched H) × (execute_operation texts headers urls op_table_get op_table_post req
            ≡ some d)
          × Dispatches req.method req (table_for req.method op_table_get op_table_post) d
    unfolding execute_operation
    execute_operation-Dispatches op_table_get op_table_post req small = decided req.method refl
      where
        decided :
            (verb : Verb)
            → req.method ≡ verb
            → (d : Dispatched H) × (execute_operation texts headers urls op_table_get op_table_post
                  req
                ≡ some d)
              × Dispatches req.method req (table_for req.method op_table_get op_table_post) d
        decided get e = (
          execute_get texts headers urls op_table_get req,
          execute_operation-get op_table_get op_table_post req e,
          Dispatches-of_verb req.method get req op_table_get op_table_post _ e
              (execute_get-Dispatches op_table_get req),
        )
        decided post e =
            let (d, f, g) = execute_post-Dispatches op_table_post req small in
            (
              d,
              execute_operation-post op_table_get op_table_post req e ∙ f,
              Dispatches-of_verb req.method post req op_table_get op_table_post d e g,
            )
        decided other_verb e =
            (respond (fail method_not_allowed), rw (e, execute_operation) refl, inr refl)

    execute_post-form_text :
        (p : Bytes × H) (table : Map H) (req : HttpRequest) (boundary epilogue : Bytes)
        (parts : List Part)
        → urls.istarts_with req.content_type (text "multipart/form-data") ≡ true
        → get_multipart_form_data_boundary headers req.content_type ≡ some boundary
        → req.body ≡ form_text (boundary_start_of boundary) parts epilogue
        → All (IsPart (boundary_start_of boundary)) parts
        → length req.body < size_mod
        → execute_post texts headers urls (p ∷ table) req
          ≡ some (call_operation texts headers urls (p ∷ table) (add_parts headers [] parts))
    unfolding execute_post
    execute_post-form_text p table req boundary epilogue parts multipart named laid_out fit small =
        let parsed =
          parse_multipart_form_data-form_text headers boundary parts epilogue fit
            (subst (λ (b : Bytes). length b < size_mod) laid_out small) in
        rw (multipart, execute_post) (rw named (rw laid_out (rw parsed refl)))

    -- A POST whose content type announces a form and names the boundary, and whose body is laid out
    -- as RFC 7578 has it, reaches the handler of the operation that its part "op" names, with the
    -- bodies of all parts as arguments.
    pub execute_operation-form_text :
        (op_table_get op_table_post : Map H) (req : HttpRequest) (boundary epilogue op : Bytes)
        (parts : List Part) (h : H)
        → req.method ≡ post
        → urls.istarts_with req.content_type (text "multipart/form-data") ≡ true
        → get_multipart_form_data_boundary headers req.content_type ≡ some boundary
        → req.body ≡ form_text (boundary_start_of boundary) parts epilogue
        → All (IsPart (boundary_start_of boundary)) parts
        → length req.body < size_mod
        → find (text "op") (add_parts headers [] parts) ≡ some op
        → find op op_table_post ≡ some h
        → execute_operation texts headers urls op_table_get op_table_post req
          ≡ some (run_handler h (add_parts headers [] parts))
    unfolding execute_operation call_operation find
    execute_operation-form_text op_table_get [] req boundary epilogue op parts h is_post multipart
          named laid_out fit small e f =
        cc
    execute_operation-form_text op_table_get (p ∷ table) req boundary epilogue op parts h is_post
          multipart named laid_out fit small e f =
        execute_operation-post op_table_get (p ∷ table) req is_post
        ∙ (execute_post-form_text p table req boundary epilogue parts multipart named laid_out fit
              small
            ∙ ap some (call_operation-found (p ∷ table) (add_parts headers [] parts) op h e f))

    execute_get-raised :
        (p : Bytes × H) (table : Map H) (req : HttpRequest)
        → urls.curl_query (text "http://ignored" ++ req.target) ≡ none
        → execute_get texts headers urls (p ∷ table) req
          ≡ raised (irods_exception urls.sys_library_error (text "curl error"))
    unfolding execute_get parse_url
    execute_get-raised p table req no_query = ground (arith, no_query)

    -- If the URL has no query, then a GET for an endpoint that has operations for GET is answered with
    -- 500.
    pub on_read_body_no_query :
        (p : Bytes × H) (op_table_get op_table_post : Map H) (path : Bytes) (req : HttpRequest)
        (req_handlers : Map (HttpRequest → Option (Dispatched H)))
        → req.method ≡ get
        → get_url_path texts headers urls (text "http://host" ++ req.target) ≡ some path
        → find path req_handlers
          ≡ some (execute_operation texts headers urls (p ∷ op_table_get) op_table_post)
        → urls.curl_query (text "http://ignored" ++ req.target) ≡ none
        → on_read_body texts headers urls req_handlers read_ok req
          ≡ some (answer (fail internal_server_error))
    unfolding on_read_body
    on_read_body_no_query p op_table_get op_table_post path req req_handlers is_get routed known
          no_query =
        rw (routed, on_read_body)
          (rw known (
            rw (execute_operation-get (p ∷ op_table_get) op_table_post req is_get)
              (rw (execute_get-raised p op_table_get req no_query) refl)))
