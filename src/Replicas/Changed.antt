-- ===== src/Replicas/Changed.antt =====
-- What a modification of a replica sends.
use irods_client_http_api.Prelude.{
  ◌≡◌, ◌≢◌, refl, ◌⊎◌, inl, inr, Bool, true, false, ◌&&◌, [], ◌∷◌, ◌++◌, none, some, Bytes, text,
  arith, Option-cases, Bool-cases, not, sym, ◌∙◌,
}
use irods_client_http_api.Map.{Map, find}
use irods_client_http_api.Number.{stoi}
use irods_client_http_api.Http.{ℤ, pos, Request, Response, initial_response, bad_request}
use irods_client_http_api.Http.Exec.{
  Outcome, value, sent, thrown, client, catch_irods, continue, pure,
}
use irods_client_http_api.DataObjects.Io.{Io}
use irods_client_http_api.DataObjects.Write.{get_connection}
use irods_client_http_api.Replicas.Input.{
  Conditions, DataObjInfo, Layout, ObjectCalls, handle_request, code_response, admin,
  strncpy_null_terminated, zeros,
}
use irods_client_http_api.Replicas.Modify.{
  properties, at_least_irods5, collect, replica_info, change_replica, choose_layout, modify_task,
  op_modify_replica,
}
use irods_client_http_api.Replicas.Columns.{asks_atime, collect-none, supported}
use irods_client_http_api.Replicas.Asked.{
  Asked, asks_access_time, IsIrods5, IsLayout, at_least_irods5-IsIrods5,
  at_least_irods5-not_IsIrods5, choose_layout-IsLayout, asks_atime-asks_access_time, collect-Asked,
}

-- The reply to what the client library answers.
abbrev pub answered : {Z : Type 0} → Response → Outcome ℤ × Z → Response × Z
answered res (value ec, z) = (code_response res ec, z)
answered res (sent r, z) = (r, z)
answered res (thrown e, z) = (catch_irods res (thrown e), z)

abbrev reply_of : {Z : Type 0} → Response → Outcome Response × Z → Response × Z
reply_of res done = (catch_irods res done.0, done.1)

reply_of-answered :
    {Z : Type 0} (res : Response) (o : Outcome ℤ × Z)
    → reply_of res (continue o.0 (λ ec. pure (code_response res ec)) o.1) ≡ answered res o
reply_of-answered res (value ec, z) = refl
reply_of-answered res (sent r, z) = refl
reply_of-answered res (thrown e, z) = refl

-- The replica that the arguments name: by its hierarchy of resources, or else by its number.
abbrev pub NamesReplica :
    {Z Conn : Type 0} → ObjectCalls Z Conn → Map Bytes → Bytes → DataObjInfo → Type 0
NamesReplica calls args path info =
    (info.obj_path ≡ strncpy_null_terminated (zeros calls.max_name_len) path)
    × (((hierarchy : Bytes) × (find (text "resource-hierarchy") args ≡ some hierarchy)
          × (info.resc_hier ≡ strncpy_null_terminated (zeros calls.max_name_len) hierarchy)
          × (info.repl_num ≡ pos 0))
        ⊎ ((number : Bytes) × (find (text "resource-hierarchy") args ≡ none)
            × (find (text "replica-number") args ≡ some number)
            × (stoi number ≡ some info.repl_num)
            × (info.resc_hier ≡ zeros calls.max_name_len)))

module _ {Z Conn : Type 0} (calls : ObjectCalls Z Conn) (irods5 : Bool) (args : Map Bytes)
    (res : Response) (conn : Conn) (info : DataObjInfo) (z : Z) where
  -- Nothing was sent: the access time is not supported, or nothing was to be changed.
  abbrev pub Declined : Response × Z → Type 0
  Declined (r, z') =
      (r.result ≡ bad_request)
      × (z' ≡ z)
      × (((¬ (IsIrods5 (calls.server_version conn z))) × (asks_access_time args ≡ true))
          ⊎ Asked args [])

  -- The client library was asked for exactly the changes of the arguments, as an administrator.
  abbrev pub Requested : Response × Z → Type 0
  Requested r =
      (layout : Layout) × (kvp : Conditions) × IsLayout irods5 (calls.server_version conn z) layout
      × (kvp ≢ [])
      × (IsIrods5 (calls.server_version conn z) ⊎ (asks_access_time args ≡ false))
      × Asked args kvp
      × (r ≡ answered res (calls.mod_data_obj_meta layout conn info (kvp ++ ((admin, []) ∷ [])) z))

module _ {Z Conn Out : Type 0} (io : Io Z Conn Out) (calls : ObjectCalls Z Conn)
    (compat irods5 : Bool) where
  replica_info-NamesReplica :
      (args : Map Bytes) (res : Response) (path : Bytes) (info : DataObjInfo) (z : Z)
      → NamesReplica calls args path info
      → replica_info io calls compat res path
          (find (text "resource-hierarchy") args)
          (find (text "replica-number") args)
          z
        ≡ (value info, z)
  unfolding replica_info
  replica_info-NamesReplica args res path info z (p, inl (hierarchy, e, h, n)) =
      rw (e, sym p, sym h, sym n) refl
  replica_info-NamesReplica args res path info z (p, inr (number, e, e', n, h)) =
      rw (e, e', n, sym p, sym h) refl

  -- The test that lets the access time through.
  allowed :
      (release : _) (args : Map Bytes)
      → (not (at_least_irods5 release) && asks_atime args properties) ≡ false
      → IsIrods5 release ⊎ (asks_access_time args ≡ false)
  allowed release args e = elim (Bool-cases (at_least_irods5 release)) [
    | inl new ↦ inl (at_least_irods5-IsIrods5 release new)
    | inr old ↦ inr (sym (asks_atime-asks_access_time args) ∙ ground (arith, old, e))
  ]

  change_replica-effect :
      (layout : Layout) (refuse_atime : Bool) (args : Map Bytes) (res : Response) (conn : Conn)
      (path : Bytes) (info : DataObjInfo) (z : Z)
      → find (text "lpath") args ≡ some path
      → NamesReplica calls args path info
      → IsLayout irods5 (calls.server_version conn z) layout
      → refuse_atime ≡ not (at_least_irods5 (calls.server_version conn z))
      → Declined calls irods5 args res conn info z
          (reply_of res (change_replica io calls compat layout refuse_atime args res conn z))
        ⊎ Requested calls irods5 args res conn info z
            (reply_of res (change_replica io calls compat layout refuse_atime args res conn z))
  unfolding change_replica
  change_replica-effect layout refuse_atime args res conn path info z found named fits refuses =
      let chosen = replica_info-NamesReplica args res path info z named in
      elim (Option-cases (collect refuse_atime args properties)) [
        | inl c ↦
            let (too_old, asked) = collect-none refuse_atime args properties c in
            inl (
              ground (arith, found, chosen, c),
              ground (arith, found, chosen, c),
              inl (
                at_least_irods5-not_IsIrods5 (calls.server_version conn z)
                    (ground (arith, too_old, refuses)),
                sym (asks_atime-asks_access_time args) ∙ asked,
              ),
            )
        | inr ([], c) ↦ inl (
          ground (arith, found, chosen, c),
          ground (arith, found, chosen, c),
          inr (collect-Asked refuse_atime args [] c),
        )
        | inr (k ∷ kvp, c) ↦ inr (
          layout,
          k ∷ kvp,
          fits,
          (λ e. ground (arith, e)),
          allowed _ args (supported refuse_atime args (k ∷ kvp) _ refuses c),
          collect-Asked refuse_atime args (k ∷ kvp) c,
          rw (found, chosen, c)
              (reply_of-answered res
                (calls.mod_data_obj_meta layout conn info ((k ∷ kvp) ++ ((admin, []) ∷ [])) z)),
        )
      ]

  refuses : (built supported : Bool) → (choose_layout built supported).1 ≡ not supported
  refuses true true = refl
  refuses true false = refl
  refuses false true = refl
  refuses false false = refl

  -- If the connection is made, "lpath" is given, and the replica is named by "resource-hierarchy" or
  -- else by a "replica-number" that reads as a number, then op_modify_replica either answers with 400
  -- without a call, because the access time is to be changed and the server is not known to be of
  -- release 4.90 or later, or because no column is to be changed; or it asks the client library, as an
  -- administrator and in the layout of the release of the server, to give this replica's columns
  -- exactly the values of the arguments that API.md has for them, and answers with the outcome.
  pub op_modify_replica-effect :
      (username : Bytes) (req : Request) (args : Map Bytes) (conn : Conn) (path : Bytes)
      (info : DataObjInfo) (z z1 : Z)
      → get_connection io compat username z ≡ (value conn, z1)
      → find (text "lpath") args ≡ some path
      → NamesReplica calls args path info
      → Declined calls irods5 args
          (initial_response req)
          conn
          info
          z1
          (op_modify_replica io calls compat irods5 (client username) req args z)
        ⊎ Requested calls irods5 args
            (initial_response req)
            conn
            info
            z1
            (op_modify_replica io calls compat irods5 (client username) req args z)
  unfolding op_modify_replica modify_task handle_request
  op_modify_replica-effect username req args conn path info z z1 connected found named =
      let res = initial_response req in
      let release = calls.server_version conn z1 in
      let (layout, refuse_atime) = choose_layout irods5 (at_least_irods5 release) in
      rw connected (
        change_replica-effect layout refuse_atime args res conn path info z1 found named
          (choose_layout-IsLayout irods5 release) (refuses irods5 (at_least_irods5 release)))
