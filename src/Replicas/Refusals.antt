-- ===== src/Replicas/Refusals.antt =====
-- A request without a required argument.
use irods_client_http_api.Prelude.{
  ◌≡◌, ◌⊎◌, inl, inr, refl, ap, ◌∙◌, Option-cases, Bool-cases, Bool, true, false, List, [], ◌∷◌,
  none, some, Bytes, text, arith,
}
use irods_client_http_api.Map.{Map, find}
use irods_client_http_api.Http.{Request, Response, bad_request}
use irods_client_http_api.Http.Exec.{Exec, client, value}
use irods_client_http_api.DataObjects.Io.{Io}
use irods_client_http_api.Replicas.Input.{ObjectCalls, handle_request}
use irods_client_http_api.Replicas.Copies.{
  op_replicate, replicate_task, op_trim, trim_task, op_register, register_task, op_remove,
  remove_task, op_copy, copy_task,
}
use irods_client_http_api.Replicas.Changes.{
  op_set_permission, set_permission_task, op_rename, rename_task, op_touch, touch_task, op_truncate,
  truncate_task,
}
use irods_client_http_api.Replicas.Queries.{
  op_calculate_checksum, calculate_task, op_verify_checksum, verify_task, op_stat, stat_task,
}
use irods_client_http_api.Replicas.Operations.{
  Operation, replicate, trim, register, remove, copy, set_permission, rename, touch, truncate,
  calculate_checksum, verify_checksum, stat, modify_replica, run,
}
use irods_client_http_api.Replicas.Modify.{op_modify_replica, modify_task, change_replica}
use irods_client_http_api.DataObjects.Write.{get_connection}

-- The arguments that API.md lists for each operation without calling them optional; but for the source of
-- a replication, and for the replica and the properties of `modify_replica`.
abbrev pub required : Operation → List Bytes
required replicate = text "lpath" ∷ text "dst-resource" ∷ []
required trim = text "lpath" ∷ text "replica-number" ∷ []
required register = text "lpath" ∷ text "ppath" ∷ text "resource" ∷ []
required remove = text "lpath" ∷ text "catalog-only" ∷ []
required copy = text "src-lpath" ∷ text "dst-lpath" ∷ []
required set_permission = text "lpath" ∷ text "entity-name" ∷ text "permission" ∷ []
required rename = text "old-lpath" ∷ text "new-lpath" ∷ []
required touch = text "lpath" ∷ []
required truncate = text "lpath" ∷ []
required calculate_checksum = text "lpath" ∷ []
required verify_checksum = text "lpath" ∷ []
required stat = text "lpath" ∷ []
required modify_replica = text "lpath" ∷ []

-- One of these is missing.
abbrev pub lacks : Map Bytes → List Bytes → Bool
lacks args [] = false
lacks args (name ∷ names) = elim (find name args) [ none ↦ true | some v ↦ lacks args names ]

-- These operations look at some of their arguments only when they are connected.
abbrev pub connects_first : Operation → Bool
connects_first set_permission = true
connects_first rename = true
connects_first modify_replica = true
connects_first _ = false

-- A computation that ends with a value and leaves alone what is observed of the world.
abbrev pub Keeps : {Z A C : Type 0} → (Z → C) → Exec Z A → Type 0
Keeps observe m = (z : _) → (a : _) × (z' : _) × (m z ≡ (value a, z')) × (observe z' ≡ observe z)

-- A reply with 400.
abbrev pub Refuses : {Z C : Type 0} → (Z → C) → Z → Response × Z → Type 0
Refuses observe z (r, z') = (r.result ≡ bad_request) × (observe z' ≡ observe z)

module _ {Z Conn Out C : Type 0} (io : Io Z Conn Out) (calls : ObjectCalls Z Conn)
    (compat irods5 : Bool) (undefined : Exec Z Response) (observe : Z → C) where
  abbrev reply : Operation → Bytes → Request → Map Bytes → Z → Response × Z
  reply op username = run io calls compat irods5 undefined op (client username)

  set_permission-lacks :
      (username : Bytes) (req : Request) (args : Map Bytes) (z : Z)
      → lacks args (required set_permission) ≡ true
      → Keeps observe (get_connection io compat username)
      → ((conn : Conn) (path : Bytes) → Keeps observe (calls.is_data_object conn path))
      → Refuses observe z (reply set_permission username req args z)
  unfolding run handle_request op_set_permission set_permission_task
  set_permission-lacks username req args z missing connecting asking =
      elim (Option-cases (find (text "lpath") args)) [
        | inl e ↦ rw e (refl, refl)
        | inr (path, e) ↦
            let (conn, z1, connected, same) = connecting z in
            let (is_object, z2, asked, same') = asking conn path z1 in
            elim (Bool-cases is_object) [
              | inl c ↦ elim (Option-cases (find (text "entity-name") args)) [
                | inl d ↦ rw (e, connected, asked, c, d) (refl, same' ∙ same)
                | inr (entity_name, d) ↦
                    let absent : find (text "permission") args ≡ none =
                      ground (arith, missing, e, d) in
                    rw (e, connected, asked, c, d, absent) (refl, same' ∙ same)
              ]
              | inr c ↦ rw (e, connected, asked, c) (refl, same' ∙ same)
            ]
      ]

  rename-lacks :
      (username : Bytes) (req : Request) (args : Map Bytes) (z : Z)
      → lacks args (required rename) ≡ true
      → Keeps observe (get_connection io compat username)
      → ((conn : Conn) (path : Bytes) → Keeps observe (calls.is_data_object conn path))
      → Refuses observe z (reply rename username req args z)
  unfolding run handle_request op_rename rename_task
  rename-lacks username req args z missing connecting asking =
      elim (Option-cases (find (text "old-lpath") args)) [
        | inl e ↦ rw e (refl, refl)
        | inr (path, e) ↦
            let (conn, z1, connected, same) = connecting z in
            let (is_object, z2, asked, same') = asking conn path z1 in
            let absent : find (text "new-lpath") args ≡ none = ground (arith, missing, e) in
            elim (Bool-cases is_object) [
              | inl c ↦ rw (e, connected, asked, c, absent) (refl, same' ∙ same)
              | inr c ↦ rw (e, connected, asked, c) (refl, same' ∙ same)
            ]
      ]

  modify_replica-lacks :
      (username : Bytes) (req : Request) (args : Map Bytes) (z : Z)
      → lacks args (required modify_replica) ≡ true
      → Keeps observe (get_connection io compat username)
      → Refuses observe z (reply modify_replica username req args z)
  unfolding run handle_request op_modify_replica modify_task change_replica
  modify_replica-lacks username req args z missing connecting =
      let (conn, z1, connected, same) = connecting z in
      let absent : find (text "lpath") args ≡ none = ground (arith, missing) in
      rw (connected, absent) (refl, same)

  -- What an operation does that looks at its arguments first.
  unmoved :
      (op : Operation) (username : Bytes) (req : Request) (args : Map Bytes) (z : Z)
      → lacks args (required op) ≡ true
      → connects_first op ≡ false
      → ((reply op username req args z).0.result ≡ bad_request)
        × ((reply op username req args z).1 ≡ z)
  unfolding run handle_request op_replicate replicate_task op_trim trim_task op_register
      register_task op_remove remove_task op_copy copy_task op_touch touch_task op_truncate
      truncate_task op_calculate_checksum calculate_task op_verify_checksum verify_task op_stat
      stat_task
  unmoved replicate username req args z missing first = ground (arith, missing)
  unmoved trim username req args z missing first = ground (arith, missing)
  unmoved register username req args z missing first = ground (arith, missing)
  unmoved remove username req args z missing first = ground (arith, missing)
  unmoved copy username req args z missing first = ground (arith, missing)
  unmoved touch username req args z missing first = ground (arith, missing)
  unmoved truncate username req args z missing first = ground (arith, missing)
  unmoved calculate_checksum username req args z missing first = ground (arith, missing)
  unmoved verify_checksum username req args z missing first = ground (arith, missing)
  unmoved stat username req args z missing first = ground (arith, missing)
  unmoved set_permission username req args z missing first = absurd (ground (arith, first))
  unmoved rename username req args z missing first = absurd (ground (arith, first))
  unmoved modify_replica username req args z missing first = absurd (ground (arith, first))

  connected-lacks :
      (op : Operation) (username : Bytes) (req : Request) (args : Map Bytes) (z : Z)
      → lacks args (required op) ≡ true
      → connects_first op ≡ true
      → Keeps observe (get_connection io compat username)
      → ((conn : Conn) (path : Bytes) → Keeps observe (calls.is_data_object conn path))
      → Refuses observe z (reply op username req args z)
  connected-lacks set_permission username req args z missing first connecting asking =
      set_permission-lacks username req args z missing connecting asking
  connected-lacks rename username req args z missing first connecting asking =
      rename-lacks username req args z missing connecting asking
  connected-lacks modify_replica username req args z missing first connecting asking =
      modify_replica-lacks username req args z missing connecting
  connected-lacks replicate username req args z missing first connecting asking =
      absurd (ground (arith, first))
  connected-lacks trim username req args z missing first connecting asking =
      absurd (ground (arith, first))
  connected-lacks register username req args z missing first connecting asking =
      absurd (ground (arith, first))
  connected-lacks remove username req args z missing first connecting asking =
      absurd (ground (arith, first))
  connected-lacks copy username req args z missing first connecting asking =
      absurd (ground (arith, first))
  connected-lacks touch username req args z missing first connecting asking =
      absurd (ground (arith, first))
  connected-lacks truncate username req args z missing first connecting asking =
      absurd (ground (arith, first))
  connected-lacks calculate_checksum username req args z missing first connecting asking =
      absurd (ground (arith, first))
  connected-lacks verify_checksum username req args z missing first connecting asking =
      absurd (ground (arith, first))
  connected-lacks stat username req args z missing first connecting asking =
      absurd (ground (arith, first))

  -- If connecting and asking for the type of an object succeed and leave something as it is, such as the
  -- objects and what is known of them, then an operation that lacks an argument that API.md lists without
  -- calling it optional, but for the source of a replication, and for the replica and the properties of
  -- modify_replica, answers with 400 and leaves it as it is. All operations but to set permissions, to
  -- rename and to modify a replica answer before they connect, and change nothing at all.
  pub run-lacks :
      (op : Operation) (username : Bytes) (req : Request) (args : Map Bytes) (z : Z)
      → lacks args (required op) ≡ true
      → Keeps observe (get_connection io compat username)
      → ((conn : Conn) (path : Bytes) → Keeps observe (calls.is_data_object conn path))
      → Refuses observe z (reply op username req args z)
        × ((connects_first op ≡ true) ⊎ ((reply op username req args z).1 ≡ z))
  run-lacks op username req args z missing connecting asking =
      elim (Bool-cases (connects_first op)) [
        | inl first ↦
            (connected-lacks op username req args z missing first connecting asking, inl first)
        | inr later ↦
            let (refused, same) = unmoved op username req args z missing later in
            ((refused, ap observe same), inr same)
      ]
