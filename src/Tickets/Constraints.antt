-- ===== src/Tickets/Constraints.antt =====
-- The constraints that `op_create` sets on a ticket.
use mathlib.Core.List.{append_assoc, append-nil}
use irods_client_http_api.Prelude.{
  ℕ, ◌≡◌, refl, sym, ap, ◌∙◌, Bool, List, [], ◌∷◌, ◌++◌, map, Option, none, some, Bytes, text,
  arith,
}
use irods_client_http_api.Map.{Map, find}
use irods_client_http_api.Number.{stoi}
use irods_client_http_api.Http.{
  ℤ, pos, Request, Response, initial_response, json, str, end, field, irods_response,
}
use irods_client_http_api.Http.Exec.{Exec, Outcome, value, client, catch_irods, ◌>>◌, pure}
use irods_client_http_api.Arguments.Libraries.{TextLibraries}
use irods_client_http_api.DataObjects.Io.{Io}
use irods_client_http_api.DataObjects.Write.{get_connection}
use irods_client_http_api.Tickets.{
  TicketType, Constraint, use_count, n_writes_to_data_object, n_write_bytes, user, group, host,
  TicketAdmin, ticket_type_of, set_count, set_expiration, add_all, add_names, constrain_ticket,
  op_create,
}
use irods_client_http_api.Tickets.Laws.{create_task-constrain_ticket}

-- Every constraint is set, and `log` holds them in their order.
pub record IsLog {Z Conn : Type 0} (admin : TicketAdmin Z Conn) (ticket : Bytes)
    (log : Z → List Constraint) : Type 0 where
  pub constrains :
      (conn : Conn) (c : Constraint) (z : Z) → (admin.constrain conn ticket c z).0 ≡ value tt
  pub logs :
      (conn : Conn) (c : Constraint) (z : Z)
      → log (admin.constrain conn ticket c z).1 ≡ log z ++ (c ∷ [])

-- The number of an argument, which is 0 if there is none.
abbrev pub count_of : Option Bytes → Option ℤ
count_of none = some (pos 0)
count_of (some number) = stoi number

abbrev pub names_of : TextLibraries → Option Bytes → List Bytes
names_of texts none = []
names_of texts (some names) = texts.split b',' names

-- The answer that names the ticket.
abbrev pub answered : Bytes → Response → Response
answered ticket res = record res {
  body = json (irods_response (pos 0) (field (text "ticket") (str ticket) end));
}

module _ {Z Conn Out : Type 0} (texts : TextLibraries) (io : Io Z Conn Out)
    (admin : TicketAdmin Z Conn) (compat : Bool) (ticket : Bytes) (log : Z → List Constraint)
    (laws : IsLog admin ticket log) (conn : Conn) where
  -- The task succeeds, and the constraints are appended.
  abbrev Logs : {B : Type 0} → B → List Constraint → Z → Outcome B × Z → Type 0
  Logs b cs z (o, z') = (o ≡ value b) × (log z' ≡ log z ++ cs)

  set_count-Logs :
      (kind : ℤ → Constraint) (number : Option Bytes) (n : ℤ) (z : Z)
      → count_of number ≡ some n
      → Logs tt (kind n ∷ []) z (set_count texts io admin compat conn ticket kind number z)
  unfolding set_count
  set_count-Logs kind none n z e =
      ground (arith, e, laws.constrains conn (kind (pos 0)) z, laws.logs conn (kind (pos 0)) z)
  set_count-Logs kind (some number) n z e =
      rw (e, set_count) (laws.constrains conn (kind n) z, laws.logs conn (kind n) z)

  Logs-then :
      {B : Type 0} (r : B) (cs ds : List Constraint) (z : Z) (m : Exec Z (Unit {0})) (n : Exec Z B)
      → Logs tt cs z (m z)
      → Logs r ds (m z).1 (n (m z).1)
      → Logs r (cs ++ ds) z ((m >> n) z)
  Logs-then r cs ds z m n a b =
      rw a.0 (b.0, b.1 ∙ ap (λ (l : List Constraint). l ++ ds) a.1 ∙ append_assoc (log z) cs ds)

  add_all-Logs :
      (kind : Bytes → Constraint) (names : List Bytes) (z : Z)
      → Logs tt (map kind names) z (add_all texts io admin compat conn ticket kind names z)
  unfolding add_all
  add_all-Logs kind [] z = (refl, sym (append-nil (log z)))
  add_all-Logs kind (name ∷ names) z =
      Logs-then tt (kind name ∷ []) (map kind names) z (admin.constrain conn ticket (kind name)) _
        (laws.constrains conn (kind name) z, laws.logs conn (kind name) z)
        (add_all-Logs kind names _)

  add_names-Logs :
      (kind : Bytes → Constraint) (names : Option Bytes) (z : Z)
      → Logs tt
          (map kind (names_of texts names))
          z
          (add_names texts io admin compat conn ticket kind names z)
  unfolding add_names
  add_names-Logs kind none z = (refl, sym (append-nil (log z)))
  add_names-Logs kind (some names) z = add_all-Logs kind (texts.split b',' names) z

  -- The constraints that the arguments ask for, in the order in which they are set.
  abbrev pub requested : Map Bytes → ℤ → ℤ → ℤ → List Constraint
  requested args uses writes bytes =
      (use_count uses ∷ [])
      ++ ((n_writes_to_data_object writes ∷ [])
          ++ ((n_write_bytes bytes ∷ [])
              ++ (map user (names_of texts (find (text "users") args))
                  ++ (map group (names_of texts (find (text "groups") args))
                      ++ (map host (names_of texts (find (text "hosts") args)) ++ [])))))

  constrain_ticket-Logs :
      (res : Response) (args : Map Bytes) (now : ℕ) (uses writes bytes : ℤ) (z : Z)
      → count_of (find (text "use-count") args) ≡ some uses
      → count_of (find (text "write-data-object-count") args) ≡ some writes
      → count_of (find (text "write-byte-count") args) ≡ some bytes
      → find (text "seconds-until-expiration") args ≡ none
      → Logs
          (answered ticket res)
          (requested args uses writes bytes)
          z
          (constrain_ticket texts io admin compat res args now conn ticket z)
  unfolding constrain_ticket set_expiration
  constrain_ticket-Logs res args now uses writes bytes z e1 e2 e3 e4 =
      let m1 : Exec Z (Unit {0}) =
        set_count texts io admin compat conn ticket use_count (find (text "use-count") args) in
      let m2 : Exec Z (Unit {0}) =
        set_count texts io admin compat conn ticket n_writes_to_data_object
          (find (text "write-data-object-count") args) in
      let m3 : Exec Z (Unit {0}) =
        set_count texts io admin compat conn ticket n_write_bytes
          (find (text "write-byte-count") args) in
      let m4 : Exec Z (Unit {0}) =
        add_names texts io admin compat conn ticket user (find (text "users") args) in
      let m5 : Exec Z (Unit {0}) =
        add_names texts io admin compat conn ticket group (find (text "groups") args) in
      let m6 : Exec Z (Unit {0}) =
        add_names texts io admin compat conn ticket host (find (text "hosts") args) in
      let n6 : Exec Z Response = pure (answered ticket res) in
      let n5 : Exec Z Response = m6 >> n6 in
      let n4 : Exec Z Response = m5 >> n5 in
      let n3 : Exec Z Response = m4 >> n4 in
      let n2 : Exec Z Response = m3 >> n3 in
      let n1 : Exec Z Response = m2 >> n2 in
      let z1 = (m1 z).1 in
      let z2 = (m2 z1).1 in
      let z3 = (m3 z2).1 in
      let z4 = (m4 z3).1 in
      let z5 = (m5 z4).1 in
      let z6 = (m6 z5).1 in
      rw e4 (
        Logs-then (answered ticket res) _ _ z m1 n1 (set_count-Logs use_count _ uses z e1) (
          Logs-then (answered ticket res) _ _ z1 m2 n2
            (set_count-Logs n_writes_to_data_object _ writes z1 e2)
            (Logs-then (answered ticket res) _ _ z2 m3 n3
              (set_count-Logs n_write_bytes _ bytes z2 e3)
              (Logs-then (answered ticket res) _ _ z3 m4 n4 (add_names-Logs user _ z3) (
                Logs-then (answered ticket res) _ _ z4 m5 n5 (add_names-Logs group _ z4) (
                  Logs-then (answered ticket res) _ _ z5 m6 n6 (add_names-Logs host _ z5)
                    (refl, sym (append-nil (log z6)))))))))

  -- If the path, the type and the counts are valid, no expiration is asked for, and the calls of the
  -- client library succeed, then the answer names the ticket, and exactly the requested
  -- constraints were set on it: the three counts, with 0 where there is none, and every user,
  -- group and host.
  pub op_create-requested :
      (req : Request) (args : Map Bytes) (now : ℕ) (username path : Bytes) (type : TicketType)
      (uses writes bytes : ℤ) (z z1 z2 : Z)
      → find (text "lpath") args ≡ some path
      → ticket_type_of (find (text "type") args) ≡ some type
      → get_connection io compat username z ≡ (value conn, z1)
      → admin.create_ticket conn type path z1 ≡ (value ticket, z2)
      → count_of (find (text "use-count") args) ≡ some uses
      → count_of (find (text "write-data-object-count") args) ≡ some writes
      → count_of (find (text "write-byte-count") args) ≡ some bytes
      → find (text "seconds-until-expiration") args ≡ none
      → let r = op_create texts io admin compat (client username) req args now z in
        (r.0 ≡ answered ticket (initial_response req))
        × (log r.1 ≡ log z2 ++ requested args uses writes bytes)
  unfolding op_create
  op_create-requested req args now username path type uses writes bytes z z1 z2 e1 e2 e3 e4 e5 e6 e7
        e8 =
      let res = initial_response req in
      let (done, logged) = constrain_ticket-Logs res args now uses writes bytes z2 e5 e6 e7 e8 in
      rw
        (create_task-constrain_ticket texts io admin compat res args now username path ticket type
          conn z z1 z2 _ e1 e2 e3 e4 refl)
        (ap (catch_irods res) done, logged)
