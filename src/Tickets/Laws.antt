-- ===== src/Tickets/Laws.antt =====
-- What `op_create` leaves behind.
use irods_client_http_api.Prelude.{ℕ, ◌≡◌, Bool, some, Bytes, text}
use irods_client_http_api.Map.{Map, find}
use irods_client_http_api.Http.{Response}
use irods_client_http_api.Http.Exec.{Outcome, value}
use irods_client_http_api.Arguments.Libraries.{TextLibraries}
use irods_client_http_api.DataObjects.Io.{Io}
use irods_client_http_api.DataObjects.Write.{get_connection}
use irods_client_http_api.Tickets.{
  TicketType, Constraint, TicketAdmin, ticket_type_of, constrain_ticket, create_task,
}

-- `Has` says that a ticket exists: creation makes it so, and constraints are set and keep it so.
pub record KeepsTickets {Z Conn : Type 0} (admin : TicketAdmin Z Conn) (Has : Bytes → Z → Type 0)
    : Type 0 where
  pub creates :
      (conn : Conn) (type : TicketType) (path ticket : Bytes) (z z' : Z)
      → admin.create_ticket conn type path z ≡ (value ticket, z')
      → Has ticket z'
  pub constrains :
      (conn : Conn) (ticket : Bytes) (c : Constraint) (z : Z)
      → (admin.constrain conn ticket c z).0 ≡ value tt
  pub keeps :
      (conn : Conn) (ticket : Bytes) (c : Constraint) (z : Z)
      → Has ticket z
      → Has ticket (admin.constrain conn ticket c z).1

module _ {Z Conn Out : Type 0} (texts : TextLibraries) (io : Io Z Conn Out)
    (admin : TicketAdmin Z Conn) (compat : Bool) where
  pub create_task-constrain_ticket :
      (res : Response) (args : Map Bytes) (now : ℕ) (username path ticket : Bytes)
      (type : TicketType) (conn : Conn) (z z1 z2 : Z) (r : Outcome Response × Z)
      → find (text "lpath") args ≡ some path
      → ticket_type_of (find (text "type") args) ≡ some type
      → get_connection io compat username z ≡ (value conn, z1)
      → admin.create_ticket conn type path z1 ≡ (value ticket, z2)
      → constrain_ticket texts io admin compat res args now conn ticket z2 ≡ r
      → create_task texts io admin compat res args now username z ≡ r
  unfolding create_task
  create_task-constrain_ticket res args now username path ticket type conn z z1 z2 r e1 e2 e3 e4
        e5 =
      rw (e1, e2, e3, e4) e5
