-- ===== src/DataObjects/Io.antt =====
-- The iRODS client library as the endpoint uses it, and the state of the endpoint.
use irods_client_http_api.Prelude.{ℕ, Bool, false, List, Option, none, some, Bytes}
use irods_client_http_api.Map.{Map}
use irods_client_http_api.Http.{ℤ}
use irods_client_http_api.Http.Exec.{Exec, Outcome}
use irods_client_http_api.Text.{bytes_eq}

-- `std::ios_base::out` is always set.
pub record OpenMode : Type 0 where
  pub in_mode : Bool
  pub append : Bool

-- How the replica to write to is chosen.
pub data Target (Out : Type 0) : Type 0 where
  replica_of : Out → Target Out
  root_resource : Bytes → Target Out
  replica_number : ℤ → Target Out
  any_replica : Target Out

-- `Z` is the state of the iRODS servers and of the connections to them; each call may throw.
pub record Io (Z Conn Out : Type 0) : Type 0 where
  -- `client_connection::connect` for the proxied user.
  pub connect : Bytes → Exec Z Conn
  -- `rc_authenticate_client` as the proxy administrator: an error code.
  pub authenticate : Conn → Exec Z ℤ
  pub disconnect : Conn → Exec Z (Unit {0})
  -- `connection_pool::get_connection` and `rc_switch_user`.
  pub pool_connection : Exec Z Conn
  pub switch_user : Conn → Bytes → Exec Z ℤ
  -- `rcTicketAdmin` with "session" and the ticket.
  pub ticket_admin : Conn → Bytes → Exec Z ℤ
  -- `odstream::open` over a native transport: connection, path, target, mode.
  pub open_stream : Conn → Bytes → Target Out → OpenMode → Exec Z Out
  -- `operator bool` and `last_error` of a stream.
  pub is_good : Out → Z → Bool
  pub last_error : Out → Z → ℤ
  pub seekp : Out → ℤ → Exec Z (Unit {0})
  pub write : Out → Bytes → Exec Z (Unit {0})
  -- `close()`, and `close` with an `on_close_success` in which every flag is false.
  pub close : Out → Exec Z (Unit {0})
  pub close_quietly : Out → Exec Z (Unit {0})
  -- `SYS_INTERNAL_ERR`
  pub sys_internal_err : ℤ

-- `parallel_write_stream`: its connection and transport belong to the stream.
pub record PwStream (Out : Type 0) : Type 0 where
  pub out : Out
  pub in_use : Bool

-- `parallel_write_context`
abbrev pub Context : Type 0 → Type 0
Context Out = List (PwStream Out)

-- `g_parallel_write_contexts`, `g_active_parallel_write_streams`, and the world outside.
pub record Server (Z Out : Type 0) : Type 0 where
  pub contexts : Map (Context Out)
  pub active : ℕ
  pub io : Z

-- A call of the client library.
abbrev pub call : {Z Out A : Type 0} → Exec Z A → Exec (Server Z Out) A
call m s = ((m s.io).0, record s { io = (m s.io).1 })

-- A read of the world.
abbrev pub reads : {Z Out A : Type 0} → (Z → A) → Exec (Server Z Out) A
reads f s = (Outcome.value (f s.io), s)

-- The flags of a request: present with this value.
abbrev pub has_value : Option Bytes → Bytes → Bool
has_value none v = false
has_value (some w) v = bytes_eq w v
