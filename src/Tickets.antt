-- ===== src/Tickets.antt =====
-- `op_create` and `op_remove` of endpoints/tickets/src/main.cpp.
pub mod Laws
pub mod Constraints
use irods_client_http_api.Prelude.{
  ℕ, zero, suc, ◌+◌, Bool, true, false, List, [], ◌∷◌, Option, none, some, Bytes, text,
  if◌then◌else◌,
}
use irods_client_http_api.Text.{bytes_eq}
use irods_client_http_api.Map.{Map, find}
use irods_client_http_api.Number.{stoi, stoll}
use irods_client_http_api.Http.{
  ℤ, pos, negsuc, is_negative, Request, Response, bad_request, fail_in, initial_response, json, str,
  end, field, irods_response,
}
use irods_client_http_api.Http.Exec.{
  Exec, Exn, std_exception, Outcome, value, sent, thrown, pure, send, throw, require, ◌>>=◌, ◌>>◌,
  catch_irods, Identity, refused, client,
}
use irods_client_http_api.Arguments.Libraries.{TextLibraries}
use irods_client_http_api.DataObjects.Io.{Io}
use irods_client_http_api.DataObjects.Streams.{throw_if}
use irods_client_http_api.DataObjects.Init.{or_throw}
use irods_client_http_api.DataObjects.Shutdown.{ok_response}
use irods_client_http_api.DataObjects.Write.{get_connection}

-- `adm::ticket::ticket_type`
pub data TicketType : Type 0 where
  read write : TicketType

-- The constraints that `set_ticket_constraint` and `add_ticket_constraint` take.
pub data Constraint : Type 0 where
  use_count n_writes_to_data_object n_write_bytes : ℤ → Constraint
  user group host : Bytes → Constraint

-- The ticket administration of the client library; each call may throw.
pub record TicketAdmin (Z Conn : Type 0) : Type 0 where
  pub create_ticket : Conn → TicketType → Bytes → Exec Z Bytes
  pub constrain : Conn → Bytes → Constraint → Exec Z (Unit {0})
  -- `rcTicketAdmin` with "mod" and "expire": the ticket, and the seconds since the epoch.
  pub expire : Conn → Bytes → ℕ → Exec Z ℤ
  pub delete_ticket : Conn → Bytes → Exec Z (Unit {0})

-- "read" if there is none; another text is refused.
abbrev pub ticket_type_of : Option Bytes → Option TicketType
ticket_type_of none = some read
ticket_type_of (some t) =
    if bytes_eq t (text "write")
    then some write
    else if bytes_eq t (text "read")
    then some read
    else none

abbrev pub positive : ℤ → Option ℕ
positive (pos zero) = none
positive (pos (suc n)) = some (suc n)
positive (negsuc n) = none

module _ {Z Conn Out : Type 0} (texts : TextLibraries) (io : Io Z Conn Out)
    (admin : TicketAdmin Z Conn) (compat : Bool) where
  -- A constraint with a number, which is 0 if there is none.
  unfoldable pub set_count : Conn → Bytes → (ℤ → Constraint) → Option Bytes → Exec Z (Unit {0})
  set_count conn ticket kind none = admin.constrain conn ticket (kind (pos 0))
  set_count conn ticket kind (some number) = do
    count ← or_throw (stoi number)
    admin.constrain conn ticket (kind count)

  -- `now` is the system clock, in seconds since the epoch. The sum is not bounded here; the 64-bit nanoseconds
  -- of the clock hold it for some 7.5 billion seconds.
  unfoldable pub set_expiration : Response → ℕ → Conn → Bytes → Option Bytes → Exec Z (Unit {0})
  set_expiration res now conn ticket none = pure tt
  set_expiration res now conn ticket (some number) = do
    number_of_seconds ← or_throw (stoll number)
    secs ← require (positive number_of_seconds) (fail_in res bad_request)
    ec ← admin.expire conn ticket (now + secs)
    throw_if (is_negative ec) ec (text "Ticket operation failed")

  unfoldable pub add_all : Conn → Bytes → (Bytes → Constraint) → List Bytes → Exec Z (Unit {0})
  add_all conn ticket kind [] = pure tt
  add_all conn ticket kind (name ∷ names) = do
    admin.constrain conn ticket (kind name)
    add_all conn ticket kind names

  -- The names between commas.
  unfoldable pub add_names : Conn → Bytes → (Bytes → Constraint) → Option Bytes → Exec Z (Unit {0})
  unfolding add_all
  add_names conn ticket kind none = pure tt
  add_names conn ticket kind (some names) = add_all conn ticket kind (texts.split b',' names)

  -- What is done with a ticket that was created.
  unfoldable pub constrain_ticket : Response → Map Bytes → ℕ → Conn → Bytes → Exec Z Response
  unfolding set_count set_expiration add_names
  constrain_ticket res args now conn ticket = do
    set_count conn ticket use_count (find (text "use-count") args)
    set_count conn ticket n_writes_to_data_object (find (text "write-data-object-count") args)
    set_count conn ticket n_write_bytes (find (text "write-byte-count") args)
    set_expiration res now conn ticket (find (text "seconds-until-expiration") args)
    add_names conn ticket user (find (text "users") args)
    add_names conn ticket group (find (text "groups") args)
    add_names conn ticket host (find (text "hosts") args)
    pure (record res {
      body = json (irods_response (pos 0) (field (text "ticket") (str ticket) end));
    })

  unfoldable pub create_task : Response → Map Bytes → ℕ → Bytes → Exec Z Response
  unfolding constrain_ticket get_connection
  create_task res args now username = do
    path ← require (find (text "lpath") args) (fail_in res bad_request)
    type ← require (ticket_type_of (find (text "type") args)) (fail_in res bad_request)
    conn ← get_connection io compat username
    ticket ← admin.create_ticket conn type path
    constrain_ticket res args now conn ticket

  unfoldable pub op_create : Identity → Request → Map Bytes → ℕ → Z → Response × Z
  unfolding create_task
  op_create (refused r) req args now z = (r, z)
  op_create (client username) req args now z =
      let done = create_task (initial_response req) args now username z in
      (catch_irods (initial_response req) done.0, done.1)

  unfoldable pub remove_task : Response → Map Bytes → Bytes → Exec Z Response
  unfolding get_connection
  remove_task res args username = do
    name ← require (find (text "name") args) (fail_in res bad_request)
    conn ← get_connection io compat username
    admin.delete_ticket conn name
    pure (ok_response res)

  unfoldable pub op_remove : Identity → Request → Map Bytes → Z → Response × Z
  unfolding remove_task
  op_remove (refused r) req args z = (r, z)
  op_remove (client username) req args z =
      let done = remove_task (initial_response req) args username z in
      (catch_irods (initial_response req) done.0, done.1)
