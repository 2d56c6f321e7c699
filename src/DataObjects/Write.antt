-- ===== src/DataObjects/Write.antt =====
-- `op_write` and `op_write_streaming` up to the start of the transfer, and `irods::get_connection`
-- of core/src/common.cpp. The two operations differ in where they take their arguments from.
use irods_client_http_api.Prelude.{
  Bool, true, false, Option, none, some, Bytes, text, if◌then◌else◌,
}
use irods_client_http_api.Map.{Map, find}
use irods_client_http_api.Number.{stoll}
use irods_client_http_api.Http.{
  Request, Response, bad_request, internal_server_error, fail_in, initial_response, json,
  irods_error, is_negative,
}
use irods_client_http_api.Http.Exec.{
  Exec, Outcome, value, sent, thrown, pure, send, require, ◌>>=◌, ◌>>◌, catch_all, Identity,
  refused, client,
}
use irods_client_http_api.DataObjects.Io.{Io, Server, call}
use irods_client_http_api.DataObjects.Streams.{throw_if, target}
use irods_client_http_api.DataObjects.Init.{open_mode, replica_argument, with_status}
use irods_client_http_api.DataObjects.Select.{Selection, select_parallel_stream, release}

-- The names of the arguments, in the form or in the header of the request.
pub record Names : Type 0 where
  pub parallel_write_handle : Bytes
  pub stream_index : Bytes
  pub lpath : Bytes
  pub truncate : Bytes
  pub append : Bytes
  pub ticket : Bytes
  pub resource : Bytes
  pub replica_number : Bytes
  pub offset : Bytes

abbrev pub form_names : Names
form_names = record {
  parallel_write_handle = text "parallel-write-handle";
  stream_index = text "stream-index";
  lpath = text "lpath";
  truncate = text "truncate";
  append = text "append";
  ticket = text "ticket";
  resource = text "resource";
  replica_number = text "replica-number";
  offset = text "offset";
}

abbrev pub header_names : Names
header_names = record {
  parallel_write_handle = text "irods-api-request-parallel-write-handle";
  stream_index = text "irods-api-request-stream-index";
  lpath = text "irods-api-request-lpath";
  truncate = text "irods-api-request-truncate";
  append = text "irods-api-request-append";
  ticket = text "irods-api-request-ticket";
  resource = text "irods-api-request-resource";
  replica_number = text "irods-api-request-replica-number";
  offset = text "irods-api-request-offset";
}

module _ {Z Conn Out : Type 0} (io : Io Z Conn Out) where
  -- The flag is "enable_4_2_compatibility".
  unfoldable pub get_connection : Bool → Bytes → Exec Z Conn
  get_connection true username = do
    conn ← io.connect username
    ec ← io.authenticate conn
    throw_if (is_negative ec) io.sys_internal_err
        (text "Authentication error while obtaining iRODS connection from pool.")
    pure conn
  get_connection false username = do
    conn ← io.pool_connection
    ec ← io.switch_user conn username
    throw_if (is_negative ec) ec (text "rc_switch_user error.")
    pure conn

  -- A ticket that cannot be enabled ends the request here.
  unfoldable pub enable_ticket_or_send :
      Response → Conn → Option Bytes → Exec (Server Z Out) (Unit {0})
  enable_ticket_or_send res conn none = pure tt
  enable_ticket_or_send res conn (some ticket) = do
    ec ← call (io.ticket_admin conn ticket)
    if is_negative ec
        then send (record res {
          result = internal_server_error;
          body = json (irods_error ec (text "Error enabling ticket on connection."));
        })
        else pure tt

  module _ (compat : Bool) (names : Names) (args : Map Bytes) (username : Bytes)
      (res : Response) where
    unfoldable pub open_single : Exec (Server Z Out) (Selection Out)
    unfolding get_connection enable_ticket_or_send replica_argument
    open_single = do
      path ← require (find names.lpath args) (fail_in res bad_request)
      conn ← call (get_connection compat username)
      enable_ticket_or_send res conn (find names.ticket args)
      (resource, replica) ←
          replica_argument io res (find names.resource args) (find names.replica_number args)
      out ← call (
          io.open_stream conn path (target io none resource replica)
            (open_mode (find names.truncate args) (find names.append args)))
      pure (record { out = out; claim = none; is_parallel = false })

    unfoldable pub select_stream : Exec (Server Z Out) (Selection Out)
    unfolding open_single select_parallel_stream
    select_stream s = elim (find names.parallel_write_handle args) [
      | none ↦ open_single s
      | some handle ↦ select_parallel_stream res handle (find names.stream_index args) s
    ]

  abbrev pub bad_state : Bytes
  bad_state = text "Output stream to data object is in a bad state."

  -- The status of this response stays as it is.
  unfoldable pub check_stream :
      Response → Out → Exec (Server Z Out) (Unit {0}) → Exec (Server Z Out) (Unit {0})
  check_stream res out before s =
      if io.is_good out s.io
      then pure tt s
      else ((before >> λ t.
            send (record res { body = json (irods_error (io.last_error out t.io) bad_state) }) t)
          s)

  unfoldable pub close_if_not_parallel : Selection Out → Exec (Server Z Out) (Unit {0})
  close_if_not_parallel sel = if sel.is_parallel then pure tt else call (io.close sel.out)

  -- An exception of `seekp` is caught where it is called.
  abbrev or_refuse_seek :
      Response → Selection Out → Outcome (Unit {0}) → Exec (Server Z Out) (Unit {0})
  or_refuse_seek res sel (value u) = pure tt
  or_refuse_seek res sel _ = close_if_not_parallel sel >> send (with_status res bad_request)

  unfoldable pub seek_to : Response → Selection Out → Option Bytes → Exec (Server Z Out) (Unit {0})
  unfolding check_stream close_if_not_parallel
  seek_to res sel none = pure tt
  seek_to res sel (some offset) = elim (stoll offset) [
    | none ↦ close_if_not_parallel sel >> send (with_status res bad_request)
    | some n ↦
        (λ s. or_refuse_seek res sel (io.seekp sel.out n s.io).0 (call (io.seekp sel.out n) s).1)
        >> check_stream res sel.out (close_if_not_parallel sel)
  ]

  -- The scope of the guard: it is handed on to the transfer, or run on the way out.
  abbrev pub guarded :
      {A : Type 0} → Selection Out → Outcome A × Server Z Out → Outcome A × Server Z Out
  guarded sel (value a, s) = (value a, s)
  guarded sel (sent r, s) = (sent r, release sel.claim s)
  guarded sel (thrown e, s) = (thrown e, release sel.claim s)

  -- The stream is usable and stands at the offset.
  unfoldable pub prepare_stream :
      Response → Selection Out → Option Bytes → Exec (Server Z Out) (Unit {0})
  unfolding check_stream seek_to
  prepare_stream res sel offset = do check_stream res sel.out (pure tt); seek_to res sel offset

  -- The bytes to send. That their number equals their number is not tested here.
  unfoldable pub bytes_argument :
      Response → Selection Out → Option Bytes → Exec (Server Z Out) Bytes
  unfolding close_if_not_parallel
  bytes_argument res sel (some bytes) = pure bytes
  bytes_argument res sel none = do close_if_not_parallel sel; send (fail_in res bad_request)

  unfoldable pub write_task :
      Bool → Map Bytes → Bytes → Response → Exec (Server Z Out) (Selection Out × Bytes)
  unfolding select_stream prepare_stream bytes_argument
  write_task compat args username res = do
    sel ← select_stream compat form_names args username res
    λ s. guarded sel (
        (do
          prepare_stream res sel (find form_names.offset args)
          bytes ← bytes_argument res sel (find (text "bytes") args)
          pure (sel, bytes))
          s)

  unfoldable pub streaming_task :
      Bool → Map Bytes → Bytes → Response → Exec (Server Z Out) (Selection Out)
  unfolding select_stream prepare_stream
  streaming_task compat headers username res = do
    sel ← select_stream compat header_names headers username res
    λ s. guarded sel ((do prepare_stream res sel (find header_names.offset headers); pure sel) s)

-- A response, or a transfer that goes on in tasks of its own.
pub data Reply (A : Type 0) : Type 0 where
  respond : Response → Reply A
  started : A → Reply A

abbrev pub reply : {A : Type 0} → Response → Outcome A → Reply A
reply res (value a) = started a
reply res (sent r) = respond r
reply res (thrown e) = respond (catch_all res (thrown e))

module _ {Z Conn Out : Type 0} (io : Io Z Conn Out) where
  unfoldable pub op_write :
      Bool
      → Identity
      → Request
      → Map Bytes
      → Server Z Out
      → Reply (Selection Out × Bytes) × Server Z Out
  unfolding write_task
  op_write compat (refused r) req args s = (respond r, s)
  op_write compat (client username) req args s =
      let done = write_task io compat args username (initial_response req) s in
      (reply (initial_response req) done.0, done.1)

  unfoldable pub op_write_streaming :
      Bool → Identity → Request → Map Bytes → Server Z Out → Reply (Selection Out) × Server Z Out
  unfolding streaming_task
  op_write_streaming compat (refused r) req headers s = (respond r, s)
  op_write_streaming compat (client username) req headers s =
      let done = streaming_task io compat headers username (initial_response req) s in
      (reply (initial_response req) done.0, done.1)
