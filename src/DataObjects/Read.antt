-- ===== src/DataObjects/Read.antt =====
-- `op_read` and `incremental_read`.
pub mod Client
pub mod Delivery
pub mod Slices
use irods_client_http_api.Prelude.{
  ℕ, zero, suc, ◌+◌, ◌-◌, ◌%◌, Bool, true, false, not, ◌&&◌, ◌||◌, [], Option, none, some, Bytes,
  text, if◌then◌else◌, ltb, leb, ◌==◌, min, length,
}
use irods_client_http_api.Map.{Map, find}
use irods_client_http_api.Number.{stoi, stoll}
use irods_client_http_api.Http.{
  ℤ, pos, negsuc, Request, Response, bad_request, not_found, internal_server_error, fail_in,
  fail_with, initial_response, json, raw, end, irods_response, irods_error, is_negative,
}
use irods_client_http_api.Http.Exec.{
  Exec, Exn, std_exception, Outcome, value, sent, thrown, pure, send, throw, require, reject_if,
  ◌>>=◌, ◌>>◌, Identity, refused, client,
}
use irods_client_http_api.DataObjects.Io.{Io, Target, root_resource, replica_number, any_replica}
use irods_client_http_api.DataObjects.Init.{with_status}
use irods_client_http_api.DataObjects.Write.{get_connection}
use irods_client_http_api.DataObjects.Read.Client.{
  Files, WriteResult, need_buffer, no_error, write_error,
}

abbrev pub uint64_mod : ℕ
uint64_mod = 18446744073709551616

-- `data_object_size - offset`, which is unsigned.
abbrev pub real_count : ℕ → ℕ → ℕ
real_count data_object_size offset = (data_object_size + uint64_mod - offset) % uint64_mod

-- An unsigned number as a `std::int64_t`.
abbrev pub to_int64 : ℕ → ℤ
to_int64 w = if ltb w 9223372036854775808 then pos w else negsuc (uint64_mod - w - 1)

-- `std::cmp_greater(count, real_count)`, and the count that is then taken.
abbrev pub clamp : ℕ → ℕ → ℤ
clamp real count = if ltb real count then to_int64 real else pos count

-- `incremental_read`
pub record Reader (In : Type 0) : Type 0 where
  pub stream : In
  pub buffer_size : ℕ
  pub remaining_bytes : ℕ

-- The response, or a transfer that goes on in tasks of its own.
pub data ReadReply (In : Type 0) : Type 0 where
  respond : Response → ReadReply In
  started : Reader In → ReadReply In

-- A task asks for another one, has ended the body, or leaves the response unfinished.
pub data ReadTurn (In : Type 0) : Type 0 where
  again : Reader In → ReadTurn In
  completed abandoned : ReadTurn In

-- Whether the body was ended.
pub data ReadEnd : Type 0 where
  whole broken : ReadEnd

module _ {Z Conn Out : Type 0} (io : Io Z Conn Out) where
  -- A ticket that cannot be enabled ends the request here.
  unfoldable pub ticket_or_send : Response → Conn → Option Bytes → Exec Z (Unit {0})
  ticket_or_send res conn none = pure tt
  ticket_or_send res conn (some ticket) = do
    ec ← io.ticket_admin conn ticket
    if is_negative ec
        then send (record res {
          result = internal_server_error;
          body = json (irods_error ec (text "Error enabling ticket on connection."));
        })
        else pure tt

module _ {Z Conn Out In : Type 0} (io : Io Z Conn Out) (files : Files Z Conn In) where
  -- "offset", which must not be negative.
  unfoldable pub offset_argument : Response → Option Bytes → Exec Z ℕ
  offset_argument res none = pure 0
  offset_argument res (some number) = elim (stoll number) [
    | none ↦ send (with_status res bad_request)
    | some (pos n) ↦ pure n
    | some (negsuc n) ↦ send (with_status res bad_request)
  ]

  -- "count", which is not more than what the object holds behind the offset.
  unfoldable pub count_argument : Response → ℕ → ℕ → Option Bytes → Exec Z ℤ
  count_argument res data_object_size offset none =
      pure (to_int64 (real_count data_object_size offset))
  count_argument res data_object_size offset (some number) = elim (stoll number) [
    | none ↦ send (with_status res bad_request)
    | some (pos n) ↦ pure (clamp (real_count data_object_size offset) n)
    | some (negsuc n) ↦ send (with_status res bad_request)
  ]

  -- "resource", or else "replica-number".
  unfoldable pub read_target : Response → Map Bytes → Exec Z (Target (Unit {0}))
  read_target res args = elim (find (text "resource") args) [
    | some resource ↦ pure (root_resource resource)
    | none ↦ elim (find (text "replica-number") args) [
      | none ↦ pure any_replica
      | some number ↦ elim (stoi number) [
        | none ↦ send (with_status res bad_request)
        | some n ↦ pure (replica_number n)
      ]
    ]
  ]

  unfoldable pub check_good : Response → In → Exec Z (Unit {0})
  check_good res stream z = if files.is_good stream z then pure tt z else send res z

  -- `offset > 0 && !in.seekg(offset)`
  unfoldable pub seek_stream : Response → In → ℕ → Exec Z (Unit {0})
  unfolding check_good
  seek_stream res stream offset =
      if offset == 0
      then pure tt
      else (files.seekg stream offset >> check_good (with_status res internal_server_error) stream)

  -- The stream is open and stands at the offset.
  unfoldable pub open_at : Response → Map Bytes → Conn → Bytes → ℕ → Exec Z In
  unfolding read_target check_good seek_stream
  open_at res args conn path offset = do
    target ← read_target res args
    stream ← files.open_stream conn path target
    check_good (with_status res bad_request) stream
    seek_stream res stream offset
    pure stream

  -- A connection of its own for a transfer in several tasks.
  unfoldable pub dedicated_connection : Bool → Response → Bytes → Conn → Exec Z Conn
  dedicated_connection true res username conn = pure conn
  dedicated_connection false res username conn = do
    dedicated_conn ← io.connect username
    ec ← io.authenticate dedicated_conn
    reject_if (is_negative ec) (fail_with res internal_server_error (json (irods_response ec end)))
    pure dedicated_conn

  -- More than the buffer can hold: `count` is positive.
  unfoldable pub start_reading :
      Bool → Response → Map Bytes → Bytes → Conn → Bytes → ℕ → ℕ → ℕ → Exec Z (ReadReply In)
  unfolding dedicated_connection open_at
  start_reading compat res args username conn path offset read_buffer_size count = do
    dedicated_conn ← dedicated_connection compat res username conn
    stream ← open_at res args dedicated_conn path offset
    pure (
        started
          (record { stream = stream; buffer_size = read_buffer_size; remaining_bytes = count }))

  -- All at once; a negative `count` is too long for a vector, which the code notices only here.
  unfoldable pub read_at_once : Response → Map Bytes → Conn → Bytes → ℕ → ℤ → Exec Z (ReadReply In)
  unfolding open_at check_good
  read_at_once res args conn path offset (negsuc n) = do
    stream ← open_at res args conn path offset
    throw std_exception
  read_at_once res args conn path offset (pos count) = do
    stream ← open_at res args conn path offset
    bytes ← files.read stream count
    check_good (with_status res internal_server_error) stream
    pure (respond (record res { body = raw bytes }))

  unfoldable pub read_counted :
      Bool → ℕ → Response → Map Bytes → Bytes → Conn → Bytes → ℕ → ℤ → Exec Z (ReadReply In)
  unfolding start_reading read_at_once
  read_counted compat read_buffer_size res args username conn path offset (negsuc n) =
      read_at_once res args conn path offset (negsuc n)
  read_counted compat read_buffer_size res args username conn path offset (pos count) =
      if ltb read_buffer_size count
      then start_reading compat res args username conn path offset read_buffer_size count
      else read_at_once res args conn path offset (pos count)

  -- The `try` block. The flag is "enable_4_2_compatibility", the size that of the buffer.
  unfoldable pub read_task : Bool → ℕ → Response → Map Bytes → Bytes → Exec Z (ReadReply In)
  unfolding get_connection ticket_or_send offset_argument count_argument read_counted
  read_task compat read_buffer_size res args username = do
    path ← require (find (text "lpath") args) (fail_in res bad_request)
    conn ← get_connection io compat username
    ticket_or_send io res conn (find (text "ticket") args)
    is_object ← files.is_data_object conn path
    reject_if (not is_object) (with_status res not_found)
    offset ← offset_argument res (find (text "offset") args)
    data_object_size ← files.data_object_size conn path
    count ← count_argument res data_object_size offset (find (text "count") args)
    read_counted compat read_buffer_size res args username conn path offset count

  -- Every exception is answered with 500.
  abbrev pub read_reply : Response → Outcome (ReadReply In) → ReadReply In
  read_reply res (value r) = r
  read_reply res (sent r) = respond r
  read_reply res (thrown e) = respond (with_status res internal_server_error)

  unfoldable pub op_read : Bool → ℕ → Identity → Request → Map Bytes → Z → ReadReply In × Z
  unfolding read_task
  op_read compat read_buffer_size (refused r) req args z = (respond r, z)
  op_read compat read_buffer_size (client username) req args z =
      let done = read_task compat read_buffer_size (initial_response req) args username z in
      (read_reply (initial_response req) done.0, done.1)

  abbrev pub after_write : Reader In → WriteResult × Z → ReadTurn In × Z
  after_write r (need_buffer, z) = (again r, z)
  after_write r (no_error, z) = (completed, z)
  after_write r (write_error, z) = (abandoned, z)

  -- The task behind the read of the stream.
  unfoldable pub send_chunk : Reader In → Bytes → Z → ReadTurn In × Z
  send_chunk r bytes z =
      if files.fail r.stream z
      then (abandoned, z)
      else if files.eof r.stream z || r.remaining_bytes == 0
      then after_write r (files.write_body [] false z)
      else after_write (record r { remaining_bytes = r.remaining_bytes - length bytes })
          (files.write_body bytes true z)

  abbrev pub chunk_turn : Reader In → Outcome Bytes × Z → ReadTurn In × Z
  chunk_turn r (value bytes, z) = send_chunk r bytes z
  chunk_turn r (sent _, z) = (abandoned, z)
  chunk_turn r (thrown e, z) = (abandoned, z)

  -- `incremental_read::stream_bytes_to_client`; nothing catches an exception of the read.
  unfoldable pub read_turn : Reader In → Z → ReadTurn In × Z
  unfolding send_chunk
  read_turn r z = chunk_turn r (files.read r.stream (min r.buffer_size r.remaining_bytes) z)

  abbrev pub continue_reading :
      (Reader In → Z → Option (ReadEnd × Z)) → ReadTurn In × Z → Option (ReadEnd × Z)
  continue_reading run (again r, z) = run r z
  continue_reading run (completed, z) = some (whole, z)
  continue_reading run (abandoned, z) = some (broken, z)

  -- The tasks one after another, on fuel.
  unfoldable pub run_reader : ℕ → Reader In → Z → Option (ReadEnd × Z)
  run_reader zero r z = none
  run_reader (suc fuel) r z = continue_reading (run_reader fuel) (read_turn r z)

  abbrev pub after_header : (Z → Option (ReadEnd × Z)) → Outcome Bool × Z → Option (ReadEnd × Z)
  after_header run (value true, z) = run z
  after_header run (_, z) = some (broken, z)

  -- `incremental_read::start`
  unfoldable pub start_reader : ℕ → Reader In → Z → Option (ReadEnd × Z)
  unfolding run_reader
  start_reader fuel r z = after_header (run_reader fuel r) (files.write_header z)
