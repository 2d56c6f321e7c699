-- ===== src/DataObjects/Read/Client.antt =====
-- What `op_read` uses of the client library beside the connections, and of the socket.
use irods_client_http_api.Prelude.{ℕ, Bool, Bytes}
use irods_client_http_api.Http.Exec.{Exec}
use irods_client_http_api.DataObjects.Io.{Target}

-- How a write of a part of the body to the socket completes: `http::error::need_buffer` asks for
-- more of the body.
pub data WriteResult : Type 0 where
  need_buffer no_error write_error : WriteResult

pub record Files (Z Conn In : Type 0) : Type 0 where
  -- `is_data_object` of the status of a path.
  pub is_data_object : Conn → Bytes → Exec Z Bool
  -- An unsigned 64-bit number.
  pub data_object_size : Conn → Bytes → Exec Z ℕ
  -- `idstream::open` over a native transport: connection, path, target.
  pub open_stream : Conn → Bytes → Target (Unit {0}) → Exec Z In
  -- `operator bool`, `fail` and `eof` of a stream.
  pub is_good : In → Z → Bool
  pub fail : In → Z → Bool
  pub eof : In → Z → Bool
  pub seekg : In → ℕ → Exec Z (Unit {0})
  -- `read`: at most this many bytes; the result is the part of the buffer that `gcount` counts.
  pub read : In → ℕ → Exec Z Bytes
  -- `async_write_header`, and `async_write` with the data and the flag `more`.
  pub write_header : Exec Z Bool
  pub write_body : Bytes → Bool → Z → WriteResult × Z
