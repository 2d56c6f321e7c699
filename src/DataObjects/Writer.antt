-- ===== src/DataObjects/Writer.antt =====
-- `incremental_write` and `streaming_write`: one background task for each step of a transfer.
pub mod Delivery
pub mod Streaming
use irods_client_http_api.Prelude.{
  ℕ, zero, suc, ◌+◌, ◌-◌, Bool, true, false, not, List, [], ◌∷◌, Option, none, some, Bytes, ltb,
  if◌then◌else◌, take, drop, min, length,
}
use irods_client_http_api.Http.{Response, internal_server_error, fail_in}
use irods_client_http_api.Http.Exec.{Exec, Outcome, value, sent, thrown, pure, send, ◌>>=◌, ◌>>◌}
use irods_client_http_api.DataObjects.Io.{Io, Server, call}
use irods_client_http_api.DataObjects.Shutdown.{ok_response}
use irods_client_http_api.DataObjects.Select.{Selection, release}
use irods_client_http_api.DataObjects.Write.{close_if_not_parallel}

-- `read_pos_` is an offset into the buffer.
pub record Writer (Out : Type 0) : Type 0 where
  pub selection : Selection Out
  pub res : Response
  pub buffer : Bytes
  pub read_pos : ℕ
  pub remaining_bytes : ℕ
  pub max_bytes_per_write : ℕ

-- What a task ends with: the next task, or the response; a transfer that has sent its response is
-- destroyed, and its guard is run.
pub data Progress (W : Type 0) : Type 0 where
  again : W → Progress W
  finished : Response → Progress W

-- Every exception becomes the same response.
abbrev pub settle :
    {Z Out W : Type 0}
    → Response
    → Selection Out
    → Outcome W × Server Z Out
    → Progress W × Server Z Out
settle res sel (value w, s) = (again w, s)
settle res sel (sent r, s) = (finished r, release sel.claim s)
settle res sel (thrown e, s) = (finished (fail_in res internal_server_error), release sel.claim s)

-- Goes on with the next task, if there is one.
abbrev pub resume :
    {Z Out W : Type 0}
    → (W → Server Z Out → Option (Response × Server Z Out))
    → Progress W × Server Z Out
    → Option (Response × Server Z Out)
resume run (again w, s) = run w s
resume run (finished r, s) = some (r, s)

module _ {Z Conn Out : Type 0} (io : Io Z Conn Out) where
  -- Refuses to go on where the stream is in a bad state.
  unfoldable pub require_good : Response → Out → Exec (Server Z Out) (Unit {0})
  require_good res out s =
      if io.is_good out s.io then pure tt s else send (fail_in res internal_server_error) s

  unfoldable pub finish_transfer : {W : Type 0} → Response → Selection Out → Exec (Server Z Out) W
  unfolding close_if_not_parallel
  finish_transfer res sel = do close_if_not_parallel io sel; send (ok_response res)

  unfoldable pub write_step : Writer Out → Exec (Server Z Out) (Writer Out)
  unfolding require_good finish_transfer
  write_step w =
      if ltb 0 w.remaining_bytes
      then (do
        require_good w.res w.selection.out
        let to_send = min w.remaining_bytes w.max_bytes_per_write
        call (io.write w.selection.out (take to_send (drop w.read_pos w.buffer)))
        pure (record w {
          read_pos = w.read_pos + to_send;
          remaining_bytes = w.remaining_bytes - to_send;
        }))
      else finish_transfer w.res w.selection

  -- `incremental_write::stream_bytes_to_irods`
  unfoldable pub write_turn : Writer Out → Server Z Out → Progress (Writer Out) × Server Z Out
  unfolding write_step
  write_turn w s = settle w.res w.selection (write_step w s)

  -- The tasks one after another, on fuel.
  unfoldable pub run_writer : ℕ → Writer Out → Server Z Out → Option (Response × Server Z Out)
  run_writer zero w s = none
  run_writer (suc fuel) w s = resume (run_writer fuel) (write_turn w s)

  -- The state that `op_write` starts the transfer with.
  abbrev pub start_writer : Response → ℕ → Selection Out × Bytes → Writer Out
  start_writer res limit (sel, bytes) = record {
    selection = sel;
    res = res;
    buffer = bytes;
    read_pos = 0;
    remaining_bytes = length bytes;
    max_bytes_per_write = limit;
  }

-- What a read of the socket leaves: the bytes of the buffer, `data` and `size` of the parser's body, and
-- whether the body is complete; or an error.
pub data Received : Type 0 where
  received : Bytes → ℕ → ℕ → Bool → Received
  read_error : Received

-- `http::async_read` into a buffer with `data` and `size` of the parser's body.
abbrev pub SocketRead : Type 0
SocketRead = Bytes → ℕ → ℕ → Received

-- `body_data` is `bb_parser_.get().body().data`, as an offset into the buffer, and `body_size` is
-- `bb_parser_.get().body().size`; `is_done` is `bb_parser_.is_done()`.
pub record StreamWriter (Out : Type 0) : Type 0 where
  pub selection : Selection Out
  pub res : Response
  pub buffer : Bytes
  pub body_data : ℕ
  pub body_size : ℕ
  pub is_done : Bool

-- The buffer of the parser's body is the whole buffer.
abbrev pub set_up_body : {Out : Type 0} → StreamWriter Out → StreamWriter Out
set_up_body w = record w { body_data = 0; body_size = length w.buffer }

module _ {Z Conn Out : Type 0} (io : Io Z Conn Out) where
  -- `streaming_write::stream_bytes_to_irods`: the front of the buffer goes to the stream.
  unfoldable pub forward_bytes : StreamWriter Out → Exec (Server Z Out) (StreamWriter Out)
  unfolding require_good
  forward_bytes w = do
    require_good io w.res w.selection.out
    let to_send = length w.buffer - w.body_size
    call (io.write w.selection.out (take to_send w.buffer))
    pure w

  abbrev forward_read : StreamWriter Out → Received → Exec (Server Z Out) (StreamWriter Out)
  forward_read w read_error = send (fail_in w.res internal_server_error)
  forward_read w (received buffer position size done) =
      forward_bytes
        (record w { buffer = buffer; body_data = position; body_size = size; is_done = done })

  abbrev read_body : SocketRead → StreamWriter Out → Exec (Server Z Out) (StreamWriter Out)
  read_body read w = forward_read w (read w.buffer w.body_data w.body_size)

  -- `streaming_write::stream_bytes_from_client` and the task that follows it. The read is used only
  -- if the body is not complete.
  unfoldable pub stream_step :
      StreamWriter Out → SocketRead → Exec (Server Z Out) (StreamWriter Out)
  unfolding forward_bytes finish_transfer
  stream_step w read =
      if not w.is_done then read_body read (set_up_body w) else finish_transfer io w.res w.selection

  unfoldable pub stream_turn :
      StreamWriter Out → SocketRead → Server Z Out → Progress (StreamWriter Out) × Server Z Out
  unfolding stream_step
  stream_turn w read s = settle w.res w.selection (stream_step w read s)

  -- The turns over the reads that the socket gives; `none` where they end before the response.
  unfoldable pub run_stream_writer :
      List SocketRead → StreamWriter Out → Server Z Out → Option (Response × Server Z Out)
  run_stream_writer [] w s =
      if w.is_done
      then resume (λ w' s'. none) (stream_turn w (λ buffer position size. read_error) s)
      else none
  run_stream_writer (read ∷ reads) w s = resume (run_stream_writer reads) (stream_turn w read s)
