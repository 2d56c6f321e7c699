-- ===== src/DataObjects/Writer/Streaming.antt =====
-- What `streaming_write` delivers to the stream: the pieces of the body as the socket gives them.
use mathlib.Core.List.{append_assoc, append-nil}
use irods_client_http_api.Prelude.{
  ◌≡◌, refl, sym, ap, ◌∙◌, Bool, true, false, List, [], ◌∷◌, ◌++◌, Option, none, some, Bytes, arith,
  subst, if◌then◌else◌, ℕ, ◌≤◌, length, take, ◌+◌, ◌-◌, drop, length-append, length-drop,
  take-length_append,
}
use irods_client_http_api.Http.{Response}
use irods_client_http_api.DataObjects.Io.{Io, Server}
use irods_client_http_api.DataObjects.Shutdown.{ok_response}
use irods_client_http_api.DataObjects.Writer.{
  again, finished, SocketRead, received, read_error, StreamWriter, stream_turn, run_stream_writer,
}
use irods_client_http_api.DataObjects.Writer.Delivery.{IsSink, release-io}

-- What Beast documents of a read into a `buffer_body`: the bytes are put where `data` points, which
-- moves behind them, and `size` becomes what is left of the room; no other byte changes.
abbrev pub Receives : Bytes → Bool → SocketRead → Type 0
Receives bytes done read =
    (buffer : Bytes) (position size : ℕ)
    → length bytes ≤ size
    → read buffer position size
      ≡ received (take position buffer ++ bytes ++ drop (position + length bytes) buffer)
          (position + length bytes) (size - length bytes) done

-- The reads of a body in pieces, where the last one completes it.
abbrev pub ReceivesBody : List Bytes → Bytes → List SocketRead → Type 0
ReceivesBody [] last [] = ⊥
ReceivesBody [] last (read ∷ []) = Receives last true read
ReceivesBody [] last (read ∷ (more ∷ reads)) = ⊥
ReceivesBody (piece ∷ pieces) last [] = ⊥
ReceivesBody (piece ∷ pieces) last (read ∷ reads) =
    Receives piece false read × ReceivesBody pieces last reads

-- No read gives more than the buffer has room for.
abbrev pub Fit : ℕ → List Bytes → Bytes → Type 0
Fit size [] last = length last ≤ size
Fit size (piece ∷ pieces) last = (length piece ≤ size) × Fit size pieces last

abbrev pub joined : List Bytes → Bytes → Bytes
joined [] last = last
joined (piece ∷ pieces) last = piece ++ joined pieces last

-- The state behind a read.
abbrev filled : {Out : Type 0} → StreamWriter Out → Bytes → Bool → StreamWriter Out
filled w piece done = record w {
  buffer = take 0 w.buffer ++ piece ++ drop (0 + length piece) w.buffer;
  body_data = 0 + length piece;
  body_size = length w.buffer - length piece;
  is_done = done;
}

length-filled :
    {Out : Type 0} (w : StreamWriter Out) (piece : Bytes) (done : Bool)
    → length piece ≤ length w.buffer
    → length (filled w piece done).buffer ≡ length w.buffer
length-filled w piece done fits = omega (
  arith,
  length-append piece (drop (0 + length piece) w.buffer),
  length-drop (0 + length piece) w.buffer,
)

-- The bytes that are sent on are those of the read, and no byte that was in the buffer before.
sent_bytes :
    {Out : Type 0} (w : StreamWriter Out) (piece : Bytes) (done : Bool)
    → length piece ≤ length w.buffer
    → take
        (length (filled w piece done).buffer - (filled w piece done).body_size)
        (filled w piece done).buffer
      ≡ piece
sent_bytes w piece done fits =
    let front : length (filled w piece done).buffer - (filled w piece done).body_size
        ≡ length piece =
      omega (arith, length-filled w piece done fits) in
    rw front (take-length_append piece (drop (0 + length piece) w.buffer))

module _ {Z Conn Out : Type 0} (io : Io Z Conn Out) (content : Z → Bytes) where
  -- The response is success, and the stream holds `bytes` behind what it held.
  abbrev pub Streams : Response → Bytes → Server Z Out → Option (Response × Server Z Out) → Type 0
  Streams res bytes s none = ⊥
  Streams res bytes s (some (r, s')) =
      (r ≡ ok_response res) × (content s'.io ≡ content s.io ++ bytes)

  stream_turn-again :
      (w : StreamWriter Out) (read : SocketRead) (piece : Bytes) (done : Bool) (s : Server Z Out)
      → Receives piece done read
      → IsSink io w.selection.out content
      → w.is_done ≡ false
      → length piece ≤ length w.buffer
      → stream_turn io w read s
        ≡ (again (filled w piece done), record s { io = (io.write w.selection.out piece s.io).1 })
  unfolding stream_turn
  stream_turn-again w read piece done s gets sink more fits =
      rw
        (
          more,
          gets w.buffer 0 (length w.buffer) fits,
          sink.good s.io,
          sent_bytes w piece done fits,
          sink.writes piece s.io,
        )
        refl

  stream_turn-finished :
      (w : StreamWriter Out) (read : SocketRead) (s : Server Z Out)
      → IsSink io w.selection.out content
      → w.is_done ≡ true
      → ((stream_turn io w read s).0 ≡ finished (ok_response w.res))
        × (content (stream_turn io w read s).1.io ≡ content s.io)
  unfolding stream_turn
  stream_turn-finished w read s sink end = ground (
    arith,
    end,
    sink.closes s.io,
    sink.keeps s.io,
    release-io io content w.selection.claim s,
    release-io io content w.selection.claim (record s { io = (io.close w.selection.out s.io).1 }),
  )

  Streams-if :
      (res : Response) (bytes : Bytes) (s : Server Z Out) (b : Bool)
      (o : Option (Response × Server Z Out))
      → b ≡ true
      → Streams res bytes s o
      → Streams res bytes s (if b then o else none)
  Streams-if res bytes s true o e d = d
  Streams-if res bytes s false o e d = cc e

  Streams-finished :
      (w : StreamWriter Out) (s : Server Z Out)
      → IsSink io w.selection.out content
      → w.is_done ≡ true
      → Streams w.res [] s (run_stream_writer io [] w s)
  unfolding run_stream_writer
  Streams-finished w s sink end =
      let (e, same) = stream_turn-finished w (λ buffer position size. read_error) s sink end in
      Streams-if w.res [] s w.is_done _ end (rw e (refl, same ∙ sym (append-nil (content s.io))))

  Streams-again :
      (w w' : StreamWriter Out) (read : SocketRead) (reads : List SocketRead) (bytes : Bytes)
      (s s' : Server Z Out)
      → stream_turn io w read s ≡ (again w', s')
      → Streams w.res bytes s (run_stream_writer io reads w' s')
      → Streams w.res bytes s (run_stream_writer io (read ∷ reads) w s)
  unfolding run_stream_writer
  Streams-again w w' read reads bytes s s' e d = rw e d

  -- A later state streams the rest behind the piece.
  Streams-append :
      (res : Response) (piece rest : Bytes) (s s' : Server Z Out)
      (o : Option (Response × Server Z Out))
      → content s'.io ≡ content s.io ++ piece
      → Streams res rest s' o
      → Streams res (piece ++ rest) s o
  Streams-append res piece rest s s' none c d = d
  Streams-append res piece rest s s' (some (r, t)) c d =
      (d.0, d.1 ∙ ap (λ (b : Bytes). b ++ rest) c ∙ append_assoc (content s.io) piece rest)

  -- If the stream takes all that is written to it, and the reads put their bytes where the body of the
  -- parser points, then a streamed transfer of a body, which the socket gives in pieces of any sizes that
  -- the buffer has room for, ends when the body is complete, whatever the buffer held at first; it
  -- reports success, and the stream then holds exactly the body behind what it held before.
  pub run_stream_writer-joined :
      (pieces : List Bytes) (last : Bytes) (reads : List SocketRead) (w : StreamWriter Out)
      (s : Server Z Out)
      → ReceivesBody pieces last reads
      → IsSink io w.selection.out content
      → w.is_done ≡ false
      → Fit (length w.buffer) pieces last
      → Streams w.res (joined pieces last) s (run_stream_writer io reads w s)
  run_stream_writer-joined [] last [] w s gets sink more fits = absurd gets
  run_stream_writer-joined [] last (read ∷ (other ∷ reads)) w s gets sink more fits = absurd gets
  run_stream_writer-joined [] last (read ∷ []) w s gets sink more fits =
      let w' = filled w last true in
      let s' = record s { io = (io.write w.selection.out last s.io).1 } in
      subst (λ (b : Bytes). Streams w.res b s (run_stream_writer io (read ∷ []) w s))
        (append-nil last)
        (Streams-again w w' read [] (last ++ []) s s'
          (stream_turn-again w read last true s gets sink more fits)
          (Streams-append w.res last [] s s' (run_stream_writer io [] w' s')
            (sink.appends last s.io) (Streams-finished w' s' sink refl)))
  run_stream_writer-joined (piece ∷ pieces) last [] w s gets sink more fits = absurd gets
  run_stream_writer-joined (piece ∷ pieces) last (read ∷ reads) w s (gets, later) sink more
        (fits, others) =
      let w' = filled w piece false in
      let s' = record s { io = (io.write w.selection.out piece s.io).1 } in
      let others' : Fit (length w'.buffer) pieces last =
        subst (λ n. Fit n pieces last) (sym (length-filled w piece false fits)) others in
      Streams-again w w' read reads (piece ++ joined pieces last) s s'
        (stream_turn-again w read piece false s gets sink more fits)
        (Streams-append w.res piece (joined pieces last) s s' (run_stream_writer io reads w' s')
          (sink.appends piece s.io)
          (run_stream_writer-joined pieces last reads w' s' later sink refl others'))
