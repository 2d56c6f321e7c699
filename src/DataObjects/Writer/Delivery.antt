-- ===== src/DataObjects/Writer/Delivery.antt =====
-- What a transfer delivers to the stream, and what it reports.
use mathlib.Core.List.{append_assoc, append-nil}
use irods_client_http_api.Prelude.{
  ℕ, zero, suc, ◌+◌, ◌-◌, ◌≤◌, ◌<◌, ◌≡◌, refl, sym, ap, ◌∙◌, ◌⊎◌, inl, inr, true, [], ◌∷◌, ◌++◌,
  Option, none, some, Bytes, arith, take, drop, min, length, take-append-drop, drop-add,
  length-drop,
}
use irods_client_http_api.Http.{Response}
use irods_client_http_api.Http.Exec.{value}
use irods_client_http_api.DataObjects.Io.{Io, Server}
use irods_client_http_api.DataObjects.Shutdown.{ok_response}
use irods_client_http_api.DataObjects.Select.{Selection, release}
use irods_client_http_api.DataObjects.Writer.{
  Writer, again, finished, write_turn, run_writer, start_writer,
}

-- A stream that takes all that is written to it: `content` is what it holds.
pub record IsSink {Z Conn Out : Type 0} (io : Io Z Conn Out) (out : Out) (content : Z → Bytes)
    : Type 0 where
  pub good : (z : Z) → io.is_good out z ≡ true
  pub writes : (b : Bytes) (z : Z) → (io.write out b z).0 ≡ value tt
  pub appends : (b : Bytes) (z : Z) → content (io.write out b z).1 ≡ content z ++ b
  pub closes : (z : Z) → (io.close out z).0 ≡ value tt
  pub keeps : (z : Z) → content (io.close out z).1 ≡ content z

zero_or_more : (n : ℕ) → (n ≡ 0) ⊎ (0 < n)
zero_or_more zero = inl refl
zero_or_more (suc n) = inr (omega arith)

module _ {Z Conn Out : Type 0} (io : Io Z Conn Out) (content : Z → Bytes) where
  -- The response is success, and the stream holds `bytes` behind what it held.
  abbrev pub Delivers :
      Writer Out → Bytes → Server Z Out → Option (Response × Server Z Out) → Type 0
  Delivers w bytes s none = ⊥
  Delivers w bytes s (some (r, s')) =
      (r ≡ ok_response w.res) × (content s'.io ≡ content s.io ++ bytes)

  abbrev next_chunk : Writer Out → Bytes
  next_chunk w = take (min w.remaining_bytes w.max_bytes_per_write) (drop w.read_pos w.buffer)

  abbrev advanced : Writer Out → Writer Out
  advanced w = record w {
    read_pos = w.read_pos + min w.remaining_bytes w.max_bytes_per_write;
    remaining_bytes = w.remaining_bytes - min w.remaining_bytes w.max_bytes_per_write;
  }

  write_turn-again :
      (w : Writer Out) (s : Server Z Out)
      → IsSink io w.selection.out content
      → 0 < w.remaining_bytes
      → write_turn io w s
        ≡ (again (advanced w), record s { io = (io.write w.selection.out (next_chunk w) s.io).1 })
  unfolding write_turn
  write_turn-again w s sink more = ground (arith, sink.good s.io, sink.writes (next_chunk w) s.io)

  pub release-io : (claim : Option (Bytes × ℕ)) (s : Server Z Out) → (release claim s).io ≡ s.io
  unfolding release
  release-io none s = refl
  release-io (some (handle, i)) s = ground arith

  write_turn-finished :
      (w : Writer Out) (s : Server Z Out)
      → IsSink io w.selection.out content
      → w.remaining_bytes ≡ 0
      → ((write_turn io w s).0 ≡ finished (ok_response w.res))
        × (content (write_turn io w s).1.io ≡ content s.io)
  unfolding write_turn
  write_turn-finished w s sink end = ground (
    arith,
    sink.closes s.io,
    sink.keeps s.io,
    release-io w.selection.claim s,
    release-io w.selection.claim (record s { io = (io.close w.selection.out s.io).1 }),
  )

  Delivers-finished :
      (fuel : ℕ) (w : Writer Out) (s : Server Z Out)
      → (write_turn io w s).0 ≡ finished (ok_response w.res)
      → content (write_turn io w s).1.io ≡ content s.io
      → Delivers w [] s (run_writer io (suc fuel) w s)
  unfolding run_writer
  Delivers-finished fuel w s e same = rw e (refl, same ∙ sym (append-nil (content s.io)))

  Delivers-again :
      (fuel : ℕ) (w w' : Writer Out) (bytes : Bytes) (s s' : Server Z Out)
      → write_turn io w s ≡ (again w', s')
      → Delivers w bytes s (run_writer io fuel w' s')
      → Delivers w bytes s (run_writer io (suc fuel) w s)
  unfolding run_writer
  Delivers-again fuel w w' bytes s s' e d = rw e d

  -- A later state delivers the rest behind the chunk.
  Delivers-append :
      (w w' : Writer Out) (chunk rest : Bytes) (s s' : Server Z Out)
      (o : Option (Response × Server Z Out))
      → w.res ≡ w'.res
      → content s'.io ≡ content s.io ++ chunk
      → Delivers w' rest s' o
      → Delivers w (chunk ++ rest) s o
  Delivers-append w w' chunk rest s s' none e c d = d
  Delivers-append w w' chunk rest s s' (some (r, t)) e c d =
      (ground arith, d.1 ∙ ap (λ (b : Bytes). b ++ rest) c ∙ append_assoc (content s.io) chunk rest)

  drop-length_all : (n : ℕ) (b : Bytes) → n ≡ length b → drop n b ≡ []
  drop-length_all n b e = nil_of_length (drop n b) (omega (arith, length-drop n b))
    where
      nil_of_length : (b : Bytes) → length b ≡ 0 → b ≡ []
      nil_of_length [] h = refl
      nil_of_length (x ∷ b) h = absurd (omega arith)

  run_writer-Delivers :
      (fuel : ℕ) (w : Writer Out) (s : Server Z Out)
      → IsSink io w.selection.out content
      → 0 < w.max_bytes_per_write
      → w.read_pos + w.remaining_bytes ≡ length w.buffer
      → w.remaining_bytes < fuel
      → Delivers w (drop w.read_pos w.buffer) s (run_writer io fuel w s)
  run_writer-Delivers zero w s sink some_max whole enough = absurd (omega arith)
  run_writer-Delivers (suc fuel) w s sink some_max whole enough =
      elim (zero_or_more w.remaining_bytes) [
        | inr more ↦
            let rest =
              run_writer-Delivers fuel (advanced w)
                (record s { io = (io.write w.selection.out (next_chunk w) s.io).1 }) sink some_max
                (omega arith) (omega arith) in
            let size = min w.remaining_bytes w.max_bytes_per_write in
            let joined : next_chunk w ++ drop (w.read_pos + size) w.buffer
                ≡ drop w.read_pos w.buffer =
              rw (drop-add w.read_pos size w.buffer)
                (take-append-drop size (drop w.read_pos w.buffer)) in
            rw (← joined) (
              Delivers-again fuel w (advanced w) _ s _ (write_turn-again w s sink more) (
                Delivers-append w (advanced w) (next_chunk w) _ s
                  (record s { io = (io.write w.selection.out (next_chunk w) s.io).1 }) _ refl
                  (sink.appends (next_chunk w) s.io) rest))
        | inl done ↦
            let (e, same) = write_turn-finished w s sink done in
            rw (drop-length_all w.read_pos w.buffer (omega arith))
              (Delivers-finished fuel w s e same)
      ]

-- If the stream takes all that is written to it and the limit for one write is at least 1, then a
-- transfer ends within one turn more than it has bytes, whatever the limit is; it reports success,
-- and the stream then holds exactly the bytes of the request behind what it held before.
pub run_writer-start_writer :
    {Z Conn Out : Type 0} (io : Io Z Conn Out) (content : Z → Bytes) (res : Response) (limit : ℕ)
    (sel : Selection Out) (bytes : Bytes) (s : Server Z Out)
    → IsSink io sel.out content
    → 0 < limit
    → Delivers io content
        (start_writer io res limit (sel, bytes))
        bytes
        s
        (run_writer io (length bytes + 1) (start_writer io res limit (sel, bytes)) s)
run_writer-start_writer io content res limit sel bytes s sink some_max =
    run_writer-Delivers io content (length bytes + 1) (start_writer io res limit (sel, bytes)) s
      sink some_max (omega arith) (omega arith)

-- If one write takes all bytes that are left, the stream is good before it and the write does not
-- throw, then a parallel write reports success in whatever state the write leaves the stream.
pub run_writer_unchecked :
    {Z Conn Out : Type 0} (io : Io Z Conn Out) (w : Writer Out) (s : Server Z Out) (z : Z)
    → w.selection.is_parallel ≡ true
    → 0 < w.remaining_bytes
    → w.remaining_bytes ≤ w.max_bytes_per_write
    → io.is_good w.selection.out s.io ≡ true
    → io.write w.selection.out (take w.remaining_bytes (drop w.read_pos w.buffer)) s.io
      ≡ (value tt, z)
    → run_writer io 2 w s
      ≡ some (ok_response w.res, release w.selection.claim (record s { io = z }))
unfolding run_writer write_turn
run_writer_unchecked io w s z parallel more fits good written =
    let size : min w.remaining_bytes w.max_bytes_per_write ≡ w.remaining_bytes = omega arith in
    ground (arith, size)
