-- ===== src/DataObjects/Streams.antt =====
-- Parallel write streams: their constructor, and the search for one that is free.
use irods_client_http_api.Prelude.{
  ℕ, suc, Bool, true, false, not, [], ◌∷◌, ◌++◌, Option, none, some, Bytes, if◌then◌else◌, text,
  ◌==◌,
}
use irods_client_http_api.Http.{ℤ, pos, negsuc, is_negative}
use irods_client_http_api.Http.Exec.{Exec, value, thrown, irods_exception, pure, throw, ◌>>=◌, ◌>>◌}
use irods_client_http_api.DataObjects.Io.{
  OpenMode, Target, replica_of, root_resource, replica_number, any_replica, Io, PwStream, Context,
}

abbrev pub is_zero : ℤ → Bool
is_zero (pos n) = n == 0
is_zero (negsuc n) = false

abbrev pub throw_if : {S : Type 0} → Bool → ℤ → Bytes → Exec S (Unit {0})
throw_if true ec message = throw (irods_exception ec message)
throw_if false ec message = pure tt

abbrev cannot_open : Bytes → Bytes
cannot_open path = text "Could not open output stream to [" ++ (path ++ text "].")

module _ {Z Conn Out : Type 0} (io : Io Z Conn Out) where
  -- The ticket of the request, where there is one.
  unfoldable pub use_ticket : Conn → Option Bytes → Exec Z (Unit {0})
  use_ticket conn none = pure tt
  use_ticket conn (some ticket) = do
    ec ← io.ticket_admin conn ticket
    throw_if (is_negative ec) ec (text "Error enabling ticket on connection.")

  unfoldable pub check_authentication : Conn → ℤ → Exec Z (Unit {0})
  check_authentication conn ec = if is_zero ec then pure tt else (do
    io.disconnect conn
    throw (
        irods_exception io.sys_internal_err
          (text "Could not connect to iRODS server as proxied user.")))

  abbrev pub target : Option Out → Option Bytes → Option ℤ → Target Out
  target (some base) resource replica = replica_of base
  target none (some resource) replica = root_resource resource
  target none none (some n) = replica_number n
  target none none none = any_replica

  -- The constructor of `parallel_write_stream`.
  unfoldable pub open_parallel_write_stream :
      Bytes
      → Bytes
      → Option Bytes
      → Option ℤ
      → OpenMode
      → Option Bytes
      → Option Out
      → Exec Z (PwStream Out)
  unfolding use_ticket check_authentication
  open_parallel_write_stream username path resource replica mode ticket base = do
    conn ← io.connect username
    ec ← io.authenticate conn
    check_authentication conn ec
    use_ticket conn ticket
    out ← io.open_stream conn path (target base resource replica) mode
    λ z.
        if io.is_good out z
        then (value (record { out = out; in_use = false }), z)
        else (thrown (irods_exception (io.last_error out z) (cannot_open path)), z)

module _ {Out : Type 0} where
  abbrev later :
      PwStream Out
      → Option (ℕ × PwStream Out × Context Out)
      → Option (ℕ × PwStream Out × Context Out)
  later s none = none
  later s (some (i, t, rest)) = some (suc i, t, s ∷ rest)

  -- The position of the stream that is taken, the stream, and the streams afterwards.
  unfoldable pub find_available_parallel_write_stream :
      Context Out → Option (ℕ × PwStream Out × Context Out)
  find_available_parallel_write_stream [] = none
  find_available_parallel_write_stream (s ∷ streams) =
      let rest = find_available_parallel_write_stream streams in
      if not s.in_use then some (0, s, record s { in_use = true } ∷ streams) else later s rest

  -- What the guard of a taken stream does at the end of the write.
  unfoldable pub mark_as_usable : ℕ → Context Out → Context Out
  mark_as_usable i [] = []
  mark_as_usable ℕ.zero (s ∷ streams) = record s { in_use = false } ∷ streams
  mark_as_usable (suc i) (s ∷ streams) = s ∷ mark_as_usable i streams
