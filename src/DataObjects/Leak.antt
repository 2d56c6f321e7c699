-- ===== src/DataObjects/Leak.antt =====
-- The count of streams after a failure in the middle of `op_parallel_write_init`.
use irods_client_http_api.Prelude.{
  ℕ, suc, ◌+◌, ◌-◌, ◌≤◌, ◌≡◌, Option, none, some, Bytes, arith, text,
}
use irods_client_http_api.Map.{Map, find}
use irods_client_http_api.Number.{stoi}
use irods_client_http_api.Http.{ℤ, pos, Request, initial_response, json, irods_error}
use irods_client_http_api.Http.Exec.{Outcome, value, thrown, irods_exception, client}
use irods_client_http_api.DataObjects.Io.{Io, PwStream, Server}
use irods_client_http_api.DataObjects.Streams.{open_parallel_write_stream}
use irods_client_http_api.DataObjects.Init.{
  Limits, open_mode, init_arguments, open_requested, init_task, op_parallel_write_init,
}

module _ {Z Conn Out : Type 0} (io : Io Z Conn Out) (limits : Limits) (req : Request)
    (args : Map Bytes) (username handle path n : Bytes) (s : Server Z Out) where
  abbrev opened_with : Option Out → Z → (Outcome (PwStream Out) × Z)
  opened_with base =
      open_parallel_write_stream io username path none none
        (open_mode (find (text "truncate") args) (find (text "append") args))
        (find (text "ticket") args) base

  open_requested_leaks :
      (k : ℕ) (t : PwStream Out) (z z' : Z) (ec : ℤ) (what : Bytes)
      → find (text "resource") args ≡ none
      → find (text "replica-number") args ≡ none
      → opened_with none s.io ≡ (value t, z)
      → opened_with (some t.out) z ≡ (thrown (irods_exception ec what), z')
      → open_requested io (initial_response req) args username path (k + 2) s
        ≡ (thrown (irods_exception ec what), record s { active = s.active + 1; io = z' })
  unfolding open_requested
  open_requested_leaks k t z z' ec what e4 e5 first second =
      let c : k + 2 - 1 ≡ suc k = omega arith in rw (e4, e5, c, first, second)

  -- If the arguments ask for at least two streams, name no resource and no replica, and pass all
  -- checks, and if the first stream opens but the second one fails with an iRODS error, then the
  -- client is told of the error, no handle is registered, and the count is one higher than before.
  pub op_parallel_write_init_leaks :
      (k : ℕ) (t : PwStream Out) (z z' : Z) (ec : ℤ) (what : Bytes)
      → find (text "lpath") args ≡ some path
      → find (text "stream-count") args ≡ some n
      → stoi n ≡ some (pos (k + 2))
      → find (text "resource") args ≡ none
      → find (text "replica-number") args ≡ none
      → k + 2 ≤ limits.max_streams_per_handle
      → s.active + (k + 2) ≤ limits.max_streams
      → opened_with none s.io ≡ (value t, z)
      → opened_with (some t.out) z ≡ (thrown (irods_exception ec what), z')
      → op_parallel_write_init io limits (client username) req args handle s ≡ (
        record (initial_response req) { body = json (irods_error ec what) },
        record s { active = s.active + 1; io = z' },
      )
  unfolding op_parallel_write_init init_task init_arguments
  op_parallel_write_init_leaks k t z z' ec what e1 e2 e3 e4 e5 h1 h2 first second =
      let passed : init_arguments io limits (initial_response req) args s
          ≡ (value (path, k + 2), s) =
        ground arith in
      rw (passed, open_requested_leaks k t z z' ec what e4 e5 first second)
