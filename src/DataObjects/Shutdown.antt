-- ===== src/DataObjects/Shutdown.antt =====
-- `op_parallel_write_shutdown`: close the streams of a handle, and forget it.
use mathlib.Core.List.{reverse}
use irods_client_http_api.Prelude.{◌-◌, [], ◌∷◌, none, some, Bytes, text}
use irods_client_http_api.Map.{Map, find, erase}
use irods_client_http_api.Http.{
  pos, Request, Response, bad_request, fail, initial_response, json, end, irods_response,
}
use irods_client_http_api.Http.Exec.{
  Exec, value, pure, require, ◌>>=◌, ◌>>◌, catch_all, Identity, refused, client,
}
use irods_client_http_api.DataObjects.Io.{Io, Context, Server, call}

abbrev pub ok_response : Response → Response
ok_response res = record res { body = json (irods_response (pos 0) end) }

-- A close lowers the count; a negative count is not modelled.
abbrev discounted : {Z Out : Type 0} → Exec (Server Z Out) (Unit {0})
discounted s = (value tt, record s { active = s.active - 1 })

abbrev pub forget : {Z Out : Type 0} → Bytes → Exec (Server Z Out) (Unit {0})
forget handle s = (value tt, record s { contexts = erase handle s.contexts })

module _ {Z Conn Out : Type 0} (io : Io Z Conn Out) where
  -- The loop over the secondary streams, in the order in which they are given.
  unfoldable pub close_secondaries : Context Out → Exec (Server Z Out) (Unit {0})
  close_secondaries [] = pure tt
  close_secondaries (s ∷ streams) = do
    call (io.close_quietly s.out)
    discounted
    close_secondaries streams

  -- The primary stream is the last. A context has at least one stream; on an empty one the code
  -- would read before the front of the vector.
  unfoldable pub close_streams : Context Out → Exec (Server Z Out) (Unit {0})
  unfolding close_secondaries
  close_streams [] = pure tt
  close_streams (primary ∷ secondaries) = do
    close_secondaries (reverse secondaries)
    call (io.close primary.out)
    discounted

  -- Nothing happens where the handle is not known.
  unfoldable pub close_context : Bytes → Exec (Server Z Out) (Unit {0})
  unfolding close_streams
  close_context handle s = elim (find handle s.contexts) [
    | none ↦ pure tt s
    | some streams ↦ (close_streams streams >> forget handle) s
  ]

  unfoldable pub shutdown_task : Response → Map Bytes → Exec (Server Z Out) Response
  unfolding close_context
  shutdown_task res args = do
    handle ← require (find (text "parallel-write-handle") args) (fail bad_request)
    close_context handle
    pure (ok_response res)

  unfoldable pub op_parallel_write_shutdown :
      Identity → Request → Map Bytes → Server Z Out → Response × Server Z Out
  unfolding shutdown_task
  op_parallel_write_shutdown (refused r) req args s = (r, s)
  op_parallel_write_shutdown (client username) req args s =
      let done = shutdown_task (initial_response req) args s in
      (catch_all (initial_response req) done.0, done.1)
