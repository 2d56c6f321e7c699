-- ===== src/DataObjects/Init.antt =====
-- `op_parallel_write_init`: open the streams of a new handle, and count them.
use irods_client_http_api.Prelude.{
  ℕ, zero, suc, ◌+◌, ◌-◌, [], ◌∷◌, ◌++◌, Option, none, some, Bytes, ◌==◌, if◌then◌else◌, ltb, text,
}
use irods_client_http_api.Map.{Map, find, insert_or_assign}
use irods_client_http_api.Number.{stoi}
use irods_client_http_api.Http.{
  ℤ, pos, negsuc, Request, Response, Status, bad_request, internal_server_error,
  service_unavailable, fail_in, initial_response, json, str, end, field, irods_response,
  irods_error,
}
use irods_client_http_api.Http.Exec.{
  Exec, irods_exception, std_exception, Outcome, value, sent, thrown, pure, send, throw, require,
  reject_if, ◌>>=◌, ◌>>◌, catch_all, Identity, refused, client,
}
use irods_client_http_api.DataObjects.Io.{OpenMode, Io, Context, Server, call, has_value}
use irods_client_http_api.DataObjects.Streams.{open_parallel_write_stream}

-- The limits of the configuration file.
pub record Limits : Type 0 where
  pub max_streams_per_handle : ℕ
  pub max_streams : ℕ

-- `Requirement: at least 1`; the number of an `int` that is.
abbrev at_least_one : ℤ → Option ℕ
at_least_one (negsuc n) = none
at_least_one (pos n) = if n == 0 then none else some n

abbrev pub or_throw : {S A : Type 0} → Option A → Exec S A
or_throw none = throw std_exception
or_throw (some a) = pure a

-- The open mode that "truncate" and "append" ask for.
abbrev pub open_mode : Option Bytes → Option Bytes → OpenMode
open_mode truncate append = record {
  in_mode = has_value truncate (text "0");
  append = has_value append (text "1");
}

-- A stream is a result of its constructor; the count goes up behind it.
abbrev counted : {Z Out : Type 0} → Exec (Server Z Out) (Unit {0})
counted s = (value tt, record s { active = s.active + 1 })

-- `res` with the status set.
abbrev pub with_status : Response → Status → Response
with_status res status = record res { result = status }

module _ {Z Conn Out : Type 0} (io : Io Z Conn Out) where
  module _ (username path : Bytes) (mode : OpenMode) (ticket : Option Bytes) where
    -- `i` more secondary streams behind those that are open; all share the primary stream's replica.
    unfoldable pub open_secondaries : ℕ → Out → Context Out → Exec (Server Z Out) (Context Out)
    open_secondaries zero primary streams = pure streams
    open_secondaries (suc i) primary streams = do
      s ← call (open_parallel_write_stream io username path none none mode ticket (some primary))
      counted
      open_secondaries i primary (streams ++ (s ∷ []))

    unfoldable pub open_streams : ℕ → Option Bytes → Option ℤ → Exec (Server Z Out) (Context Out)
    unfolding open_secondaries
    open_streams count resource replica = do
      s ← call (open_parallel_write_stream io username path resource replica mode ticket none)
      counted
      open_secondaries (count - 1) s.out (s ∷ [])

  -- The inner `try`: an `irods::exception` becomes a response, and the handler returns.
  abbrev pub catch_inner :
      {A : Type 0} → Response → Outcome A × Server Z Out → Outcome A × Server Z Out
  catch_inner res (thrown (irods_exception ec what), s) =
      (sent (record res { body = json (irods_error ec what) }), s)
  catch_inner res r = r

  -- "resource", or else "replica-number"; the number is refused if `stoi` throws.
  unfoldable pub replica_argument :
      Response → Option Bytes → Option Bytes → Exec (Server Z Out) (Option Bytes × Option ℤ)
  replica_argument res (some resource) number = pure (some resource, none)
  replica_argument res none none = pure (none, none)
  replica_argument res none (some number) = elim (stoi number) [
    | none ↦ send (with_status res bad_request)
    | some n ↦ pure (none, some n)
  ]

  unfoldable pub register_streams : Response → Bytes → Context Out → Exec (Server Z Out) Response
  register_streams res handle streams s = elim (find handle s.contexts) [
    | some other ↦ (sent (with_status res internal_server_error), s)
    | none ↦ (
      value (record res {
        body =
            json (irods_response (pos 0) (field (text "parallel_write_handle") (str handle) end));
      }),
      record s { contexts = insert_or_assign handle streams s.contexts },
    )
  ]

  -- The checks of the arguments: the logical path and the number of streams.
  unfoldable pub init_arguments : Limits → Response → Map Bytes → Exec (Server Z Out) (Bytes × ℕ)
  init_arguments limits res args = do
    path ← require (find (text "lpath") args) (fail_in res bad_request)
    count_text ← require (find (text "stream-count") args) (fail_in res bad_request)
    count_int ← or_throw (stoi count_text)
    count ← require (at_least_one count_int) (with_status res bad_request)
    reject_if (ltb limits.max_streams_per_handle count) (with_status res bad_request)
    λ s.
        if ltb limits.max_streams (s.active + count)
        then (sent (with_status res service_unavailable), s)
        else (value (path, count), s)

  -- The inner `try`.
  unfoldable pub open_requested :
      Response → Map Bytes → Bytes → Bytes → ℕ → Exec (Server Z Out) (Context Out)
  unfolding open_streams replica_argument
  open_requested res args username path count = do
    (resource, replica) ←
        replica_argument res (find (text "resource") args) (find (text "replica-number") args)
    open_streams username path (open_mode (find (text "truncate") args) (find (text "append") args))
        (find (text "ticket") args) count resource replica

  -- What follows the checks, on the outcome of the inner `try`; `handle` is what `generate_uuid` gave.
  abbrev pub after_open :
      Response → Bytes → Outcome (Context Out) × Server Z Out → Outcome Response × Server Z Out
  after_open res handle r = ((λ s. catch_inner res r) >>= register_streams res handle) r.1

  unfoldable pub init_task :
      Limits → Response → Map Bytes → Bytes → Bytes → Exec (Server Z Out) Response
  unfolding init_arguments open_requested register_streams
  init_task limits res args username handle = do
    (path, count) ← init_arguments limits res args
    λ s. after_open res handle (open_requested res args username path count s)

  unfoldable pub op_parallel_write_init :
      Limits → Identity → Request → Map Bytes → Bytes → Server Z Out → Response × Server Z Out
  unfolding init_task
  op_parallel_write_init limits (refused r) req args handle s = (r, s)
  op_parallel_write_init limits (client username) req args handle s =
      let res = initial_response req in
      let done = init_task limits res args username handle s in (catch_all res done.0, done.1)
