-- ===== src/DataObjects/Select.antt =====
-- The stream of a parallel write that `op_write` and `op_write_streaming` write to.
use irods_client_http_api.Prelude.{ℕ, Bool, true, List, Option, none, some, Bytes, get_elem?}
use irods_client_http_api.Map.{find, insert_or_assign}
use irods_client_http_api.Number.{stoi}
use irods_client_http_api.Http.{ℤ, pos, negsuc, Response, bad_request, too_many_requests, fail_in}
use irods_client_http_api.Http.Exec.{Exec, value, send}
use irods_client_http_api.DataObjects.Io.{Context, Server}
use irods_client_http_api.DataObjects.Streams.{find_available_parallel_write_stream, mark_as_usable}

-- The stream, and what the guard marks as usable at the end: a handle and a position.
pub record Selection (Out : Type 0) : Type 0 where
  pub out : Out
  pub claim : Option (Bytes × ℕ)
  pub is_parallel : Bool

-- `streams.at(i)`; a negative `int` becomes an index past every end.
abbrev pub at : {A : Type 0} → List A → ℤ → Option A
at streams (negsuc n) = none
at streams (pos n) = get_elem? streams n

-- The index as the client wrote it.
abbrev pub indexed : {A : Type 0} → List A → Bytes → Option A
indexed streams number = elim (stoi number) [ none ↦ none | some i ↦ at streams i ]

module _ {Z Out : Type 0} where
  -- A stream that the client chose is not marked as in use.
  unfoldable pub select_by_index :
      Response → Context Out → Bytes → Exec (Server Z Out) (Selection Out)
  select_by_index res streams number = elim (indexed streams number) [
    | none ↦ send (fail_in res bad_request)
    | some t ↦ λ s. (value (record { out = t.out; claim = none; is_parallel = true }), s)
  ]

  unfoldable pub select_available :
      Response → Bytes → Context Out → Exec (Server Z Out) (Selection Out)
  unfolding find_available_parallel_write_stream
  select_available res handle streams s = elim (find_available_parallel_write_stream streams) [
    | none ↦ send (fail_in res too_many_requests) s
    | some (i, t, rest) ↦ (
      value (record { out = t.out; claim = some (handle, i); is_parallel = true }),
      record s { contexts = insert_or_assign handle rest s.contexts },
    )
  ]

  -- The handle, and the stream index where the client names one.
  unfoldable pub select_parallel_stream :
      Response → Bytes → Option Bytes → Exec (Server Z Out) (Selection Out)
  unfolding select_by_index select_available
  select_parallel_stream res handle index s = elim (find handle s.contexts) [
    | none ↦ send (fail_in res bad_request) s
    | some streams ↦ elim index [
      | none ↦ select_available res handle streams s
      | some number ↦ select_by_index res streams number s
    ]
  ]

  -- The guard's destructor; there is none where no stream was claimed.
  unfoldable pub release : Option (Bytes × ℕ) → Server Z Out → Server Z Out
  unfolding mark_as_usable
  release none s = s
  release (some (handle, i)) s = elim (find handle s.contexts) [
    | none ↦ s
    | some streams ↦ record s {
      contexts = insert_or_assign handle (mark_as_usable i streams) s.contexts;
    }
  ]
