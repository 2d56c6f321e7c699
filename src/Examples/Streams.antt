-- ===== src/Examples/Streams.antt =====
-- Parallel writes at concrete inputs.
use irods_client_http_api.Prelude.{
  Bool, take, drop, length, ◌+◌, ◌-◌, ℕ, zero, suc, ◌≡◌, ◌≢◌, refl, ◌⊎◌, true, false, none, some,
  Bytes, [], ◌∷◌, ◌++◌, text, arith, set,
}
use irods_client_http_api.Map.{find, insert_or_assign, erase}
use irods_client_http_api.Text.{bytes_eq}
use irods_client_http_api.Number.{stoi}
use irods_client_http_api.Http.{negsuc, initial_response, json, irods_error}
use irods_client_http_api.Http.Exec.{client}
use irods_client_http_api.DataObjects.Io.{Context, Server}
use irods_client_http_api.DataObjects.Streams.{
  open_parallel_write_stream, find_available_parallel_write_stream,
}
use irods_client_http_api.DataObjects.Init.{op_parallel_write_init}
use irods_client_http_api.DataObjects.Shutdown.{op_parallel_write_shutdown, ok_response}
use irods_client_http_api.DataObjects.Select.{select_parallel_stream, release}
use irods_client_http_api.DataObjects.Limits.{
  Registered, NotRegistered, op_parallel_write_init-effect,
}
use irods_client_http_api.DataObjects.Leak.{op_parallel_write_init_leaks}
use irods_client_http_api.DataObjects.Closing.{ClosesQuietly, op_parallel_write_shutdown-effect}
use irods_client_http_api.DataObjects.Claims.{
  Claimed, Refused, select_parallel_stream-Claimed, release-select_parallel_stream,
}
use irods_client_http_api.DataObjects.Exclusive.{select_parallel_stream_exclusive}
use irods_client_http_api.DataObjects.Reachable.{
  init, select, outside, here, next, IsCounted, Reach-IsCounted,
}
use irods_client_http_api.DataObjects.Writer.{Writer, run_writer, start_writer}
use irods_client_http_api.DataObjects.Writer.Delivery.{
  IsSink, Delivers, run_writer-start_writer, run_writer_unchecked,
}
use irods_client_http_api.DataObjects.Writer.Streaming.{Streams, run_stream_writer-joined}
use irods_client_http_api.DataObjects.Writer.{received, SocketRead, StreamWriter, run_stream_writer}
use irods_client_http_api.Examples.Worlds.{
  World, world, working, one_stream, full_disk, request, limits, handle, two_streams, idle, busy,
  init_form, shutdown_form,
}

abbrev opened : Server World ℕ
unfolding op_parallel_write_init
opened =
    (op_parallel_write_init working limits (client (text "alice")) request init_form handle idle).1

opened_active : opened.active ≡ 2
unfolding op_parallel_write_init find bytes_eq stoi open_parallel_write_stream
opened_active = refl

op_parallel_write_init-effect_example :
    Registered limits request handle idle
      (op_parallel_write_init working limits (client (text "alice")) request init_form handle idle)
    ⊎ NotRegistered limits idle (
        op_parallel_write_init working limits (client (text "alice")) request init_form handle idle)
op_parallel_write_init-effect_example =
    op_parallel_write_init-effect working limits (client (text "alice")) request init_form handle
      idle

op_parallel_write_init_leaks_example :
    op_parallel_write_init one_stream limits (client (text "alice")) request init_form handle idle
    ≡ (
      record (initial_response request) {
        body = json (irods_error (negsuc 11999) (text "HIERARCHY_ERROR"));
      },
      record idle { active = 1; io = record world { opened = 1 } },
    )
unfolding find stoi open_parallel_write_stream bytes_eq
op_parallel_write_init_leaks_example =
    op_parallel_write_init_leaks one_stream limits request init_form (text "alice") handle
      (text "/z/f") (text "2") idle 0 (record { out = 0; in_use = false })
      (record world { opened = 1 }) (record world { opened = 1 }) (negsuc 11999)
      (text "HIERARCHY_ERROR") refl refl refl refl refl (omega arith) (omega arith) refl refl

working-ClosesQuietly : ClosesQuietly working
working-ClosesQuietly = record {
  close_returns = λ out z. refl;
  close_quietly_returns = λ out z. refl;
}

op_parallel_write_shutdown-effect_example :
    let r = op_parallel_write_shutdown working (client (text "alice")) request shutdown_form busy in
    (r.0 ≡ ok_response (initial_response request))
    × (r.1.contexts ≡ erase handle busy.contexts)
    × (r.1.active ≡ 0)
unfolding find bytes_eq
op_parallel_write_shutdown-effect_example =
    op_parallel_write_shutdown-effect working working-ClosesQuietly (text "alice") request
      shutdown_form handle two_streams busy refl refl

select_parallel_stream-Claimed_example :
    Claimed (initial_response request) handle two_streams busy
    ⊎ Refused (initial_response request) handle two_streams busy
unfolding find bytes_eq
select_parallel_stream-Claimed_example =
    select_parallel_stream-Claimed (initial_response request) handle two_streams busy refl

abbrev three_streams : Context ℕ
three_streams = two_streams ++ (record { out = 2; in_use = false } ∷ [])

abbrev wide : Server World ℕ
wide = record busy { contexts = (handle, three_streams) ∷ [] }

abbrev wide_at : ℕ → Server World ℕ
wide_at zero = wide
wide_at (suc zero) = record wide {
  contexts = (handle, set three_streams 1 (record { out = 1; in_use = true })) ∷ [];
}
wide_at (suc (suc n)) = record wide {
  contexts =
      (
        handle,
        set (set three_streams 1 (record { out = 1; in_use = true })) 2
            (record { out = 2; in_use = true }),
      )
      ∷ [];
}

select_parallel_stream_exclusive_example : ◌≢◌ {A = ℕ} 1 2
unfolding select_parallel_stream find insert_or_assign bytes_eq find_available_parallel_write_stream
select_parallel_stream_exclusive_example =
    select_parallel_stream_exclusive working limits handle 1 (initial_response request)
      (initial_response request) three_streams wide (wide_at 1)
      (record (wide_at 1) { io = record world { opened = 7 } })
      (record (wide_at 2) { io = record world { opened = 7 } }) 2 1 2 working-ClosesQuietly refl
      refl
      (next (next here (select (initial_response request) (text "other") none))
        (outside (record world { opened = 7 })))
      ((tt, tt), tt) refl

release-select_parallel_stream_example :
    find handle (release (some (handle, 1)) (wide_at 1)).contexts ≡ find handle wide.contexts
unfolding select_parallel_stream find insert_or_assign bytes_eq find_available_parallel_write_stream
release-select_parallel_stream_example =
    release-select_parallel_stream (initial_response request) handle handle three_streams
      (record { out = 1; claim = some (handle, 1); is_parallel = true }) wide (wide_at 1) refl refl

idle-IsCounted : IsCounted working limits idle
idle-IsCounted = record { distinct = tt; counted = omega arith; bounded = omega arith }

Reach-IsCounted_example : IsCounted working limits opened
unfolding opened op_parallel_write_init
Reach-IsCounted_example =
    Reach-IsCounted working limits working-ClosesQuietly idle-IsCounted
      (next here (init (client (text "alice")) request init_form handle))

abbrev content_of : World → Bytes
content_of z = z.content

working-IsSink : IsSink working 0 content_of
working-IsSink = record {
  good = λ z. refl;
  writes = λ b z. refl;
  appends = λ b z. refl;
  closes = λ z. refl;
  keeps = λ z. refl;
}

run_writer-start_writer_example :
    Delivers working content_of
      (start_writer working
        (initial_response request)
        4
        (record { out = 0; claim = some (handle, 1); is_parallel = true }, text "0123456789"))
      (text "0123456789")
      busy
      (run_writer working 11
        (start_writer working
          (initial_response request)
          4
          (record { out = 0; claim = some (handle, 1); is_parallel = true }, text "0123456789"))
        busy)
run_writer-start_writer_example =
    run_writer-start_writer working content_of (initial_response request) 4
      (record { out = 0; claim = some (handle, 1); is_parallel = true }) (text "0123456789") busy
      working-IsSink (omega arith)

abbrev short_write : Writer ℕ
short_write =
    start_writer full_disk (initial_response request) 8192
      (record { out = 0; claim = some (handle, 0); is_parallel = true }, text "abc")

run_writer_unchecked_example :
    run_writer full_disk 2 short_write busy
    ≡ some (
      ok_response (initial_response request),
      release (some (handle, 0)) (record busy { io = record world { broken = true } }),
    )
run_writer_unchecked_example =
    run_writer_unchecked full_disk short_write busy (record world { broken = true }) refl
      (omega arith) (omega arith) refl refl

abbrev streamed : StreamWriter ℕ
streamed = record {
  selection = record { out = 0; claim = none; is_parallel = false };
  res = initial_response request;
  buffer = text "????";
  body_data = 0;
  body_size = 0;
  is_done = false;
}

-- A socket that gives these bytes.
abbrev giving : Bytes → Bool → SocketRead
giving bytes done = λ buffer position size.
    received (take position buffer ++ bytes ++ drop (position + length bytes) buffer)
      (position + length bytes) (size - length bytes) done

run_stream_writer-joined_example :
    Streams working content_of (initial_response request) (text "abcdef") busy (
      run_stream_writer working
        (giving (text "ab") false ∷ giving (text "cd") false ∷ giving (text "ef") true ∷ [])
        streamed
        busy)
run_stream_writer-joined_example =
    run_stream_writer-joined working content_of (text "ab" ∷ text "cd" ∷ []) (text "ef")
      (giving (text "ab") false ∷ giving (text "cd") false ∷ giving (text "ef") true ∷ []) streamed
      busy ((λ b p n fits. refl), ((λ b p n fits. refl), (λ b p n fits. refl))) working-IsSink refl
      (omega arith, (omega arith, omega arith))
