-- ===== src/DataObjects/Closing.antt =====
-- What `op_parallel_write_shutdown` does to the handles and to the count of streams.
use mathlib.Core.List.{reverse, reverse-cons}
use irods_client_http_api.Prelude.{
  ℕ, ◌-◌, ◌≡◌, refl, ap, List, [], ◌∷◌, some, Bytes, text, arith, length, length-append,
}
use irods_client_http_api.Map.{Map, find, erase}
use irods_client_http_api.Http.{Request, initial_response}
use irods_client_http_api.Http.Exec.{Outcome, value, client}
use irods_client_http_api.DataObjects.Io.{Io, Context, Server}
use irods_client_http_api.DataObjects.Shutdown.{
  ok_response, close_secondaries, close_streams, close_context, shutdown_task,
  op_parallel_write_shutdown,
}

-- Closing a stream reports errors through the stream's state, and does not throw.
pub record ClosesQuietly {Z Conn Out : Type 0} (io : Io Z Conn Out) : Type 0 where
  pub close_returns : (out : Out) (z : Z) → (io.close out z).0 ≡ value tt
  pub close_quietly_returns : (out : Out) (z : Z) → (io.close_quietly out z).0 ≡ value tt

length-reverse : {A : Type 0} (xs : List A) → length (reverse xs) ≡ length xs
length-reverse [] = refl
length-reverse (x ∷ xs) =
    omega
      (arith, ap length (reverse-cons x xs), length-append (reverse xs) (x ∷ []), length-reverse xs)

-- The task returned, all streams of the list are discounted, and the handles are as they were.
abbrev Discounts : {Z Out : Type 0} → ℕ → Server Z Out → Outcome (Unit {0}) × Server Z Out → Type 0
Discounts n s (o, s') = (o ≡ value tt) × (s'.contexts ≡ s.contexts) × (s'.active ≡ s.active - n)

module _ {Z Conn Out : Type 0} (io : Io Z Conn Out) (quiet : ClosesQuietly io) where
  close_secondaries-Discounts :
      (streams : Context Out) (s : Server Z Out)
      → Discounts (length streams) s (close_secondaries io streams s)
  unfolding close_secondaries
  close_secondaries-Discounts [] s = (refl, refl, omega arith)
  close_secondaries-Discounts (t ∷ streams) s =
      let s' = record s { io = (io.close_quietly t.out s.io).1; active = s.active - 1 } in
      let (e, same, less) = close_secondaries-Discounts streams s' in
      rw (quiet.close_quietly_returns t.out s.io) (e, same, omega arith)

  close_streams-Discounts :
      (streams : Context Out) (s : Server Z Out)
      → Discounts (length streams) s (close_streams io streams s)
  unfolding close_streams
  close_streams-Discounts [] s = (refl, refl, omega arith)
  close_streams-Discounts (t ∷ streams) s =
      let (e, same, less) = close_secondaries-Discounts (reverse streams) s in
      let n = length-reverse streams in
      ground (
        arith,
        e,
        same,
        less,
        n,
        quiet.close_returns t.out (close_secondaries io (reverse streams) s).1.io,
      )

  close_context-effect :
      (handle : Bytes) (streams : Context Out) (s : Server Z Out)
      → find handle s.contexts ≡ some streams
      → let r = close_context io handle s in
        (r.0 ≡ value tt)
        × (r.1.contexts ≡ erase handle s.contexts)
        × (r.1.active ≡ s.active - length streams)
  unfolding close_context
  close_context-effect handle streams s e =
      let (done, same, less) = close_streams-Discounts streams s in
      rw (e, close_context) (rw done (refl, ap (erase handle) same, less))

  -- If closing does not throw, shutting a known handle down forgets this handle and no other,
  -- lowers the count by the number of its streams, and reports success.
  pub op_parallel_write_shutdown-effect :
      (username : Bytes) (req : Request) (args : Map Bytes) (handle : Bytes) (streams : Context Out)
      (s : Server Z Out)
      → find (text "parallel-write-handle") args ≡ some handle
      → find handle s.contexts ≡ some streams
      → let r = op_parallel_write_shutdown io (client username) req args s in
        (r.0 ≡ ok_response (initial_response req))
        × (r.1.contexts ≡ erase handle s.contexts)
        × (r.1.active ≡ s.active - length streams)
  unfolding op_parallel_write_shutdown shutdown_task
  op_parallel_write_shutdown-effect username req args handle streams s named known =
      let (done, gone, less) = close_context-effect handle streams s known in
      ground (arith, named, done, gone, less)
