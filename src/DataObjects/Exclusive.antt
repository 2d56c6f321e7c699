-- ===== src/DataObjects/Exclusive.antt =====
-- Two selections of a stream by availability.
use irods_client_http_api.Prelude.{
  ℕ, ◌≡◌, ◌≢◌, refl, sym, subst, true, none, some, Bytes, arith, get_elem?, set, Option-cases, inl,
  inr,
}
use irods_client_http_api.Map.{find, find-insert_or_assign_self}
use irods_client_http_api.Http.{Response}
use irods_client_http_api.Http.Exec.{value}
use irods_client_http_api.DataObjects.Io.{Io, Context, Server}
use irods_client_http_api.DataObjects.Init.{Limits}
use irods_client_http_api.DataObjects.Select.{select_parallel_stream}
use irods_client_http_api.DataObjects.Closing.{ClosesQuietly}
use irods_client_http_api.DataObjects.Claims.{in_use, get_elem?-set, select_parallel_stream-Claimed}
use irods_client_http_api.DataObjects.Reachable.{Reach}
use irods_client_http_api.DataObjects.Held.{BusyIn, Held, AllSpare, Reach-Held}

module _ {Z Conn Out : Type 0} (io : Io Z Conn Out) (limits : Limits) (handle : Bytes) (i : ℕ) where
  selected-Held :
      (res : Response) (streams : Context Out) (s s' : Server Z Out) (out : Out)
      → find handle s.contexts ≡ some streams
      → select_parallel_stream res handle none s
        ≡ (value (record { out = out; claim = some (handle, i); is_parallel = true }), s')
      → Held io limits handle i s'
  selected-Held res streams s s' out known selected =
      elim (select_parallel_stream-Claimed res handle streams s known) [
        | inr (_, e) ↦ cc e
        | inl (j, t, at_j, free, e) ↦
            let stays : find handle s'.contexts ≡ some (set streams j (in_use t)) = ground (
              arith,
              e,
              selected,
              find-insert_or_assign_self handle (set streams j (in_use t)) s.contexts,
            ) in
            let position : j ≡ i = ground (arith, e, selected) in
            let at_i =
              subst (λ n. get_elem? (set streams j (in_use t)) n ≡ some (in_use t)) position
                (get_elem?-set streams j (in_use t) t at_j) in
            subst (BusyIn i) (sym stays) (in_use t, at_i, refl)
      ]

  -- If closing a stream does not throw, then a stream that was handed out by availability is not
  -- handed out so again, in whatever state the operations on any handle have led to since, as long as
  -- its claim is not released and its handle is not shut down: another selection gets another stream
  -- of the handle, if it gets one.
  pub select_parallel_stream_exclusive :
      (res res' : Response) (streams : Context Out) (s s' t t' : Server Z Out) (j : ℕ)
      (out out' : Out)
      → ClosesQuietly io
      → find handle s.contexts ≡ some streams
      → select_parallel_stream res handle none s
        ≡ (value (record { out = out; claim = some (handle, i); is_parallel = true }), s')
      → (r : Reach io limits s' t) → AllSpare io limits handle i r
      → select_parallel_stream res' handle none t
        ≡ (value (record { out = out'; claim = some (handle, j); is_parallel = true }), t')
      → i ≢ j
  select_parallel_stream_exclusive res res' streams s s' t t' j out out' quiet known first r spared
        second same =
      let held =
        Reach-Held io limits handle i quiet (selected-Held res streams s s' out known first) r
          spared in
      elim (Option-cases (find handle t.contexts)) [
        | inl e ↦ subst (BusyIn i) e held
        | inr (others, e) ↦
            let (u, at_i, busy) = subst (BusyIn i) e held in
            elim (select_parallel_stream-Claimed res' handle others t e) [
              | inr (_, none_free) ↦ cc none_free
              | inl (j', v, at_j, free, taken) ↦ ground (arith, taken, second)
            ]
      ]
