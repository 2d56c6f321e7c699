-- ===== src/DataObjects/Held.antt =====
-- A stream of a parallel write stays in use until its claim is released or its handle is shut down.
use irods_client_http_api.Prelude.{
  ℕ, zero, suc, ◌≡◌, ◌≢◌, refl, sym, ap, ◌∙◌, subst, true, [], ◌∷◌, Option, none, some, Bytes, text,
  arith, get_elem?, set, Option-cases, Bool-cases, inl, inr,
}
use irods_client_http_api.Text.{bytes_eq, bytes_eq_iff}
use irods_client_http_api.Map.{
  Map, find, insert_or_assign, erase, find-insert_or_assign, find-erase,
}
use irods_client_http_api.Http.{Request, Response}
use irods_client_http_api.Http.Exec.{Identity, refused, client}
use irods_client_http_api.DataObjects.Io.{Io, PwStream, Context, Server}
use irods_client_http_api.DataObjects.Streams.{mark_as_usable}
use irods_client_http_api.DataObjects.Init.{Limits, op_parallel_write_init}
use irods_client_http_api.DataObjects.Limits.{op_parallel_write_init-effect}
use irods_client_http_api.DataObjects.Shutdown.{
  close_context, shutdown_task, op_parallel_write_shutdown,
}
use irods_client_http_api.DataObjects.Select.{
  select_by_index, select_parallel_stream, release, indexed,
}
use irods_client_http_api.DataObjects.Closing.{ClosesQuietly, op_parallel_write_shutdown-effect}
use irods_client_http_api.DataObjects.Claims.{in_use, select_parallel_stream-Claimed}
use irods_client_http_api.DataObjects.Reachable.{
  Step, Reach, init, shutdown, select, done, outside, here, next,
}

module _ {Out : Type 0} where
  -- The stream at this position is in use.
  abbrev pub Busy : ℕ → Context Out → Type 0
  Busy i streams = (t : PwStream Out) × (get_elem? streams i ≡ some t) × (t.in_use ≡ true)

  Busy-set :
      (i j : ℕ) (streams : Context Out) (t : PwStream Out)
      → Busy i streams
      → Busy i (set streams j (in_use t))
  Busy-set i j [] t (u, e, busy) = (u, e, busy)
  Busy-set zero zero (s ∷ streams) t h = (in_use t, refl, refl)
  Busy-set zero (suc j) (s ∷ streams) t h = h
  Busy-set (suc i) zero (s ∷ streams) t h = h
  Busy-set (suc i) (suc j) (s ∷ streams) t h = Busy-set i j streams t h

  Busy-mark_as_usable :
      (i j : ℕ) (streams : Context Out) → i ≢ j → Busy i streams → Busy i (mark_as_usable j streams)
  unfolding mark_as_usable
  Busy-mark_as_usable i j [] other h = h
  Busy-mark_as_usable zero zero (s ∷ streams) other h = absurd (other refl)
  Busy-mark_as_usable zero (suc j) (s ∷ streams) other h = h
  Busy-mark_as_usable (suc i) zero (s ∷ streams) other h = h
  Busy-mark_as_usable (suc i) (suc j) (s ∷ streams) other h =
      Busy-mark_as_usable i j streams (λ e. other (ap suc e)) h

  abbrev pub BusyIn : ℕ → Option (Context Out) → Type 0
  BusyIn i none = ⊥
  BusyIn i (some streams) = Busy i streams

module _ {Z Conn Out : Type 0} (io : Io Z Conn Out) (limits : Limits) (handle : Bytes) (i : ℕ) where
  -- The operation neither releases the claim of this stream nor shuts its handle down.
  abbrev pub Spares : {s t : Server Z Out} → Step io limits s t → Type 0
  Spares (init identity req args k) = Unit {0}
  Spares (shutdown identity req args) = find (text "parallel-write-handle") args ≢ some handle
  Spares (select res k index) = Unit {0}
  Spares (done claim) = claim ≢ some (handle, i)
  Spares (outside z) = Unit {0}

  abbrev pub AllSpare : {s t : Server Z Out} → Reach io limits s t → Type 0
  AllSpare here = Unit {0}
  AllSpare (next r step) = AllSpare r × Spares step

  -- The stream of the handle is in use.
  abbrev pub Held : Server Z Out → Type 0
  Held s = BusyIn i (find handle s.contexts)

  Held-same :
      (s t : Server Z Out) → find handle t.contexts ≡ find handle s.contexts → Held s → Held t
  Held-same s t e h = subst (BusyIn i) (sym e) h

  Held-insert_new :
      (k : Bytes) (streams : Context Out) (m : Map (Context Out))
      → find k m ≡ none
      → BusyIn i (find handle m)
      → BusyIn i (find handle (insert_or_assign k streams m))
  Held-insert_new k streams m new h = elim (Bool-cases (bytes_eq k handle)) [
    | inl e ↦ absurd (
        subst (BusyIn i) (ap (λ (x : Bytes). find x m) (sym ((bytes_eq_iff k handle).0 e)) ∙ new) h)
    | inr e ↦ rw (find-insert_or_assign k handle streams m, e) h
  ]

  -- A handle gets other streams, and what was busy stays so.
  Held-insert_same :
      (k : Bytes) (old streams : Context Out) (m : Map (Context Out))
      → find k m ≡ some old
      → (k ≡ handle → Busy i old → Busy i streams)
      → BusyIn i (find handle m)
      → BusyIn i (find handle (insert_or_assign k streams m))
  Held-insert_same k old streams m known keep h = elim (Bool-cases (bytes_eq k handle)) [
    | inl e ↦
        let same = (bytes_eq_iff k handle).0 e in
        let busy = subst (BusyIn i) (ap (λ (x : Bytes). find x m) (sym same) ∙ known) h in
        rw (find-insert_or_assign k handle streams m, e) (keep same busy)
    | inr e ↦ rw (find-insert_or_assign k handle streams m, e) h
  ]

  find-erase_other :
      (k : Bytes) (m : Map (Context Out)) → k ≢ handle → find handle (erase k m) ≡ find handle m
  find-erase_other k m other = elim (Bool-cases (bytes_eq k handle)) [
    | inl e ↦ absurd (other ((bytes_eq_iff k handle).0 e))
    | inr e ↦ rw (find-erase k handle m, e) refl
  ]

  init-Held :
      (identity : Identity) (req : Request) (args : Map Bytes) (k : Bytes) (s : Server Z Out)
      → Held s
      → Held (op_parallel_write_init io limits identity req args k s).1
  init-Held identity req args k s h =
      elim (op_parallel_write_init-effect io limits identity req args k s) [
        | inl (streams, new, contexts, active, some_stream, few, within, response) ↦
            rw contexts (Held-insert_new k streams s.contexts new h)
        | inr (contexts, grown, why) ↦ rw contexts h
      ]

  shutdown-Held :
      (identity : Identity) (req : Request) (args : Map Bytes) (s : Server Z Out)
      → ClosesQuietly io
      → find (text "parallel-write-handle") args ≢ some handle
      → Held s
      → Held (op_parallel_write_shutdown io identity req args s).1
  unfolding op_parallel_write_shutdown shutdown_task close_context
  shutdown-Held (refused r) req args s quiet spared h = h
  shutdown-Held (client username) req args s quiet spared h =
      elim (Option-cases (find (text "parallel-write-handle") args)) [
        | inl e ↦ rw e h
        | inr (k, e) ↦ elim (Option-cases (find k s.contexts)) [
          | inl f ↦ rw e (rw (f, close_context) h)
          | inr (streams, f) ↦
              let (response, contexts, active) =
                op_parallel_write_shutdown-effect io quiet username req args k streams s e f in
              Held-same s (op_parallel_write_shutdown io (client username) req args s).1
                (ap (λ (m : Map (Context Out)). find handle m) contexts
                  ∙ find-erase_other k s.contexts (λ same. spared (e ∙ ap some same)))
                h
        ]
      ]

  select-Held :
      (res : Response) (k : Bytes) (index : Option Bytes) (s : Server Z Out)
      → Held s
      → Held (select_parallel_stream res k index s).1
  unfolding select_parallel_stream select_by_index
  select-Held res k none s h = elim (Option-cases (find k s.contexts)) [
    | inl e ↦ rw (e, select_parallel_stream) h
    | inr (streams, e) ↦ elim (select_parallel_stream-Claimed res k streams s e) [
      | inr (_, same) ↦ rw same h
      | inl (j, t, at_j, free, taken) ↦ rw taken (
          Held-insert_same k streams (set streams j (in_use t)) s.contexts e
            (λ same. Busy-set i j streams t) h)
    ]
  ]
  select-Held res k (some number) s h = elim (Option-cases (find k s.contexts)) [
    | inl e ↦ rw (e, select_parallel_stream) h
    | inr (streams, e) ↦
        rw (e, select_parallel_stream)
          (elim (Option-cases (indexed streams number)) [
            | inl f ↦ rw (f, select_by_index) h
            | inr (t, f) ↦ rw (f, select_by_index) h
          ])
  ]

  release-Held :
      (claim : Option (Bytes × ℕ)) (s : Server Z Out)
      → claim ≢ some (handle, i)
      → Held s
      → Held (release claim s)
  unfolding release
  release-Held none s spared h = h
  release-Held (some (k, j)) s spared h = elim (Option-cases (find k s.contexts)) [
    | inl e ↦ rw (e, release) h
    | inr (streams, e) ↦
        rw (e, release)
          (Held-insert_same k streams (mark_as_usable j streams) s.contexts e
            (λ same. Busy-mark_as_usable i j streams (λ e'. spared (ground (arith, same, e')))) h)
  ]

  Step-Held :
      {s t : Server Z Out}
      → ClosesQuietly io
      → (step : Step io limits s t) → Spares step
      → Held s
      → Held t
  Step-Held {s} quiet (init identity req args k) spared h = init-Held identity req args k s h
  Step-Held {s} quiet (shutdown identity req args) spared h =
      shutdown-Held identity req args s quiet spared h
  Step-Held {s} quiet (select res k index) spared h = select-Held res k index s h
  Step-Held {s} quiet (done claim) spared h = release-Held claim s spared h
  Step-Held quiet (outside z) spared h = h

  pub Reach-Held :
      {s t : Server Z Out}
      → ClosesQuietly io
      → Held s
      → (r : Reach io limits s t) → AllSpare r
      → Held t
  Reach-Held quiet h here spared = h
  Reach-Held quiet h (next r step) (before, spared) =
      Step-Held quiet step spared (Reach-Held quiet h r before)
