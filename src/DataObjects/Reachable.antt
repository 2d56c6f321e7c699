-- ===== src/DataObjects/Reachable.antt =====
-- The states of the endpoint that its operations reach, one operation after another.
use irods_client_http_api.Prelude.{
  ℕ, ◌+◌, ◌≤◌, ◌≡◌, refl, inl, inr, [], ◌∷◌, Option, none, some, Bytes, text, arith, length,
  Option-cases,
}
use irods_client_http_api.Text.{bytes_eq, bytes_eq_iff}
use irods_client_http_api.Map.{
  Map, find, insert_or_assign, erase, IsMap, insert_or_assign-IsMap, erase_if-IsMap,
}
use irods_client_http_api.Http.{Request, Response}
use irods_client_http_api.Http.Exec.{Identity, refused, client}
use irods_client_http_api.DataObjects.Io.{Io, Context, Server}
use irods_client_http_api.DataObjects.Streams.{find_available_parallel_write_stream, mark_as_usable}
use irods_client_http_api.DataObjects.Init.{Limits, op_parallel_write_init}
use irods_client_http_api.DataObjects.Limits.{op_parallel_write_init-effect}
use irods_client_http_api.DataObjects.Shutdown.{
  close_context, shutdown_task, op_parallel_write_shutdown,
}
use irods_client_http_api.DataObjects.Select.{
  select_by_index, select_available, select_parallel_stream, release, indexed,
}
use irods_client_http_api.DataObjects.Closing.{ClosesQuietly, op_parallel_write_shutdown-effect}
use irods_client_http_api.DataObjects.Claims.{length-find_available, length-mark_as_usable}

-- The streams of all handles.
abbrev pub total : {Out : Type 0} → Map (Context Out) → ℕ
total [] = 0
total ((handle, streams) ∷ m) = length streams + total m

module _ {Out : Type 0} where
  total-insert_new :
      (handle : Bytes) (streams : Context Out) (m : Map (Context Out))
      → find handle m ≡ none
      → total (insert_or_assign handle streams m) ≡ total m + length streams
  unfolding find insert_or_assign
  total-insert_new handle streams [] h = omega arith
  total-insert_new handle streams ((j, w) ∷ m) h = ground (arith, total-insert_new handle streams m)

  total-insert_same :
      (handle : Bytes) (old streams : Context Out) (m : Map (Context Out))
      → find handle m ≡ some old
      → length streams ≡ length old
      → total (insert_or_assign handle streams m) ≡ total m
  unfolding find insert_or_assign
  total-insert_same handle old streams [] h e = cc
  total-insert_same handle old streams ((j, w) ∷ m) h e =
      ground (arith, total-insert_same handle old streams m)

  total-erase-none :
      (handle : Bytes) (m : Map (Context Out))
      → find handle m ≡ none
      → total (erase handle m) ≡ total m
  unfolding find erase
  total-erase-none handle [] h = refl
  total-erase-none handle ((j, w) ∷ m) h = ground (arith, total-erase-none handle m)

  total-erase :
      (handle : Bytes) (streams : Context Out) (m : Map (Context Out))
      → IsMap m
      → find handle m ≡ some streams
      → total (erase handle m) + length streams ≡ total m
  unfolding find erase
  total-erase handle streams [] u h = cc
  total-erase handle streams ((j, w) ∷ m) u h =
      ground
        (arith, bytes_eq_iff j handle, total-erase handle streams m u.1, total-erase-none handle m)

  erase-IsMap : (handle : Bytes) (m : Map (Context Out)) → IsMap m → IsMap (erase handle m)
  unfolding erase
  erase-IsMap handle m = erase_if-IsMap (λ j v. bytes_eq j handle) m

module _ {Z Conn Out : Type 0} (io : Io Z Conn Out) (limits : Limits) where
  -- One operation, with any arguments; the world outside may change in between.
  pub data Step (s : Server Z Out) : Server Z Out → Type 0 where
    init :
        (identity : Identity) (req : Request) (args : Map Bytes) (handle : Bytes)
        → Step s (op_parallel_write_init io limits identity req args handle s).1
    shutdown :
        (identity : Identity) (req : Request) (args : Map Bytes)
        → Step s (op_parallel_write_shutdown io identity req args s).1
    select :
        (res : Response) (handle : Bytes) (index : Option Bytes)
        → Step s (select_parallel_stream res handle index s).1
    done : (claim : Option (Bytes × ℕ)) → Step s (release claim s)
    outside : (z : Z) → Step s (record s { io = z })

  pub data Reach (s : Server Z Out) : Server Z Out → Type 0 where
    here : Reach s s
    next : {t u : Server Z Out} → Reach s t → Step t u → Reach s u

  -- Handles are distinct, every stream of a handle is counted, and the count is within the limit.
  pub record IsCounted (s : Server Z Out) : Type 0 where
    pub distinct : IsMap s.contexts
    pub counted : total s.contexts ≤ s.active
    pub bounded : s.active ≤ limits.max_streams

  init-IsCounted :
      (identity : Identity) (req : Request) (args : Map Bytes) (handle : Bytes) (s : Server Z Out)
      → IsCounted s
      → IsCounted (op_parallel_write_init io limits identity req args handle s).1
  init-IsCounted identity req args handle s v =
      elim (op_parallel_write_init-effect io limits identity req args handle s) [
        | inl (streams, new, contexts, active, some_stream, few, within, response) ↦ record {
          distinct = rw contexts (insert_or_assign-IsMap handle streams s.contexts v.distinct);
          counted =
              rw contexts
                (omega (arith, v.counted, total-insert_new handle streams s.contexts new));
          bounded = within;
        }
        | inr (contexts, grown, inl same) ↦ record {
          distinct = rw contexts v.distinct;
          counted = rw contexts (omega (arith, v.counted));
          bounded = omega (arith, v.bounded);
        }
        | inr (contexts, grown, inr within) ↦ record {
          distinct = rw contexts v.distinct;
          counted = rw contexts (omega (arith, v.counted));
          bounded = within;
        }
      ]

  known_shutdown-IsCounted :
      (username : Bytes) (req : Request) (args : Map Bytes) (handle : Bytes) (streams : Context Out)
      (s : Server Z Out)
      → ClosesQuietly io
      → find (text "parallel-write-handle") args ≡ some handle
      → find handle s.contexts ≡ some streams
      → IsCounted s
      → IsCounted (op_parallel_write_shutdown io (client username) req args s).1
  known_shutdown-IsCounted username req args handle streams s quiet named known v =
      let (response, contexts, active) =
        op_parallel_write_shutdown-effect io quiet username req args handle streams s named known in
      record {
        distinct = rw contexts (erase-IsMap handle s.contexts v.distinct);
        counted =
            rw contexts
              (omega (arith, v.counted, total-erase handle streams s.contexts v.distinct known));
        bounded = omega (arith, v.bounded);
      }

  shutdown-IsCounted :
      (identity : Identity) (req : Request) (args : Map Bytes) (s : Server Z Out)
      → ClosesQuietly io
      → IsCounted s
      → IsCounted (op_parallel_write_shutdown io identity req args s).1
  unfolding op_parallel_write_shutdown shutdown_task close_context
  shutdown-IsCounted (refused r) req args s quiet v = v
  shutdown-IsCounted (client username) req args s quiet v =
      elim (Option-cases (find (text "parallel-write-handle") args)) [
        | inl e ↦ rw e v
        | inr (handle, e) ↦ elim (Option-cases (find handle s.contexts)) [
          | inl f ↦ rw e (rw (f, close_context) v)
          | inr (streams, f) ↦
              known_shutdown-IsCounted username req args handle streams s quiet e f v
        ]
      ]

  -- A handle gets as many streams as it had.
  same_length-IsCounted :
      (handle : Bytes) (old streams : Context Out) (s : Server Z Out)
      → find handle s.contexts ≡ some old
      → length streams ≡ length old
      → IsCounted s
      → IsCounted (record s { contexts = insert_or_assign handle streams s.contexts })
  same_length-IsCounted handle old streams s known same v = record {
    distinct = insert_or_assign-IsMap handle streams s.contexts v.distinct;
    counted = omega (arith, v.counted, total-insert_same handle old streams s.contexts known same);
    bounded = v.bounded;
  }

  available-IsCounted :
      (res : Response) (handle : Bytes) (streams : Context Out) (s : Server Z Out)
      → find handle s.contexts ≡ some streams
      → IsCounted s
      → IsCounted (select_available res handle streams s).1
  unfolding select_available
  available-IsCounted res handle streams s known v =
      elim (Option-cases (find_available_parallel_write_stream streams)) [
        | inl e ↦ rw (e, select_available) v
        | inr ((i, t, rest), e) ↦
            rw (e, select_available)
              (same_length-IsCounted handle streams rest s known
                (length-find_available streams i t rest e) v)
      ]

  select-IsCounted :
      (res : Response) (handle : Bytes) (index : Option Bytes) (s : Server Z Out)
      → IsCounted s
      → IsCounted (select_parallel_stream res handle index s).1
  unfolding select_parallel_stream select_by_index
  select-IsCounted res handle none s v = elim (Option-cases (find handle s.contexts)) [
    | inl e ↦ rw (e, select_parallel_stream) v
    | inr (streams, e) ↦
        rw (e, select_parallel_stream) (available-IsCounted res handle streams s e v)
  ]
  select-IsCounted res handle (some number) s v = elim (Option-cases (find handle s.contexts)) [
    | inl e ↦ rw (e, select_parallel_stream) v
    | inr (streams, e) ↦
        rw (e, select_parallel_stream)
          (elim (Option-cases (indexed streams number)) [
            | inl f ↦ rw (f, select_by_index) v
            | inr (t, f) ↦ rw (f, select_by_index) v
          ])
  ]

  release-IsCounted :
      (claim : Option (Bytes × ℕ)) (s : Server Z Out) → IsCounted s → IsCounted (release claim s)
  unfolding release
  release-IsCounted none s v = v
  release-IsCounted (some (handle, i)) s v = elim (Option-cases (find handle s.contexts)) [
    | inl e ↦ rw (e, release) v
    | inr (streams, e) ↦
        rw (e, release)
          (same_length-IsCounted handle streams (mark_as_usable i streams) s e
            (length-mark_as_usable i streams) v)
  ]

  Step-IsCounted : {s t : Server Z Out} → ClosesQuietly io → Step s t → IsCounted s → IsCounted t
  Step-IsCounted {s} quiet (init identity req args handle) v =
      init-IsCounted identity req args handle s v
  Step-IsCounted {s} quiet (shutdown identity req args) v =
      shutdown-IsCounted identity req args s quiet v
  Step-IsCounted {s} quiet (select res handle index) v = select-IsCounted res handle index s v
  Step-IsCounted {s} quiet (done claim) v = release-IsCounted claim s v
  Step-IsCounted quiet (outside z) v = record {
    distinct = v.distinct;
    counted = v.counted;
    bounded = v.bounded;
  }

  -- If closing a stream does not throw, then in every state that the operations reach, one after
  -- another, from a state with this property, the handles are distinct, all their streams are
  -- counted, and the count is at most the limit of the configuration.
  pub Reach-IsCounted :
      {s t : Server Z Out} → ClosesQuietly io → IsCounted s → Reach s t → IsCounted t
  Reach-IsCounted quiet v here = v
  Reach-IsCounted quiet v (next r step) = Step-IsCounted quiet step (Reach-IsCounted quiet v r)
