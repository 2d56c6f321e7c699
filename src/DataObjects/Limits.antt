-- ===== src/DataObjects/Limits.antt =====
-- What `op_parallel_write_init` does to the handles and to the count of streams.
use irods_client_http_api.Prelude.{
  ℕ, ◌+◌, ◌≤◌, ◌<◌, ◌≡◌, refl, ◌⊎◌, inl, inr, none, Bytes, length, arith, Option-cases, text,
}
use irods_client_http_api.Map.{Map, find, insert_or_assign}
use irods_client_http_api.Http.{
  Response, Request, initial_response, json, irods_response, pos, field, str, end,
}
use irods_client_http_api.Http.Exec.{
  irods_exception, Outcome, value, sent, thrown, Identity, refused, client, catch_all,
}
use irods_client_http_api.DataObjects.Io.{Io, Context, Server}
use irods_client_http_api.DataObjects.Init.{
  Limits, init_arguments, replica_argument, open_requested, register_streams, after_open, init_task,
  op_parallel_write_init,
}
use irods_client_http_api.DataObjects.Accounting.{Outcome-cases, Counted, open_streams-Counted}

abbrev pub handle_response : Request → Bytes → Response
handle_response req handle = record (initial_response req) {
  body = json (irods_response (pos 0) (field (text "parallel_write_handle") (str handle) end));
}

-- The arguments that the checks let through.
abbrev Checked : Limits → ℕ → Outcome (Bytes × ℕ) → Type 0
Checked limits active (value (path, count)) =
    (0 < count) × (count ≤ limits.max_streams_per_handle) × (active + count ≤ limits.max_streams)
Checked limits active (sent r) = Unit {0}
Checked limits active (thrown e) = Unit {0}

-- The same as `Counted` from no stream, where nothing may have been opened.
abbrev Grown : {Out : Type 0} → ℕ → ℕ → Outcome (Context Out) → ℕ → Type 0
Grown n before (value streams) after = (after ≡ before + n) × (length streams ≡ n)
Grown n before (sent r) after = (before ≤ after) × (after < before + n)
Grown n before (thrown e) after = (before ≤ after) × (after < before + n)

Grown-Counted :
    {Out : Type 0} (n before : ℕ) (r : Outcome (Context Out)) (after : ℕ)
    → Counted n before 0 r after
    → Grown n before r after
Grown-Counted n before (value streams) after h = omega arith
Grown-Counted n before (sent r) after h = h
Grown-Counted n before (thrown e) after h = h

-- A handle with its streams, all counted, under both limits, and the response that names it.
abbrev pub Registered :
    {Z Out : Type 0} → Limits → Request → Bytes → Server Z Out → Response × Server Z Out → Type 0
Registered {Out = Out} limits req handle s (r, s') =
    (streams : Context Out) × (find handle s.contexts ≡ none)
    × (s'.contexts ≡ insert_or_assign handle streams s.contexts)
    × (s'.active ≡ s.active + length streams)
    × (0 < length streams)
    × (length streams ≤ limits.max_streams_per_handle)
    × (s'.active ≤ limits.max_streams)
    × (r ≡ handle_response req handle)

-- No handle; the count did not fall, and did not pass the limit on the way.
abbrev pub NotRegistered :
    {Z Out : Type 0} → Limits → Server Z Out → Response × Server Z Out → Type 0
NotRegistered limits s (r, s') =
    (s'.contexts ≡ s.contexts)
    × (s.active ≤ s'.active)
    × ((s'.active ≡ s.active) ⊎ (s'.active ≤ limits.max_streams))

-- One or the other, with the response that the outer `try` makes.
abbrev Effect :
    {Z Out : Type 0}
    → Limits
    → Request
    → Bytes
    → Server Z Out
    → Response
    → Outcome Response × Server Z Out
    → Type 0
Effect limits req handle s res (o, s') =
    Registered limits req handle s (catch_all res o, s')
    ⊎ NotRegistered limits s (catch_all res o, s')

module _ {Z Conn Out : Type 0} (io : Io Z Conn Out) (limits : Limits) (res : Response)
    (args : Map Bytes) where
  init_arguments-Checked :
      (s : Server Z Out)
      → ((init_arguments io limits res args s).1 ≡ s)
        × Checked limits s.active (init_arguments io limits res args s).0
  unfolding init_arguments
  init_arguments-Checked s = ground arith

  replica_argument-state :
      (s : Server Z Out)
      → (replica_argument io res
          (find (text "resource") args)
          (find (text "replica-number") args)
          s).1
        ≡ s
  unfolding replica_argument
  replica_argument-state s = ground arith

  -- Before the handle is made nothing but the count has changed, and it only grew.
  open_requested-Counted :
      (username path : Bytes) (count : ℕ) (s : Server Z Out)
      → 0 < count
      → let r = open_requested io res args username path count s in
        (r.1.contexts ≡ s.contexts) × Grown count s.active r.0 r.1.active
  unfolding open_requested
  open_requested-Counted username path count s some_count =
      elim (Outcome-cases
        (replica_argument io res (find (text "resource") args) (find (text "replica-number") args)
          s).0) [
            | inl ((resource, replica), e) ↦
                let r =
                  open_streams-Counted io username path _ _ count resource replica s some_count in
                rw (e, replica_argument-state s) (r.0, Grown-Counted count s.active _ _ r.1)
            | inr (inl (r, e)) ↦ rw (e, replica_argument-state s) (refl, (omega arith, omega arith))
            | inr (inr (x, e)) ↦ rw (e, replica_argument-state s) (refl, (omega arith, omega arith))
          ]

  after_open-Effect :
      (req : Request) (handle : Bytes) (s s' : Server Z Out) (count : ℕ) (o : Outcome (Context Out))
      → res ≡ initial_response req
      → 0 < count
      → count ≤ limits.max_streams_per_handle
      → s.active + count ≤ limits.max_streams
      → s'.contexts ≡ s.contexts
      → Grown count s.active o s'.active
      → Effect limits req handle s res (after_open io res handle (o, s'))
  unfolding register_streams
  after_open-Effect req handle s s' count (value streams) e0 some_count h1 h2 same g =
      elim (Option-cases (find handle s'.contexts)) [
        | inl e ↦
            rw (e, register_streams)
              (inl (
                streams,
                ground arith,
                ground arith,
                omega arith,
                omega arith,
                omega arith,
                omega arith,
                ground arith,
              ))
        | inr (other, e) ↦ rw (e, register_streams) (inr (same, omega arith, inr (omega arith)))
      ]
  after_open-Effect req handle s s' count (sent r) e0 some_count h1 h2 same g =
      inr (same, g.0, inr (omega arith))
  after_open-Effect req handle s s' count (thrown (irods_exception ec what)) e0 some_count h1 h2
        same g =
      inr (same, g.0, inr (omega arith))
  after_open-Effect req handle s s' count (thrown x) e0 some_count h1 h2 same g =
      inr (same, g.0, inr (omega arith))

  init_task-Effect :
      (req : Request) (username handle : Bytes) (s : Server Z Out)
      → res ≡ initial_response req
      → Effect limits req handle s res (init_task io limits res args username handle s)
  unfolding init_task
  init_task-Effect req username handle s e0 =
      elim (Outcome-cases (init_arguments io limits res args s).0) [
        | inl ((path, count), e) ↦
            let (same, checked) = rw e at (init_arguments-Checked s) in
            let (kept, grown) = open_requested-Counted username path count s checked.0 in
            rw (e, same)
              (after_open-Effect req handle s _ count _ e0 checked.0 checked.1 checked.2 kept grown)
        | inr (inl (r, e)) ↦
            rw (e, (init_arguments-Checked s).0) (inr (refl, omega arith, inl refl))
        | inr (inr (x, e)) ↦
            rw (e, (init_arguments-Checked s).0) (inr (refl, omega arith, inl refl))
      ]

-- Whatever the client library does and whatever the arguments are, initialising a parallel write
-- either registers a handle that was not in use, with at least one stream and no more than one
-- handle may have, counts exactly these streams, stays within the limit for all streams and names
-- the handle in its response; or it registers no handle, changes none, and lets the count of
-- streams grow to no more than the limit.
pub op_parallel_write_init-effect :
    {Z Conn Out : Type 0} (io : Io Z Conn Out) (limits : Limits) (identity : Identity)
    (req : Request) (args : Map Bytes) (handle : Bytes) (s : Server Z Out)
    → Registered limits req handle s (op_parallel_write_init io limits identity req args handle s)
      ⊎ NotRegistered limits s (op_parallel_write_init io limits identity req args handle s)
unfolding op_parallel_write_init
op_parallel_write_init-effect io limits (refused r) req args handle s =
    inr (refl, omega arith, inl refl)
op_parallel_write_init-effect io limits (client username) req args handle s =
    init_task-Effect io limits (initial_response req) args req username handle s refl
