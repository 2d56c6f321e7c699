-- ===== src/DataObjects/Claims.antt =====
-- Which streams the automatic selection hands out.
use irods_client_http_api.Prelude.{
  ℕ, zero, suc, ◌≡◌, refl, ap, true, false, [], ◌∷◌, Option, none, some, Bytes, arith, get_elem?,
  set, All, length, Option-cases, inl, inr, ◌∙◌, ◌⊎◌,
}
use irods_client_http_api.Text.{bytes_eq_iff}
use irods_client_http_api.Map.{
  find, insert_or_assign, find-insert_or_assign, find-insert_or_assign_self,
}
use irods_client_http_api.Http.{Response, too_many_requests, fail_in}
use irods_client_http_api.Http.Exec.{value, sent}
use irods_client_http_api.DataObjects.Io.{PwStream, Context, Server}
use irods_client_http_api.DataObjects.Streams.{find_available_parallel_write_stream, mark_as_usable}
use irods_client_http_api.DataObjects.Select.{
  Selection, select_available, select_parallel_stream, release,
}

module _ {Out : Type 0} where
  abbrev pub in_use : PwStream Out → PwStream Out
  in_use t = record t { in_use = true }

  -- The first free stream is taken, and no other stream changes.
  abbrev pub Takes : Context Out → Option (ℕ × PwStream Out × Context Out) → Type 0
  Takes streams none = All (λ t. t.in_use ≡ true) streams
  Takes streams (some (i, t, rest)) =
      (get_elem? streams i ≡ some t) × (t.in_use ≡ false) × (rest ≡ set streams i (in_use t))

  pub find_available-Takes :
      (streams : Context Out) → Takes streams (find_available_parallel_write_stream streams)
  unfolding find_available_parallel_write_stream
  find_available-Takes [] = tt
  find_available-Takes (s ∷ streams) =
      elim (Option-cases (find_available_parallel_write_stream streams)) [
        | inl e ↦ let h = find_available-Takes streams in ground (arith, e, h)
        | inr ((i, t, rest), e) ↦ let h = find_available-Takes streams in ground (arith, e, h)
      ]

  length-set :
      (streams : Context Out) (i : ℕ) (t : PwStream Out) → length (set streams i t) ≡ length streams
  length-set [] i t = refl
  length-set (s ∷ streams) zero t = refl
  length-set (s ∷ streams) (suc i) t = ap suc (length-set streams i t)

  pub length-mark_as_usable :
      (i : ℕ) (streams : Context Out) → length (mark_as_usable i streams) ≡ length streams
  unfolding mark_as_usable
  length-mark_as_usable i [] = refl
  length-mark_as_usable zero (s ∷ streams) = refl
  length-mark_as_usable (suc i) (s ∷ streams) = ap suc (length-mark_as_usable i streams)

  pub get_elem?-set :
      (streams : Context Out) (i : ℕ) (t u : PwStream Out)
      → get_elem? streams i ≡ some u
      → get_elem? (set streams i t) i ≡ some t
  get_elem?-set [] i t u e = cc
  get_elem?-set (s ∷ streams) zero t u e = refl
  get_elem?-set (s ∷ streams) (suc i) t u e = get_elem?-set streams i t u e

  mark_as_usable-set :
      (streams : Context Out) (i : ℕ) (t : PwStream Out)
      → get_elem? streams i ≡ some t
      → t.in_use ≡ false
      → mark_as_usable i (set streams i (in_use t)) ≡ streams
  unfolding mark_as_usable
  mark_as_usable-set [] i t e free = cc
  mark_as_usable-set (s ∷ streams) zero t e free = ground arith
  mark_as_usable-set (s ∷ streams) (suc i) t e free =
      ap (◌∷◌ s) (mark_as_usable-set streams i t e free)

  pub length-find_available :
      (streams : Context Out) (i : ℕ) (t : PwStream Out) (rest : Context Out)
      → find_available_parallel_write_stream streams ≡ some (i, t, rest)
      → length rest ≡ length streams
  length-find_available streams i t rest e =
      let h = rw e at (find_available-Takes streams) in
      ap length h.2 ∙ length-set streams i (in_use t)

module _ {Z Out : Type 0} (res : Response) (handle : Bytes) (streams : Context Out)
    (s : Server Z Out) where
  abbrev pub Claimed : Type 0
  Claimed =
      (i : ℕ) × (t : PwStream Out) × (get_elem? streams i ≡ some t)
      × (t.in_use ≡ false)
      × (select_parallel_stream res handle none s ≡ (
        value (record { out = t.out; claim = some (handle, i); is_parallel = true }),
        record s { contexts = insert_or_assign handle (set streams i (in_use t)) s.contexts },
      ))

  abbrev pub Refused : Type 0
  Refused =
      All (λ t. t.in_use ≡ true) streams
      × (select_parallel_stream res handle none s ≡ (sent (fail_in res too_many_requests), s))

-- On a known handle and without a stream index, either a stream that was free is handed out and
-- marked as in use, and nothing else changes; or every stream of the handle is in use, nothing
-- changes, and the client is told of too many requests.
pub select_parallel_stream-Claimed :
    {Z Out : Type 0} (res : Response) (handle : Bytes) (streams : Context Out) (s : Server Z Out)
    → find handle s.contexts ≡ some streams
    → Claimed res handle streams s ⊎ Refused res handle streams s
unfolding select_parallel_stream
select_parallel_stream-Claimed res handle streams s known =
    elim (Option-cases (find_available_parallel_write_stream streams)) [
      | inl e ↦
          let h = rw e at (find_available-Takes streams) in
          inr (h, rw (known, select_parallel_stream) (rw (e, select_available)))
      | inr ((i, t, rest), e) ↦
          let h = rw e at (find_available-Takes streams) in
          inl
            (i, t, h.0, h.1, rw (known, select_parallel_stream) (rw (e, select_available) (rw h.2)))
    ]

-- Releasing the claim of a selection gives every handle the streams that it had before.
pub release-select_parallel_stream :
    {Z Out : Type 0} (res : Response) (handle k : Bytes) (streams : Context Out)
    (sel : Selection Out) (s s' : Server Z Out)
    → find handle s.contexts ≡ some streams
    → select_parallel_stream res handle none s ≡ (value sel, s')
    → find k (release sel.claim s').contexts ≡ find k s.contexts
unfolding release
release-select_parallel_stream res handle k streams sel s s' known selected =
    elim (select_parallel_stream-Claimed res handle streams s known) [
      | inr (_, e) ↦ cc e
      | inl (i, t, at_i, free, e) ↦
          let taken = set streams i (in_use t) in
          ground (
            arith,
            e,
            find-insert_or_assign_self handle taken s.contexts,
            mark_as_usable-set streams i t at_i free,
            find-insert_or_assign handle k streams (insert_or_assign handle taken s.contexts),
            find-insert_or_assign handle k taken s.contexts,
            bytes_eq_iff handle k,
          )
    ]
