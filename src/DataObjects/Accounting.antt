-- ===== src/DataObjects/Accounting.antt =====
-- How `op_parallel_write_init` counts the streams that it opens.
use irods_client_http_api.Prelude.{
  ℕ, zero, suc, ◌+◌, ◌-◌, ◌≤◌, ◌<◌, ◌≡◌, refl, ◌⊎◌, inl, inr, [], ◌∷◌, ◌++◌, Option, none, some,
  Bytes, length, arith, length-append,
}
use irods_client_http_api.Http.{ℤ, Response}
use irods_client_http_api.Http.Exec.{Exn, Outcome, value, sent, thrown}
use irods_client_http_api.DataObjects.Io.{OpenMode, Io, PwStream, Context, Server}
use irods_client_http_api.DataObjects.Streams.{open_parallel_write_stream}
use irods_client_http_api.DataObjects.Init.{open_secondaries, open_streams}

pub Outcome-cases :
    {A : Type 0} (o : Outcome A)
    → ((a : A) × (o ≡ value a)) ⊎ (((r : Response) × (o ≡ sent r)) ⊎ ((e : Exn) × (o ≡ thrown e)))
Outcome-cases (value a) = inl (a, refl)
Outcome-cases (sent r) = inr (inl (r, refl))
Outcome-cases (thrown e) = inr (inr (e, refl))

-- `n` streams are open and counted, or fewer than `n` are counted and none is kept.
abbrev pub Counted : {Out : Type 0} → ℕ → ℕ → ℕ → Outcome (Context Out) → ℕ → Type 0
Counted n before had (value streams) after = (after ≡ before + n) × (length streams ≡ had + n)
Counted n before had (sent r) after = (before ≤ after) × (after < before + n)
Counted n before had (thrown e) after = (before ≤ after) × (after < before + n)

Counted-suc :
    {Out : Type 0} (i before : ℕ) (streams : Context Out) (t : PwStream Out)
    (r : Outcome (Context Out)) (after : ℕ)
    → Counted i (before + 1) (length (streams ++ (t ∷ []))) r after
    → Counted (suc i) before (length streams) r after
Counted-suc i before streams t (value all) after h = omega (arith, length-append streams (t ∷ []))
Counted-suc i before streams t (sent r) after h = omega arith
Counted-suc i before streams t (thrown x) after h = omega arith

Counted-first :
    {Out : Type 0} (count before : ℕ) (r : Outcome (Context Out)) (after : ℕ)
    → 0 < count
    → Counted (count - 1) (before + 1) 1 r after
    → Counted count before 0 r after
Counted-first count before (value all) after pos h = omega arith
Counted-first count before (sent r) after pos h = omega arith
Counted-first count before (thrown x) after pos h = omega arith

module _ {Z Conn Out : Type 0} (io : Io Z Conn Out) (username path : Bytes) (mode : OpenMode)
    (ticket : Option Bytes) where
  open_secondaries-Counted :
      (i : ℕ) (primary : Out) (streams : Context Out) (s : Server Z Out)
      → let r = open_secondaries io username path mode ticket i primary streams s in
        (r.1.contexts ≡ s.contexts) × Counted i s.active (length streams) r.0 r.1.active
  unfolding open_secondaries
  open_secondaries-Counted zero primary streams s = (refl, (omega arith, omega arith))
  open_secondaries-Counted (suc i) primary streams s =
      elim (Outcome-cases
        (open_parallel_write_stream io username path none none mode ticket (some primary) s.io).0) [
          | inl (t, e) ↦
              let s' = record s {
                io =
                    (open_parallel_write_stream io username path none none mode ticket
                      (some primary) s.io).1;
                active = s.active + 1;
              } in
              let (same, rest) = open_secondaries-Counted i primary (streams ++ (t ∷ [])) s' in
              rw e (same, Counted-suc i s.active streams t _ _ rest)
          | inr (inl (r, e)) ↦ rw e (refl, (omega arith, omega arith))
          | inr (inr (x, e)) ↦ rw e (refl, (omega arith, omega arith))
        ]

  pub open_streams-Counted :
      (count : ℕ) (resource : Option Bytes) (replica : Option ℤ) (s : Server Z Out)
      → 0 < count
      → let r = open_streams io username path mode ticket count resource replica s in
        (r.1.contexts ≡ s.contexts) × Counted count s.active 0 r.0 r.1.active
  unfolding open_streams
  open_streams-Counted count resource replica s pos =
      elim (Outcome-cases
        (open_parallel_write_stream io username path resource replica mode ticket none s.io).0) [
          | inl (t, e) ↦
              let s' = record s {
                io =
                    (open_parallel_write_stream io username path resource replica mode ticket none
                      s.io).1;
                active = s.active + 1;
              } in
              let (same, rest) = open_secondaries-Counted (count - 1) t.out (t ∷ []) s' in
              rw e (same, Counted-first count s.active _ _ pos rest)
          | inr (inl (r, e)) ↦ rw e (refl, (omega arith, omega arith))
          | inr (inr (x, e)) ↦ rw e (refl, (omega arith, omega arith))
        ]
