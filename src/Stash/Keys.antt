-- ===== src/Stash/Keys.antt =====
-- The loop that draws a key ends, with a key that is not in use.
use irods_client_http_api.Prelude.{
  ℕ, zero, suc, ◌≤◌, ◌<◌, ◌≡◌, refl, none, some, [], ◌∷◌, Bytes, arith, length, Option-cases,
  Bool-cases, inl, inr, ◌∙◌,
}
use irods_client_http_api.Text.{bytes_eq, bytes_eq_iff}
use irods_client_http_api.Map.{Map, find, erase, find-erase}
use irods_client_http_api.Stash.{generate_unique_key}

-- Different draws give different identifiers.
abbrev pub IsInjective : (ℕ → Bytes) → Type 0
IsInjective random = (i j : ℕ) → random i ≡ random j → i ≡ j

module _ {V : Type 0} where
  length-erase_le : (k : Bytes) (m : Map V) → length (erase k m) ≤ length m
  unfolding erase
  length-erase_le k [] = omega arith
  length-erase_le k ((j, v) ∷ m) = ground (arith, length-erase_le k m)

  length-erase_lt :
      (k : Bytes) (m : Map V) (v : V) → find k m ≡ some v → length (erase k m) < length m
  unfolding find erase
  length-erase_lt k [] v e = cc
  length-erase_lt k ((j, w) ∷ m) v e = ground (arith, length-erase_lt k m v, length-erase_le k m)

  -- The loop sees of the map only the keys that it draws.
  generate_unique_key-agree :
      (random : ℕ → Bytes) (fuel drawn : ℕ) (m m' : Map V)
      → ((i : ℕ) → drawn ≤ i → find (random i) m ≡ find (random i) m')
      → generate_unique_key random fuel drawn m ≡ generate_unique_key random fuel drawn m'
  unfolding generate_unique_key
  generate_unique_key-agree random zero drawn m m' same = refl
  generate_unique_key-agree random (suc fuel) drawn m m' same = rw (
    same drawn (omega arith),
    generate_unique_key-agree random fuel (suc drawn) m m' (λ i le. same i (omega arith)),
  )

  find-erase_draw :
      (random : ℕ → Bytes) (drawn : ℕ) (m : Map V)
      → IsInjective random
      → (i : ℕ) → suc drawn ≤ i
      → find (random i) m ≡ find (random i) (erase (random drawn) m)
  find-erase_draw random drawn m inj i le = elim (Bool-cases (bytes_eq (random drawn) (random i))) [
    | inl e ↦ absurd (omega (arith, inj drawn i ((bytes_eq_iff (random drawn) (random i)).0 e)))
    | inr e ↦ ground (arith, e, find-erase (random drawn) (random i) m)
  ]

  -- The loop ends with a key within one draw more than there are entries, if no identifier is
  -- drawn twice.
  pub generate_unique_key_total :
      (random : ℕ → Bytes) (fuel drawn : ℕ) (m : Map V)
      → IsInjective random
      → length m < fuel
      → (r : Bytes × ℕ) × (generate_unique_key random fuel drawn m ≡ some r)
  unfolding generate_unique_key
  generate_unique_key_total random zero drawn m inj enough = absurd (omega arith)
  generate_unique_key_total random (suc fuel) drawn m inj enough =
      elim (Option-cases (find (random drawn) m)) [
        | inl e ↦ ((random drawn, suc drawn), rw e)
        | inr (v, e) ↦
            let less = length-erase_lt (random drawn) m v e in
            let (r, h) =
              generate_unique_key_total random fuel (suc drawn) (erase (random drawn) m) inj
                (omega arith) in
            let agree =
              generate_unique_key-agree random fuel (suc drawn) m (erase (random drawn) m)
                (find-erase_draw random drawn m inj) in
            (r, rw e (agree ∙ h))
      ]

  pub generate_unique_key-fresh :
      (random : ℕ → Bytes) (fuel drawn : ℕ) (m : Map V) (key : Bytes) (drawn' : ℕ)
      → generate_unique_key random fuel drawn m ≡ some (key, drawn')
      → find key m ≡ none
  unfolding generate_unique_key
  generate_unique_key-fresh random zero drawn m key drawn' e = cc
  generate_unique_key-fresh random (suc fuel) drawn m key drawn' e =
      elim (Option-cases (find (random drawn) m)) [
        | inl f ↦ ground (arith, f)
        | inr (v, f) ↦
            generate_unique_key-fresh random fuel (suc drawn) m key drawn' (ground (arith, f))
      ]

  -- The key is one of the identifiers.
  pub generate_unique_key-draw :
      (random : ℕ → Bytes) (fuel drawn : ℕ) (m : Map V) (key : Bytes) (drawn' : ℕ)
      → generate_unique_key random fuel drawn m ≡ some (key, drawn')
      → (n : ℕ) × (key ≡ random n)
  unfolding generate_unique_key
  generate_unique_key-draw random zero drawn m key drawn' e = cc
  generate_unique_key-draw random (suc fuel) drawn m key drawn' e =
      elim (Option-cases (find (random drawn) m)) [
        | inl f ↦ (drawn, ground (arith, f))
        | inr (v, f) ↦
            generate_unique_key-draw random fuel (suc drawn) m key drawn' (ground (arith, f))
      ]
