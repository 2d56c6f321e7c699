-- ===== src/Replicas/Paths.antt =====
-- Paths that are longer than the fields of the client library.
use irods_client_http_api.Prelude.{
  ℕ, zero, suc, ◌-◌, ◌<◌, ◌≡◌, refl, ap, Bool, [], ◌∷◌, some, Bytes, text, arith, take, length,
  get_elem?, Option-cases, inl, inr,
}
use irods_client_http_api.Map.{Map, find}
use irods_client_http_api.Text.{bytes_eq}
use irods_client_http_api.Http.{Request}
use irods_client_http_api.Http.Exec.{client}
use irods_client_http_api.DataObjects.Io.{Io}
use irods_client_http_api.Replicas.Input.{
  ObjectCalls, c_str, zeros, strncpy, strncpy_null_terminated, handle_request,
}
use irods_client_http_api.Replicas.Copies.{op_remove, remove_task, remove_input}

take_idempotent : (n : ℕ) (s : Bytes) → take n (take n s) ≡ take n s
take_idempotent zero s = refl
take_idempotent (suc n) [] = refl
take_idempotent (suc n) (c ∷ s) = ap (◌∷◌ c) (take_idempotent n s)

strncpy-take : (n : ℕ) (dst s : Bytes) → strncpy n dst (take n s) ≡ strncpy n dst s
unfolding strncpy
strncpy-take zero dst s = refl
strncpy-take (suc n) [] s = refl
strncpy-take (suc n) (d ∷ dst) [] = refl
strncpy-take (suc n) (d ∷ dst) (c ∷ s) = ground (arith, strncpy-take n dst s)

length-zeros : (n : ℕ) → length (zeros n) ≡ n
unfolding zeros
length-zeros zero = refl
length-zeros (suc n) = ap suc (length-zeros n)

get_elem?-zeros : (n i : ℕ) → i < n → get_elem? (zeros n) i ≡ some 0
unfolding zeros
get_elem?-zeros zero i some_room = absurd (omega arith)
get_elem?-zeros (suc n) zero some_room = refl
get_elem?-zeros (suc n) (suc i) some_room = get_elem?-zeros n i (omega arith)

strncpy_null_terminated-take :
    (limit : ℕ) (s : Bytes)
    → strncpy_null_terminated (zeros limit) (take (limit - 1) s)
      ≡ strncpy_null_terminated (zeros limit) s
unfolding strncpy_null_terminated
strncpy_null_terminated-take limit s =
    rw (length-zeros limit) (strncpy-take (limit - 1) (zeros limit) s)

-- A C string for a field of this length.
abbrev pub IsField : ℕ → Bytes → Type 0
IsField limit s = (length s < limit) × (c_str s ≡ s)

remove_input-take :
    (limit : ℕ) (path catalog_only : Bytes) (args : Map Bytes)
    → remove_input limit ((text "lpath", path) ∷ args) path catalog_only
      ≡ remove_input limit
          ((text "lpath", take (limit - 1) path) ∷ args)
          (take (limit - 1) path)
          catalog_only
unfolding remove_input find bytes_eq
remove_input-take limit path catalog_only args = rw (strncpy_null_terminated-take limit path) refl

module _ {Z Conn Out : Type 0} (io : Io Z Conn Out) (calls : ObjectCalls Z Conn)
    (compat : Bool) where
  -- A path too long for the field of the client library is cut without a word: to remove it is to
  -- remove the data object that its first bytes name.
  pub op_remove_cuts :
      (username path : Bytes) (req : Request) (args : Map Bytes) (z : Z)
      → op_remove io calls compat (client username) req ((text "lpath", path) ∷ args) z
        ≡ op_remove io calls compat
            (client username)
            req
            ((text "lpath", take (calls.max_name_len - 1) path) ∷ args)
            z
  unfolding op_remove remove_task handle_request find bytes_eq
  op_remove_cuts username path req args z = elim (Option-cases (find (text "catalog-only") args)) [
    | inl e ↦ rw e refl
    | inr (catalog_only, e) ↦
        rw (e, remove_input-take calls.max_name_len path catalog_only args) refl
  ]
