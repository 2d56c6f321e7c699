-- ===== src/Replicas/Columns.antt =====
-- The loop of `op_modify_replica` over the properties.
use irods_client_http_api.Prelude.{
  ℕ, ◌≡◌, refl, inl, inr, Bool, true, false, ◌&&◌, [], ◌∷◌, Option, none, some, Bytes, arith,
  if◌then◌else◌, ◌==◌, All, Option-cases, Bool-cases, not, ◌||◌, ==_refl, subst,
}
use irods_client_http_api.Text.{bytes_eq}
use irods_client_http_api.Map.{Map, find}
use irods_client_http_api.Replicas.Input.{
  Keyword, Conditions, c_str, repl_num, file_path, data_size, chksum, data_comments, data_create,
  data_expiry, data_mode, data_modify, repl_status, resc_id, status_string, data_type, version,
  data_access_time,
}
use irods_client_http_api.Replicas.Modify.{atime_prop, properties, collect}

-- The columns that can be changed, numbered.
abbrev pub column : Keyword → ℕ
column chksum = 1
column data_comments = 2
column data_create = 3
column data_expiry = 4
column data_mode = 5
column data_modify = 6
column file_path = 7
column repl_num = 8
column repl_status = 9
column resc_id = 10
column data_size = 11
column status_string = 12
column data_type = 13
column version = 14
column data_access_time = 15
column _ = 0

abbrev pub column_value : Keyword → Conditions → Option Bytes
column_value k [] = none
column_value k ((j, v) ∷ kvp) = if column j == column k then some v else column_value k kvp

abbrev pub is_some : {A : Type 0} → Option A → Bool
is_some none = false
is_some (some a) = true

abbrev pub map_c_str : Option Bytes → Option Bytes
map_c_str none = none
map_c_str (some v) = some (c_str v)

-- Each column that can be changed has the value of its argument, or none.
abbrev pub Reflects : Map Bytes → Map Keyword → Conditions → Type 0
Reflects args ps kvp =
    All (λ (p : Bytes × Keyword). column_value p.1 kvp ≡ map_c_str (find p.0 args)) ps

abbrev pub fresh : Keyword → Map Keyword → Bool
fresh k [] = true
fresh k ((name, j) ∷ ps) = not (column j == column k) && fresh k ps

abbrev pub distinct : Map Keyword → Bool
distinct [] = true
distinct ((name, k) ∷ ps) = fresh k ps && distinct ps

pub properties_distinct : distinct properties ≡ true
unfolding properties
properties_distinct = refl

-- The access time is asked for, by one of these arguments.
abbrev pub asks_atime : Map Bytes → Map Keyword → Bool
asks_atime args [] = false
asks_atime args ((name, k) ∷ ps) =
    (bytes_eq name atime_prop && is_some (find name args)) || asks_atime args ps

pub collect-fresh :
    (refuse_atime : Bool) (args : Map Bytes) (ps : Map Keyword) (k : Keyword) (kvp : Conditions)
    → fresh k ps ≡ true
    → collect refuse_atime args ps ≡ some kvp
    → column_value k kvp ≡ none
unfolding collect
collect-fresh refuse_atime args [] k kvp e d = ground (arith, d)
collect-fresh refuse_atime args ((name, j) ∷ ps) k kvp e d =
    elim (Option-cases (collect refuse_atime args ps)) [
      | inl c ↦ ground (arith, c, d)
      | inr (rest, c) ↦ ground (arith, c, d, e, collect-fresh refuse_atime args ps k rest)
    ]

-- A column in front leaves the others as they are.
pub Reflects-front :
    (args : Map Bytes) (ps : Map Keyword) (k : Keyword) (v : Bytes) (kvp : Conditions)
    → fresh k ps ≡ true
    → Reflects args ps kvp
    → Reflects args ps ((k, v) ∷ kvp)
Reflects-front args [] k v kvp e all = tt
Reflects-front args ((name, j) ∷ ps) k v kvp e (first, others) =
    (ground (arith, e, first), Reflects-front args ps k v kvp (ground (arith, e)) others)

pub collect-Reflects :
    (refuse_atime : Bool) (args : Map Bytes) (ps : Map Keyword) (kvp : Conditions)
    → distinct ps ≡ true
    → collect refuse_atime args ps ≡ some kvp
    → Reflects args ps kvp
unfolding collect
collect-Reflects refuse_atime args [] kvp e d = tt
collect-Reflects refuse_atime args ((name, j) ∷ ps) kvp e d =
    elim (Option-cases (collect refuse_atime args ps)) [
      | inl c ↦ absurd (ground (arith, c, d))
      | inr (rest, c) ↦
          let reflected = collect-Reflects refuse_atime args ps rest (ground (arith, e)) c in
          elim (Option-cases (find name args)) [
            | inl absent ↦
                let same : rest ≡ kvp = ground (arith, absent, c, d) in
                let unset = collect-fresh refuse_atime args ps j rest (ground (arith, e)) c in
                subst (Reflects args ((name, j) ∷ ps)) same
                  (ground (arith, absent, unset), reflected)
            | inr (v, present) ↦
                let same : ((j, c_str v) ∷ rest) ≡ kvp = ground (arith, present, c, d) in
                subst (Reflects args ((name, j) ∷ ps)) same (
                  ground (arith, present, ==_refl (column j)),
                  Reflects-front args ps j (c_str v) rest (ground (arith, e)) reflected,
                )
          ]
    ]

pub collect-asks_atime :
    (args : Map Bytes) (ps : Map Keyword) → asks_atime args ps ≡ true → collect true args ps ≡ none
unfolding collect
collect-asks_atime args [] e = absurd (ground (arith, e))
collect-asks_atime args ((name, j) ∷ ps) e = elim (Bool-cases (asks_atime args ps)) [
  | inl c ↦ ground (arith, collect-asks_atime args ps c)
  | inr c ↦ ground (arith, c, e)
]

pub collect-none :
    (refuse_atime : Bool) (args : Map Bytes) (ps : Map Keyword)
    → collect refuse_atime args ps ≡ none
    → (refuse_atime ≡ true) × (asks_atime args ps ≡ true)
unfolding collect
collect-none refuse_atime args [] e = absurd (ground (arith, e))
collect-none refuse_atime args ((name, j) ∷ ps) e =
    elim (Option-cases (collect refuse_atime args ps)) [
      | inl c ↦
          let (refused, asked) = collect-none refuse_atime args ps c in
          (refused, ground (arith, asked))
      | inr (rest, c) ↦ ground (arith, c, e)
    ]

pub supported :
    (refuse_atime : Bool) (args : Map Bytes) (kvp : Conditions) (supports : Bool)
    → refuse_atime ≡ not supports
    → collect refuse_atime args properties ≡ some kvp
    → (not supports && asks_atime args properties) ≡ false
supported refuse_atime args kvp true e c = refl
supported refuse_atime args kvp false e c = elim (Bool-cases (asks_atime args properties)) [
  | inl asked ↦ absurd (ground (arith, e, c, collect-asks_atime args properties asked))
  | inr not_asked ↦ not_asked
]
