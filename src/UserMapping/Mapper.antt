-- ===== src/UserMapping/Mapper.antt =====
-- plugins/user_mapping/src/local_file.cpp: the mapping is a file, which is read again when it has changed.
use irods_client_http_api.Prelude.{
  ℕ, Bool, true, false, ◌&&◌, List, [], ◌∷◌, Option, none, some, Bytes, text, ◌==◌, if◌then◌else◌,
}
use irods_client_http_api.Http.{ℤ, pos, Json, str}
use irods_client_http_api.Openid.Introspection.{member}
use irods_client_http_api.Replicas.Input.{c_str}

-- nlohmann's JSON: `==`, `items()`, and `parse`, which throws.
pub record JsonLibraries : Type 0 where
  pub json_eq : Json → Json → Bool
  pub items : Json → List (Bytes × Json)
  pub parse : Bytes → Option Json

pub record UserProfile : Type 0 where
  pub irods_user_name : Bytes
  pub attributes : Json

-- `profile_list`, `last_file_path_write` and `file_path`.
pub record Mapper : Type 0 where
  pub profile_list : List UserProfile
  pub last_file_path_write : ℕ
  pub file_path : Bytes

-- What the file system shows during one update: the time of the last write, asked for before the file is
-- read and behind that, where `none` is an exception; and the text of the file, if it can be opened.
pub record FileView : Type 0 where
  pub write_time : Option ℕ
  pub content : Option Bytes
  pub write_time_after : Option ℕ

-- The flag is that nothing was thrown.
abbrev pub Updated : Type 0
Updated = Bool × Mapper

-- `strdup` of the name.
abbrev pub duplicated : Option Bytes → Option Bytes
duplicated none = none
duplicated (some name) = some (c_str name)

module _ (libraries : JsonLibraries) where
  -- `std::transform` of the members of the file.
  abbrev pub profiles_of : List (Bytes × Json) → List UserProfile
  profiles_of [] = []
  profiles_of ((name, attributes) ∷ rest) =
      record { irods_user_name = name; attributes = attributes } ∷ profiles_of rest

  -- The list is replaced before the time is taken.
  abbrev pub replace_profiles : Mapper → Option ℕ → Json → Updated
  replace_profiles m none json_data =
      (false, record m { profile_list = profiles_of (libraries.items json_data) })
  replace_profiles m (some t) json_data = (
    true,
    record m { profile_list = profiles_of (libraries.items json_data); last_file_path_write = t },
  )

  abbrev pub parsed_content : Option Bytes → Option Json
  parsed_content none = none
  parsed_content (some s) = libraries.parse s

  unfoldable pub update : Mapper → FileView → Updated
  update m file = elim file.write_time [
    | none ↦ (false, m)
    | some t ↦
        if t == m.last_file_path_write then (true, m) else elim (parsed_content file.content) [
          | none ↦ (false, m)
          | some json_data ↦ replace_profiles m file.write_time_after json_data
        ]
  ]

  -- "file_path" of the configuration; `none` is an exception.
  unfoldable pub init : Json → FileView → Option Mapper
  unfolding update
  init config file = elim (member (text "file_path") config) [
    | some (str path) ↦
        let done =
          update (record { profile_list = []; last_file_path_write = 0; file_path = path }) file in
        if done.0 then some done.1 else none
    | _ ↦ none
  ]

  abbrev pub found_in : Json → Bytes × Json → Bool
  found_in params (key, v) = elim (member key params) [
    | none ↦ false
    | some w ↦ libraries.json_eq w v
  ]

  abbrev pub all_of : Json → List (Bytes × Json) → Bool
  all_of params [] = true
  all_of params (attribute ∷ attributes) = found_in params attribute && all_of params attributes

  -- The first user all of whose attributes are there.
  unfoldable pub find_profile : List UserProfile → Json → Option Bytes
  find_profile [] params = none
  find_profile (p ∷ ps) params =
      let rest = find_profile ps params in
      if all_of params (libraries.items p.attributes) then some p.irods_user_name else rest

  -- An exception of the update is caught. The flag is that the lock was free: only one thread updates.
  unfoldable pub match_user : Bool → Mapper → FileView → Json → Option Bytes × Mapper
  unfolding update find_profile
  match_user locked m file params =
      let m' = if locked then (update m file).1 else m in (find_profile m'.profile_list params, m')

  -- The return code, and what is behind `_match`; a null pointer for the parameters is refused.
  unfoldable pub user_mapper_match :
      Bool → Mapper → FileView → Option Bytes → (ℤ × Option Bytes) × Mapper
  unfolding match_user
  user_mapper_match locked m file none = ((pos 1, none), m)
  user_mapper_match locked m file (some param) = elim (libraries.parse param) [
    | none ↦ ((pos 1, none), m)
    | some params ↦
        let done = match_user locked m file params in ((pos 0, duplicated done.0), done.1)
  ]

  -- A null pointer, or a configuration that is refused, gives 1; the state is then not used.
  unfoldable pub user_mapper_init : Option Bytes → FileView → ℤ × Option Mapper
  unfolding init
  user_mapper_init none file = (pos 1, none)
  user_mapper_init (some args) file = elim (libraries.parse args) [
    | none ↦ (pos 1, none)
    | some config ↦ elim (init config file) [ none ↦ (pos 1, none) | some m ↦ (pos 0, some m) ]
  ]
