-- ===== src/Multipart/Libraries.antt =====
-- Boost's header functions, which the parser calls.
use irods_client_http_api.Prelude.{Bytes, Bool, List, Option}

pub record HeaderLibraries : Type 0 where
  pub trim_copy : Bytes → Bytes
  pub iequals : Bytes → Bytes → Bool
  -- `ext_list{value}.find(name)`, of the name and the value: the parameters of the entry with that name.
  pub ext_find : Bytes → Bytes → Option (List (Bytes × Bytes))
