-- ===== src/Examples/Permissions.antt =====
-- Names at concrete inputs.
use irods_client_http_api.Prelude.{◌≡◌, refl, some, text}
use irods_client_http_api.Text.{bytes_eq}
use irods_client_http_api.Names.{
  modify_object, write, to_permission_string, to_permission_enum, special_collection,
  to_object_type_string, to_object_type_enum,
}
use irods_client_http_api.Names.Laws.{
  to_permission_enum-to_permission_string, to_object_type_string-to_object_type_enum,
}

to_permission_enum-to_permission_string_example :
    to_permission_enum (to_permission_string modify_object) ≡ some write
to_permission_enum-to_permission_string_example =
    to_permission_enum-to_permission_string modify_object

to_object_type_string-to_object_type_enum_example :
    to_object_type_string special_collection ≡ text "special_collection"
unfolding to_object_type_enum bytes_eq
to_object_type_string-to_object_type_enum_example =
    to_object_type_string-to_object_type_enum (text "special_collection") special_collection refl
