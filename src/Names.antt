-- ===== src/Names.antt =====
-- The names of permissions and of object types in requests and responses: `to_permission_string`,
-- `to_permission_enum`, `to_object_type_string` and `to_object_type_enum` of core/src/common.cpp.
pub mod Laws
use irods_client_http_api.Prelude.{
  Bool, true, false, [], ◌∷◌, Option, none, some, Bytes, text, if◌then◌else◌,
}
use irods_client_http_api.Text.{bytes_eq}

-- `filesystem::perms`
pub data Perms : Type 0 where
  null read_metadata read_object read create_metadata modify_metadata : Perms
  delete_metadata create_object modify_object write delete_object own : Perms

-- A value outside the enumeration would end in an exception.
unfoldable pub to_permission_string : Perms → Bytes
to_permission_string null = text "null"
to_permission_string read_metadata = text "read_metadata"
to_permission_string read_object = text "read_object"
to_permission_string read = text "read_object"
to_permission_string create_metadata = text "create_metadata"
to_permission_string modify_metadata = text "modify_metadata"
to_permission_string delete_metadata = text "delete_metadata"
to_permission_string create_object = text "create_object"
to_permission_string modify_object = text "modify_object"
to_permission_string write = text "modify_object"
to_permission_string delete_object = text "delete_object"
to_permission_string own = text "own"

unfoldable pub to_permission_enum : Bytes → Option Perms
to_permission_enum s =
    if bytes_eq s (text "null")
    then some null
    else if bytes_eq s (text "read_metadata")
    then some read_metadata
    else if bytes_eq s (text "read_object")
    then some read
    else if bytes_eq s (text "read")
    then some read
    else if bytes_eq s (text "create_metadata")
    then some create_metadata
    else if bytes_eq s (text "modify_metadata")
    then some modify_metadata
    else if bytes_eq s (text "delete_metadata")
    then some delete_metadata
    else if bytes_eq s (text "create_object")
    then some create_object
    else if bytes_eq s (text "modify_object")
    then some write
    else if bytes_eq s (text "write")
    then some write
    else if bytes_eq s (text "delete_object")
    then some delete_object
    else if bytes_eq s (text "own")
    then some own
    else none

-- `filesystem::object_type`; all other values are one here.
pub data ObjectType : Type 0 where
  collection data_object none_type not_found special_collection unknown other_type : ObjectType

unfoldable pub to_object_type_string : ObjectType → Bytes
to_object_type_string collection = text "collection"
to_object_type_string data_object = text "data_object"
to_object_type_string none_type = text "none"
to_object_type_string not_found = text "not_found"
to_object_type_string special_collection = text "special_collection"
to_object_type_string unknown = text "unknown"
to_object_type_string other_type = text "?"

unfoldable pub to_object_type_enum : Bytes → Option ObjectType
to_object_type_enum s =
    if bytes_eq s (text "collection")
    then some collection
    else if bytes_eq s (text "data_object")
    then some data_object
    else if bytes_eq s (text "none")
    then some none_type
    else if bytes_eq s (text "not_found")
    then some not_found
    else if bytes_eq s (text "special_collection")
    then some special_collection
    else if bytes_eq s (text "unknown")
    then some unknown
    else none
