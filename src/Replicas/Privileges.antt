-- ===== src/Replicas/Privileges.antt =====
-- Who asks for the rights of an administrator.
use irods_client_http_api.Prelude.{◌≡◌, refl, Bool, false, Bytes, text}
use irods_client_http_api.Map.{Map, find}
use irods_client_http_api.Http.{Request, Response}
use irods_client_http_api.Http.Exec.{Exec, Identity, client, refused}
use irods_client_http_api.DataObjects.Io.{Io, has_value}
use irods_client_http_api.Replicas.Input.{ObjectCalls, handle_request}
use irods_client_http_api.Replicas.Copies.{op_replicate, op_trim, op_register, op_remove, op_copy}
use irods_client_http_api.Replicas.Changes.{op_set_permission, op_truncate}
use irods_client_http_api.Replicas.Queries.{op_calculate_checksum, op_verify_checksum}
use irods_client_http_api.Replicas.Changes.{op_rename, rename_task, op_touch, touch_task}
use irods_client_http_api.Replicas.Copies.{copy_task, register_task}
use irods_client_http_api.Replicas.Queries.{op_stat, stat_task}
use irods_client_http_api.Replicas.Modify.{
  op_modify_replica, modify_task, change_replica, replica_info,
}
use irods_client_http_api.Replicas.Operations.{
  Operation, replicate, trim, register, remove, copy, set_permission, rename, touch, truncate,
  calculate_checksum, verify_checksum, stat, modify_replica, run,
}
use irods_client_http_api.Replicas.Guarded.{
  Privileged, with_privileged, op_replicate_plain, op_trim_plain, op_remove_plain,
  op_calculate_checksum_plain, op_verify_checksum_plain, op_set_permission_plain, op_truncate_plain,
  op_register_plain, op_copy_plain,
}

module _ {Z Conn Out : Type 0} (io : Io Z Conn Out) (calls : ObjectCalls Z Conn) (compat : Bool)
    (other : Privileged Z Conn) where
  -- A request without "admin" = "1" never asks for the rights of an administrator, except to modify a
  -- replica: whatever the client library does where it is asked for them, the operation runs as if it
  -- did nothing special.
  pub run-with_privileged :
      (irods5 : Bool) (undefined : Exec Z Response) (op : Operation) (identity : Identity)
      (req : Request) (args : Map Bytes) (z : Z)
      → has_value (find (text "admin") args) (text "1") ≡ false
      → run io (with_privileged other calls) compat irods5 undefined op identity req args z
        ≡ run io calls compat irods5 undefined op identity req args z
  unfolding run op_replicate op_trim op_register op_remove op_copy op_set_permission op_rename
      op_touch op_truncate op_calculate_checksum op_verify_checksum op_stat op_modify_replica
      handle_request register_task copy_task rename_task touch_task stat_task modify_task
      change_replica replica_info
  run-with_privileged irods5 undefined op (refused r) req args z no_admin =
      elim op
        as (λ k.
          run io (with_privileged other calls) compat irods5 undefined k (refused r) req args z
          ≡ run io calls compat irods5 undefined k (refused r) req args z) [
            | replicate ↦ refl
            | trim ↦ refl
            | register ↦ refl
            | remove ↦ refl
            | copy ↦ refl
            | set_permission ↦ refl
            | rename ↦ refl
            | touch ↦ refl
            | truncate ↦ refl
            | calculate_checksum ↦ refl
            | verify_checksum ↦ refl
            | stat ↦ refl
            | modify_replica ↦ refl
          ]
  run-with_privileged irods5 undefined replicate (client u) req args z no_admin =
      op_replicate_plain io calls compat other u req args z no_admin
  run-with_privileged irods5 undefined trim (client u) req args z no_admin =
      op_trim_plain io calls compat other u req args z no_admin
  run-with_privileged irods5 undefined register (client u) req args z no_admin =
      op_register_plain io calls compat other u req args z
  run-with_privileged irods5 undefined remove (client u) req args z no_admin =
      op_remove_plain io calls compat other u req args z no_admin
  run-with_privileged irods5 undefined copy (client u) req args z no_admin =
      op_copy_plain io calls compat other u req args z
  run-with_privileged irods5 undefined set_permission (client u) req args z no_admin =
      op_set_permission_plain io calls compat other u req args z no_admin
  run-with_privileged irods5 undefined rename (client u) req args z no_admin = refl
  run-with_privileged irods5 undefined touch (client u) req args z no_admin = refl
  run-with_privileged irods5 undefined truncate (client u) req args z no_admin =
      op_truncate_plain io calls compat other undefined u req args z no_admin
  run-with_privileged irods5 undefined calculate_checksum (client u) req args z no_admin =
      op_calculate_checksum_plain io calls compat other u req args z no_admin
  run-with_privileged irods5 undefined verify_checksum (client u) req args z no_admin =
      op_verify_checksum_plain io calls compat other u req args z no_admin
  run-with_privileged irods5 undefined stat (client u) req args z no_admin = refl
  run-with_privileged irods5 undefined modify_replica (client u) req args z no_admin = refl
