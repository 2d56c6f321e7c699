-- ===== src/Replicas/Operations.antt =====
-- The operations of this endpoint under one name, as its two tables list them.
use irods_client_http_api.Prelude.{Bool, Bytes}
use irods_client_http_api.Map.{Map}
use irods_client_http_api.Http.{Request, Response}
use irods_client_http_api.Http.Exec.{Exec, Identity}
use irods_client_http_api.DataObjects.Io.{Io}
use irods_client_http_api.Replicas.Input.{ObjectCalls}
use irods_client_http_api.Replicas.Copies.{op_replicate, op_trim, op_register, op_remove, op_copy}
use irods_client_http_api.Replicas.Changes.{op_set_permission, op_rename, op_touch, op_truncate}
use irods_client_http_api.Replicas.Queries.{op_calculate_checksum, op_verify_checksum, op_stat}
use irods_client_http_api.Replicas.Modify.{op_modify_replica}

pub data Operation : Type 0 where
  replicate trim register remove copy set_permission rename touch truncate : Operation
  calculate_checksum verify_checksum stat modify_replica : Operation

-- The handlers of the two tables that these names stand for.
unfoldable pub run :
    {Z Conn Out : Type 0}
    → Io Z Conn Out
    → ObjectCalls Z Conn
    → Bool
    → Bool
    → Exec Z Response
    → Operation
    → Identity
    → Request
    → Map Bytes
    → Z
    → Response × Z
run io calls compat irods5 undefined replicate = op_replicate io calls compat
run io calls compat irods5 undefined trim = op_trim io calls compat
run io calls compat irods5 undefined register = op_register io calls compat
run io calls compat irods5 undefined remove = op_remove io calls compat
run io calls compat irods5 undefined copy = op_copy io calls compat
run io calls compat irods5 undefined set_permission = op_set_permission io calls compat
run io calls compat irods5 undefined rename = op_rename io calls compat
run io calls compat irods5 undefined touch = op_touch io calls compat
run io calls compat irods5 undefined truncate = op_truncate io calls compat undefined
run io calls compat irods5 undefined calculate_checksum = op_calculate_checksum io calls compat
run io calls compat irods5 undefined verify_checksum = op_verify_checksum io calls compat
run io calls compat irods5 undefined stat = op_stat io calls compat
run io calls compat irods5 undefined modify_replica = op_modify_replica io calls compat irods5
