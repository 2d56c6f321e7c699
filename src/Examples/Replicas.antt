-- ===== src/Examples/Replicas.antt =====
-- Operations on replicas at concrete inputs.
use irods_client_http_api.Prelude.{
  inl, ◌+◌, ◌++◌, ◌≡◌, refl, ◌⊎◌, true, false, none, some, Bytes, [], ◌∷◌, text,
}
use irods_client_http_api.Map.{Map, find}
use irods_client_http_api.Text.{bytes_eq}
use irods_client_http_api.Http.{ℤ, Response, pos, negsuc, str, initial_response}
use irods_client_http_api.Http.Exec.{Exec, throw, std_exception, value, pure, client}
use irods_client_http_api.DataObjects.Write.{get_connection}
use irods_client_http_api.Replicas.Input.{DataObjInfo, ObjectCalls, strncpy_null_terminated, zeros}
use irods_client_http_api.Replicas.Operations.{rename, remove, run}
use irods_client_http_api.Replicas.Copies.{op_remove}
use irods_client_http_api.Replicas.Modify.{op_modify_replica}
use irods_client_http_api.Replicas.Refusals.{Refuses, connects_first, run-lacks}
use irods_client_http_api.Replicas.Privileges.{run-with_privileged}
use irods_client_http_api.Replicas.Guarded.{Privileged, with_privileged}
use irods_client_http_api.Replicas.Paths.{op_remove_cuts}
use irods_client_http_api.Replicas.Changed.{Declined, Requested, op_modify_replica-effect}
use irods_client_http_api.Examples.Worlds.{World, world, working, request}

-- One more call, which succeeds.
abbrev called : Exec World ℤ
called z = (value (pos 0), record z { opened = z.opened + 1 })

-- A library that counts its calls, with fields of four bytes.
abbrev counting : ObjectCalls World (Unit {0})
counting = record {
  data_obj_repl = λ conn input. called;
  data_obj_trim = λ conn input. called;
  phy_path_reg = λ conn input. called;
  data_obj_unlink = λ conn input. called;
  data_obj_copy = λ conn from to. called;
  data_obj_chksum = λ conn input. pure (pos 0, []);
  replica_truncate = λ conn input z. (value (pos 0, none), record z { opened = z.opened + 1 });
  touch = λ conn input. called;
  mod_data_obj_meta = λ layout conn info kvp. called;
  is_data_object = λ conn path. pure true;
  status = λ conn path. pure (record { exists = true; is_data_object = true; permissions = [] });
  permissions = λ flag conn path name perm. pure tt;
  rename = λ conn from to. pure tt;
  throw_if_path_length_exceeds_limit = λ path. pure tt;
  data_object_size = λ conn path. pure 0;
  data_object_checksum = λ conn path. pure [];
  last_write_time = λ conn path. pure (pos 0);
  r_error = λ conn z. none;
  server_version = λ conn z. some (5, 0, 1);
  parse_json = λ output. pure (str output);
  max_name_len = 4;
  not_a_data_object = negsuc 0;
  invalid_object_type = negsuc 1;
  check_verification_results = negsuc 2;
}

abbrev refusing : Privileged World (Unit {0})
refusing = record {
  code = λ conn input. pure (negsuc 0);
  copying = λ conn from to. pure (negsuc 0);
  checksum = λ conn input. pure (negsuc 0, []);
  truncation = λ conn input. pure (negsuc 0, none);
  permission = λ conn path. pure tt;
}

-- What an undefined operation may do.
abbrev crash : Exec World Response
crash = throw std_exception

abbrev path_form : Map Bytes
path_form = (text "lpath", text "/z/f") ∷ []

abbrev alice : Bytes
alice = text "alice"

abbrev rename_form : Map Bytes
rename_form = (text "old-lpath", text "/z/f") ∷ []

run-lacks_example :
    Refuses
      (λ (z : World). z.content)
      world
      (run working counting false true crash rename (client alice) request rename_form world)
    × ((connects_first rename ≡ true)
        ⊎ ((run working counting false true crash rename (client alice) request rename_form world).1
            ≡ world))
unfolding find bytes_eq get_connection
run-lacks_example =
    run-lacks working counting false true crash (λ (z : World). z.content) rename alice request
      rename_form world refl (λ z. (tt, _, refl, refl)) (λ conn path z. (true, z, refl, refl))

abbrev remove_form : Map Bytes
remove_form = (text "lpath", text "/z/f") ∷ (text "catalog-only", text "0") ∷ []

run-with_privileged_example :
    run working
      (with_privileged refusing counting)
      false
      true
      crash
      remove
      (client alice)
      request
      remove_form
      world
    ≡ run working counting false true crash remove (client alice) request remove_form world
unfolding find bytes_eq
run-with_privileged_example =
    run-with_privileged working counting false refusing true crash remove (client alice) request
      remove_form world refl

op_remove_cuts_example :
    op_remove working counting false
      (client alice)
      request
      ((text "lpath", text "/z/f") ∷ (text "catalog-only", text "0") ∷ [])
      world
    ≡ op_remove working counting false
        (client alice)
        request
        ((text "lpath", text "/z/") ∷ (text "catalog-only", text "0") ∷ [])
        world
op_remove_cuts_example =
    op_remove_cuts working counting false alice (text "/z/f") request
      ((text "catalog-only", text "0") ∷ []) world

abbrev modify_form : Map Bytes
modify_form =
    (text "lpath", text "/z/f")
    ∷ (text "resource-hierarchy", text "r")
    ∷ (text "new-data-size", text "7")
    ∷ []

abbrev replica : DataObjInfo
replica = record {
  obj_path = text "/z/" ++ (0 ∷ []);
  resc_hier = text "r" ++ (0 ∷ 0 ∷ 0 ∷ []);
  repl_num = pos 0;
}

op_modify_replica-effect_example :
    Declined counting true modify_form
      (initial_response request)
      tt
      replica
      world
      (op_modify_replica working counting false true (client alice) request modify_form world)
    ⊎ Requested counting true modify_form
        (initial_response request)
        tt
        replica
        world
        (op_modify_replica working counting false true (client alice) request modify_form world)
unfolding find bytes_eq get_connection strncpy_null_terminated zeros
op_modify_replica-effect_example =
    op_modify_replica-effect working counting false true alice request modify_form tt (text "/z/f")
      replica world world refl refl (refl, inl (text "r", refl, refl, refl))
