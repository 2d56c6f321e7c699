-- ===== src/Examples/Sharing.antt =====
-- Tickets at concrete inputs.
use irods_client_http_api.Prelude.{◌≡◌, refl, false, true, [], ◌++◌, ℕ, List, ◌∷◌, Bytes, text}
use irods_client_http_api.Text.{bytes_eq}
use irods_client_http_api.Map.{Map, find}
use irods_client_http_api.Number.{stoi}
use irods_client_http_api.Http.{pos, negsuc, initial_response}
use irods_client_http_api.Http.Exec.{value, client, pure}
use irods_client_http_api.DataObjects.Io.{Io}
use irods_client_http_api.DataObjects.Write.{get_connection}
use irods_client_http_api.Tickets.{TicketAdmin, read, op_create}
use irods_client_http_api.Tickets.Constraints.{IsLog, answered, op_create-requested}
use irods_client_http_api.Tickets.{
  Constraint, use_count, n_writes_to_data_object, n_write_bytes, user,
}
use irods_client_http_api.Examples.Libraries.{texts, split_at}
use irods_client_http_api.Examples.Worlds.{World, request}

-- The world's content is the name of the only ticket.
abbrev one_ticket : TicketAdmin World (Unit {0})
one_ticket = record {
  create_ticket = λ conn type path z. (value (text "T"), record z { content = text "T" });
  constrain = λ conn ticket c. pure tt;
  expire = λ conn ticket time. pure (pos 0);
  delete_ticket = λ conn ticket z. (value tt, record z { content = [] });
}

abbrev IsThere : Bytes → World → Type 0
IsThere ticket z = z.content ≡ ticket

abbrev ticket_form : Map Bytes
ticket_form = (text "lpath", text "/z/f") ∷ (text "seconds-until-expiration", text "-1") ∷ []

-- The world is the log.
abbrev working_log : Io (List Constraint) (Unit {0}) ℕ
working_log = record {
  connect = λ user. pure tt;
  authenticate = λ conn. pure (pos 0);
  disconnect = λ conn. pure tt;
  pool_connection = pure tt;
  switch_user = λ conn user. pure (pos 0);
  ticket_admin = λ conn ticket. pure (pos 0);
  open_stream = λ conn path target mode. pure 0;
  is_good = λ out z. true;
  last_error = λ out z. pos 0;
  seekp = λ out offset. pure tt;
  write = λ out bytes. pure tt;
  close = λ out. pure tt;
  close_quietly = λ out. pure tt;
  sys_internal_err = negsuc 153999;
}

abbrev logging : TicketAdmin (List Constraint) (Unit {0})
logging = record {
  create_ticket = λ conn type path. pure (text "T");
  constrain = λ conn ticket c z. (value tt, z ++ (c ∷ []));
  expire = λ conn ticket time. pure (pos 0);
  delete_ticket = λ conn ticket. pure tt;
}

logging-IsLog : IsLog logging (text "T") (λ z. z)
logging-IsLog = record { constrains = λ conn c z. refl; logs = λ conn c z. refl }

abbrev shared_form : Map Bytes
shared_form =
    (text "lpath", text "/z/f") ∷ (text "use-count", text "3") ∷ (text "users", text "al,bo") ∷ []

op_create-requested_example :
    let r =
      op_create texts working_log logging false
        (client (text "alice"))
        request
        shared_form
        1000
        [] in
    (r.0 ≡ answered (text "T") (initial_response request))
    × (r.1
        ≡ use_count (pos 3)
          ∷ n_writes_to_data_object (pos 0)
          ∷ n_write_bytes (pos 0)
          ∷ user (text "al")
          ∷ user (text "bo")
          ∷ [])
unfolding find bytes_eq stoi get_connection split_at
op_create-requested_example =
    op_create-requested texts working_log logging false (text "T") (λ z. z) logging-IsLog tt request
      shared_form 1000 (text "alice") (text "/z/f") read (pos 3) (pos 0) (pos 0) [] [] [] refl refl
      refl refl refl refl refl refl
