-- ===== src/Examples/Worlds.antt =====
-- Concrete worlds for the client library.
use irods_client_http_api.Prelude.{
  ℕ, ◌+◌, ◌==◌, Bool, true, false, not, Bytes, ◌++◌, [], ◌∷◌, text, if◌then◌else◌,
}
use irods_client_http_api.Map.{Map}
use irods_client_http_api.Http.{pos, negsuc, Request}
use irods_client_http_api.Http.Exec.{value, thrown, irods_exception, pure}
use irods_client_http_api.DataObjects.Io.{Io, Context, Server}
use irods_client_http_api.DataObjects.Init.{Limits}

pub record World : Type 0 where
  pub opened : ℕ
  pub content : Bytes
  pub broken : Bool

abbrev pub world : World
world = record { opened = 0; content = []; broken = false }

-- A zone in which everything works; a stream is the number of streams that were opened before.
abbrev pub working : Io World (Unit {0}) ℕ
working = record {
  connect = λ user. pure tt;
  authenticate = λ conn. pure (pos 0);
  disconnect = λ conn. pure tt;
  pool_connection = pure tt;
  switch_user = λ conn user. pure (pos 0);
  ticket_admin = λ conn ticket. pure (pos 0);
  open_stream = λ conn path target mode z. (value z.opened, record z { opened = z.opened + 1 });
  is_good = λ out z. true;
  last_error = λ out z. pos 0;
  seekp = λ out offset. pure tt;
  write = λ out bytes z. (value tt, record z { content = z.content ++ bytes });
  close = λ out. pure tt;
  close_quietly = λ out. pure tt;
  sys_internal_err = negsuc 153999;
}

-- Only one stream can be opened.
abbrev pub one_stream : Io World (Unit {0}) ℕ
one_stream = record working {
  open_stream = λ conn path target mode z.
      if z.opened == 0
      then (value z.opened, record z { opened = z.opened + 1 })
      else (thrown (irods_exception (negsuc 11999) (text "HIERARCHY_ERROR")), z);
}

-- Nothing is stored, and the stream is broken behind the first write.
abbrev pub full_disk : Io World (Unit {0}) ℕ
full_disk = record working {
  is_good = λ out z. not z.broken;
  write = λ out bytes z. (value tt, record z { broken = true });
}

abbrev pub request : Request
request = record { version = 11; keep_alive = true }

abbrev pub limits : Limits
limits = record { max_streams_per_handle = 3; max_streams = 10 }

abbrev pub handle : Bytes
handle = text "h"

abbrev pub two_streams : Context ℕ
two_streams = record { out = 0; in_use = true } ∷ record { out = 1; in_use = false } ∷ []

abbrev pub idle : Server World ℕ
idle = record { contexts = []; active = 0; io = world }

abbrev pub busy : Server World ℕ
busy = record { contexts = (handle, two_streams) ∷ []; active = 2; io = world }

abbrev pub init_form : Map Bytes
init_form = (text "lpath", text "/z/f") ∷ (text "stream-count", text "2") ∷ []

abbrev pub shutdown_form : Map Bytes
shutdown_form = (text "parallel-write-handle", handle) ∷ []
