-- ===== src/Examples/Reads.antt =====
-- Reads at concrete inputs.
use mathlib.Core.List.{append-nil}
use irods_client_http_api.Prelude.{
  ℕ, ◌+◌, refl, true, false, Bytes, [], ◌∷◌, ◌++◌, text, arith, take, drop,
}
use irods_client_http_api.Map.{Map, find}
use irods_client_http_api.Text.{bytes_eq}
use irods_client_http_api.Number.{stoll}
use irods_client_http_api.Http.{pos, negsuc}
use irods_client_http_api.Http.Exec.{value, pure, client}
use irods_client_http_api.DataObjects.Io.{Io, any_replica}
use irods_client_http_api.DataObjects.Write.{get_connection}
use irods_client_http_api.DataObjects.Read.{op_read, start_reader}
use irods_client_http_api.DataObjects.Read.Client.{Files, need_buffer, no_error}
use irods_client_http_api.DataObjects.Read.Delivery.{IsSource, Receives, start_reader-Receives}
use irods_client_http_api.DataObjects.Read.Slices.{IsOpenable, Gets, op_read-Gets}
use irods_client_http_api.Examples.Worlds.{request}

-- Where the stream stands, and what the client has received.
record Disk : Type 0 where
  position : ℕ
  sent_bytes : Bytes

abbrev disk : Disk
disk = record { position = 0; sent_bytes = [] }

abbrev content : Bytes
content = text "abcdefg"

-- Streams and connections are of one kind.
abbrev zone : Io Disk (Unit {0}) (Unit {0})
zone = record {
  connect = λ user. pure tt;
  authenticate = λ conn. pure (pos 0);
  disconnect = λ conn. pure tt;
  pool_connection = pure tt;
  switch_user = λ conn user. pure (pos 0);
  ticket_admin = λ conn ticket. pure (pos 0);
  open_stream = λ conn path target mode. pure tt;
  is_good = λ out z. true;
  last_error = λ out z. pos 0;
  seekp = λ out offset. pure tt;
  write = λ out bytes. pure tt;
  close = λ out. pure tt;
  close_quietly = λ out. pure tt;
  sys_internal_err = negsuc 153999;
}

abbrev files : Files Disk (Unit {0}) (Unit {0})
files = record {
  is_data_object = λ conn path. pure true;
  data_object_size = λ conn path. pure 7;
  open_stream = λ conn path target z. (value tt, record z { position = 0 });
  is_good = λ stream z. true;
  fail = λ stream z. false;
  eof = λ stream z. false;
  seekg = λ stream n z. (value tt, record z { position = n });
  read = λ stream n z.
      (value (take n (drop z.position content)), record z { position = z.position + n });
  write_header = pure true;
  write_body = λ bytes more z. (
    elim more [ true ↦ need_buffer | false ↦ no_error ],
    record z { sent_bytes = z.sent_bytes ++ bytes },
  );
}

abbrev place : Disk → ℕ
place z = z.position

abbrev received : Disk → Bytes
received z = z.sent_bytes

files-IsSource : IsSource files tt content place received
files-IsSource = record {
  reads = λ n z fits. refl;
  moves = λ n z fits. refl;
  no_failure = λ n z fits. refl;
  no_eof = λ n z fits. refl;
  good = λ n z fits. refl;
  sends_nothing = λ n z. refl;
  takes = λ b z. refl;
  sends = λ b z. refl;
  stays = λ b z. refl;
  ends = λ z. refl;
  ends_with_nothing = λ z. append-nil z.sent_bytes;
  header = λ z. refl;
  header_position = λ z. refl;
  header_sends = λ z. refl;
}

zone-IsOpenable : IsOpenable zone files tt content place
zone-IsOpenable = record {
  connects = λ user z. (tt, refl);
  authenticates = λ conn z. (0, refl);
  opens = λ conn path target z. refl;
  opens_good = λ conn path target z. refl;
  opens_at_start = λ conn path target z. refl;
  seeks = λ n z fits. refl;
  seeks_good = λ n z fits. refl;
  seeks_to = λ n z fits. refl;
}

start_reader-Receives_example :
    Receives zone files content place received content disk (
      start_reader zone files 8 (record { stream = tt; buffer_size = 3; remaining_bytes = 7 }) disk)
start_reader-Receives_example =
    start_reader-Receives zone files content place received tt files-IsSource 3 7 disk (omega arith)
      (omega arith)

abbrev read_form : Map Bytes
read_form = (text "lpath", text "/z/f") ∷ (text "offset", text "1") ∷ (text "count", text "4") ∷ []

op_read-Gets_example :
    Gets zone files content place received
      (text "bcde")
      (op_read zone files false 3 (client (text "alice")) request read_form disk)
unfolding find bytes_eq get_connection stoll
op_read-Gets_example =
    op_read-Gets zone files content place received tt files-IsSource zone-IsOpenable false 3
      (text "alice") request read_form (text "/z/f") tt any_replica 1 4 disk disk disk disk refl
      refl refl refl refl refl (omega arith) (omega arith) refl refl (omega arith)
