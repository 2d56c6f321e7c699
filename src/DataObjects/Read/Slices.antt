-- ===== src/DataObjects/Read/Slices.antt =====
-- `op_read` gives the client a slice of the data object, on both of its ways.
use irods_client_http_api.Prelude.{
  ℕ, zero, suc, ◌+◌, ◌-◌, ◌≤◌, ◌<◌, ◌≡◌, refl, Bool, true, false, Option, none, some, Bytes, text,
  arith, take, drop, min, length, ltb, Bool-cases, inl, inr, subst,
}
use irods_client_http_api.Map.{Map, find}
use irods_client_http_api.Number.{stoi, stoll}
use irods_client_http_api.Http.{pos, negsuc, Request, Response, ok, raw, initial_response}
use irods_client_http_api.Http.Exec.{value, client}
use irods_client_http_api.DataObjects.Io.{Io, Target, root_resource, replica_number, any_replica}
use irods_client_http_api.DataObjects.Write.{get_connection}
use irods_client_http_api.DataObjects.Read.Client.{Files}
use irods_client_http_api.DataObjects.Read.{
  ReadReply, respond, started, offset_argument, count_argument, ticket_or_send,
  dedicated_connection, open_at, check_good, seek_stream, read_target, start_reading, read_at_once,
  read_counted, read_task, op_read, start_reader,
}
use irods_client_http_api.DataObjects.Read.Delivery.{IsSource, Receives, start_reader-Receives}

-- The offset that an argument asks for; `none` is a refusal.
abbrev pub wanted_offset : Option Bytes → Option ℕ
wanted_offset none = some 0
wanted_offset (some number) = elim (stoll number) [
  | none ↦ none
  | some (pos n) ↦ some n
  | some (negsuc n) ↦ none
]

-- The number of bytes, of those behind the offset.
abbrev pub wanted_count : ℕ → Option Bytes → Option ℕ
wanted_count behind none = some behind
wanted_count behind (some number) = elim (stoll number) [
  | none ↦ none
  | some (pos n) ↦ some (min n behind)
  | some (negsuc n) ↦ none
]

module _ {Z Conn Out In : Type 0} (io : Io Z Conn Out) (files : Files Z Conn In) where
  offset_argument-wanted_offset :
      (res : Response) (argument : Option Bytes) (offset : ℕ) (z : Z)
      → wanted_offset argument ≡ some offset
      → offset_argument io files res argument z ≡ (value offset, z)
  unfolding offset_argument
  offset_argument-wanted_offset res none offset z e = ground (arith, e)
  offset_argument-wanted_offset res (some number) offset z e = ground (arith, e)

  count_argument-wanted_count :
      (res : Response) (argument : Option Bytes) (size offset count : ℕ) (z : Z)
      → size < 9223372036854775808
      → offset ≤ size
      → wanted_count (size - offset) argument ≡ some count
      → count_argument io files res size offset argument z ≡ (value (pos count), z)
  unfolding count_argument
  count_argument-wanted_count res none size offset count z small inside e = ground (arith, e)
  count_argument-wanted_count res (some number) size offset count z small inside e =
      ground (arith, e)

-- The replica to read; `none` is a refusal.
abbrev pub wanted_target : Map Bytes → Option (Target (Unit {0}))
wanted_target args = elim (find (text "resource") args) [
  | some resource ↦ some (root_resource resource)
  | none ↦ elim (find (text "replica-number") args) [
    | none ↦ some any_replica
    | some number ↦ elim (stoi number) [ none ↦ none | some n ↦ some (replica_number n) ]
  ]
]

-- A zone in which a new stream can be opened on every new connection, stands at the start, and moves to any
-- place within its bytes.
pub record IsOpenable {Z Conn Out In : Type 0} (io : Io Z Conn Out) (files : Files Z Conn In)
    (stream : In) (content : Bytes) (position : Z → ℕ) : Type 0 where
  pub connects :
      (username : Bytes) (z : Z) → (conn : Conn) × ((io.connect username z).0 ≡ value conn)
  pub authenticates : (conn : Conn) (z : Z) → (n : ℕ) × ((io.authenticate conn z).0 ≡ value (pos n))
  pub opens :
      (conn : Conn) (path : Bytes) (target : Target (Unit {0})) (z : Z)
      → (files.open_stream conn path target z).0 ≡ value stream
  pub opens_good :
      (conn : Conn) (path : Bytes) (target : Target (Unit {0})) (z : Z)
      → files.is_good stream (files.open_stream conn path target z).1 ≡ true
  pub opens_at_start :
      (conn : Conn) (path : Bytes) (target : Target (Unit {0})) (z : Z)
      → position (files.open_stream conn path target z).1 ≡ 0
  pub seeks : (n : ℕ) (z : Z) → n ≤ length content → (files.seekg stream n z).0 ≡ value tt
  pub seeks_good :
      (n : ℕ) (z : Z) → n ≤ length content → files.is_good stream (files.seekg stream n z).1 ≡ true
  pub seeks_to : (n : ℕ) (z : Z) → n ≤ length content → position (files.seekg stream n z).1 ≡ n

module _ {Z Conn Out In : Type 0} (io : Io Z Conn Out) (files : Files Z Conn In) (content : Bytes)
    (position : Z → ℕ) (sent_bytes : Z → Bytes) where
  -- The client gets these bytes: as the body of the response, or from the transfer that was started.
  abbrev pub Gets : Bytes → ReadReply In × Z → Type 0
  Gets bytes (respond r, z) = (r.result ≡ ok) × (r.body ≡ raw bytes)
  Gets bytes (started r, z) =
      Receives io files content position sent_bytes bytes z
        (start_reader io files (r.remaining_bytes + 1) r z)

  read_target-wanted_target :
      (res : Response) (args : Map Bytes) (target : Target (Unit {0})) (z : Z)
      → wanted_target args ≡ some target
      → read_target io files res args z ≡ (value target, z)
  unfolding read_target
  read_target-wanted_target res args target z e = ground (arith, e)

  module _ (stream : In) (laws : IsSource files stream content position sent_bytes)
      (zone : IsOpenable io files stream content position) where
    seek_stream_lem :
        (res : Response) (offset : ℕ) (z : Z)
        → position z ≡ 0
        → offset ≤ length content
        → (z' : Z) × (seek_stream io files res stream offset z ≡ (value tt, z'))
          × (position z' ≡ offset)
    unfolding seek_stream check_good
    seek_stream_lem res zero z start inside = (z, ground arith, start)
    seek_stream_lem res (suc n) z start inside = (
      (files.seekg stream (suc n) z).1,
      ground (arith, zone.seeks (suc n) z inside, zone.seeks_good (suc n) z inside),
      zone.seeks_to (suc n) z inside,
    )

    open_at_lem :
        (res : Response) (args : Map Bytes) (target : Target (Unit {0})) (conn : Conn)
        (path : Bytes) (offset : ℕ) (z : Z)
        → wanted_target args ≡ some target
        → offset ≤ length content
        → (z' : Z) × (open_at io files res args conn path offset z ≡ (value stream, z'))
          × (position z' ≡ offset)
    unfolding open_at check_good
    open_at_lem res args target conn path offset z e inside =
        let z1 = (files.open_stream conn path target z).1 in
        let (z', sought, there) =
          seek_stream_lem res offset z1 (zone.opens_at_start conn path target z) inside in
        (
          z',
          ground (
            arith,
            read_target-wanted_target res args target z e,
            zone.opens conn path target z,
            zone.opens_good conn path target z,
            sought,
          ),
          there,
        )

    read_at_once-Gets :
        (res : Response) (args : Map Bytes) (target : Target (Unit {0})) (conn : Conn)
        (path : Bytes) (offset count : ℕ) (z : Z)
        → wanted_target args ≡ some target
        → offset + count ≤ length content
        → (r : ReadReply In) × (z' : Z) × (read_at_once io files res args conn path offset
              (pos count)
              z
            ≡ (value r, z'))
          × (res.result ≡ ok → Gets (take count (drop offset content)) (r, z'))
    unfolding read_at_once check_good
    read_at_once-Gets res args target conn path offset count z e inside =
        let (z1, opened, there) = open_at_lem res args target conn path offset z e (omega arith) in
        let within : position z1 + count ≤ length content = omega arith in
        (
          respond (record res { body = raw (take count (drop offset content)) }),
          (files.read stream count z1).1,
          ground (arith, opened, there, laws.reads count z1 within, laws.good count z1 within),
          λ fine. (fine, refl),
        )

    dedicated_connection_lem :
        (compat : Bool) (res : Response) (username : Bytes) (conn : Conn) (z : Z)
        → (conn' : Conn) × (z' : Z) × (dedicated_connection io files compat res username conn z
            ≡ (value conn', z'))
    unfolding dedicated_connection
    dedicated_connection_lem true res username conn z = (conn, z, refl)
    dedicated_connection_lem false res username conn z =
        let (conn', connected) = zone.connects username z in
        let z1 = (io.connect username z).1 in
        let (n, authenticated) = zone.authenticates conn' z1 in
        (conn', (io.authenticate conn' z1).1, ground (arith, connected, authenticated))

    start_reading-Gets :
        (compat : Bool) (res : Response) (args : Map Bytes) (target : Target (Unit {0}))
        (username : Bytes) (conn : Conn) (path : Bytes) (offset b count : ℕ) (z : Z)
        → wanted_target args ≡ some target
        → 0 < b
        → offset + count ≤ length content
        → (r : ReadReply In) × (z' : Z) × (start_reading io files compat res args username conn path
              offset b count z
            ≡ (value r, z'))
          × (res.result ≡ ok → Gets (take count (drop offset content)) (r, z'))
    unfolding start_reading
    start_reading-Gets compat res args target username conn path offset b count z e some_buffer
          inside =
        let (conn', z0, connected) = dedicated_connection_lem compat res username conn z in
        let (z1, opened, there) =
          open_at_lem res args target conn' path offset z0 e (omega arith) in
        (
          started (record { stream = stream; buffer_size = b; remaining_bytes = count }),
          z1,
          ground (arith, connected, opened),
          λ fine.
              subst
                (λ (k : ℕ).
                  Receives io files content position sent_bytes (take count (drop k content)) z1 (
                    start_reader io files (count + 1)
                      (record { stream = stream; buffer_size = b; remaining_bytes = count }) z1))
                there
                (start_reader-Receives io files content position sent_bytes stream laws b count z1
                  some_buffer (omega arith)),
        )

    read_counted-Gets :
        (compat : Bool) (res : Response) (args : Map Bytes) (target : Target (Unit {0}))
        (username : Bytes) (conn : Conn) (path : Bytes) (offset b count : ℕ) (z : Z)
        → wanted_target args ≡ some target
        → 0 < b
        → offset + count ≤ length content
        → (r : ReadReply In) × (z' : Z) × (read_counted io files compat b res args username conn
              path offset
              (pos count)
              z
            ≡ (value r, z'))
          × (res.result ≡ ok → Gets (take count (drop offset content)) (r, z'))
    unfolding read_counted
    read_counted-Gets compat res args target username conn path offset b count z e some_buffer
          inside =
        elim (Bool-cases (ltb b count)) [
          | inl large ↦ rw large (
              start_reading-Gets compat res args target username conn path offset b count z e
                some_buffer inside)
          | inr small ↦
              rw small (read_at_once-Gets res args target conn path offset count z e inside)
        ]

    -- If the connection is made, no ticket is given, the path is that of a data object of fewer than 2 ^ 63
    -- bytes, "offset", "count" and the replica are valid where they are given, the offset is within the
    -- object, the buffer is not empty, streams open and serve reads within the object, and the socket takes
    -- all that is sent, then the client of op_read gets exactly the bytes behind the offset, "count" of them or
    -- as many as there are, whether they are sent at once or in parts.
    pub op_read-Gets :
        (compat : Bool) (b : ℕ) (username : Bytes) (req : Request) (args : Map Bytes) (path : Bytes)
        (conn : Conn) (target : Target (Unit {0})) (offset count : ℕ) (z z1 z2 z3 : Z)
        → find (text "lpath") args ≡ some path
        → get_connection io compat username z ≡ (value conn, z1)
        → find (text "ticket") args ≡ none
        → files.is_data_object conn path z1 ≡ (value true, z2)
        → wanted_offset (find (text "offset") args) ≡ some offset
        → files.data_object_size conn path z2 ≡ (value (length content), z3)
        → offset ≤ length content
        → length content < 9223372036854775808
        → wanted_count (length content - offset) (find (text "count") args) ≡ some count
        → wanted_target args ≡ some target
        → 0 < b
        → Gets
            (take count (drop offset content))
            (op_read io files compat b (client username) req args z)
    unfolding op_read read_task ticket_or_send
    op_read-Gets compat b username req args path conn target offset count z z1 z2 z3 found connected
          no_ticket is_object at_offset sized inside small counted aimed some_buffer =
        let (r, z', done, gets) =
          read_counted-Gets compat (initial_response req) args target username conn path offset b
            count z3 aimed some_buffer
            (wanted_count-within (find (text "count") args) offset count inside counted) in
        let asked =
          offset_argument-wanted_offset io files (initial_response req) (find (text "offset") args)
            offset z2 at_offset in
        let taken =
          count_argument-wanted_count io files (initial_response req) (find (text "count") args)
            (length content) offset count z3 small inside counted in
        rw (found, connected, no_ticket, is_object, asked, sized, taken, done) (gets refl)
      where
        wanted_count-within :
            (argument : Option Bytes) (offset count : ℕ)
            → offset ≤ length content
            → wanted_count (length content - offset) argument ≡ some count
            → offset + count ≤ length content
        wanted_count-within none offset count inside e = ground (arith, e)
        wanted_count-within (some number) offset count inside e = ground (arith, e)
