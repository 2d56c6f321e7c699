-- ===== src/Lib.antt =====
-- Verification library of the iRODS HTTP API, a server that turns HTTP requests into calls of the
-- iRODS client library.
--
-- A session reads a request and hands it to the endpoint of its path (core/src/session.cpp). The
-- endpoint finds the operation in a table by the argument "op", which comes from the query or from
-- the body (core/src/common.cpp, core/src/multipart_form_data.cpp). The operation learns who the
-- client is from a bearer token, which the authentication endpoint
-- (endpoints/authentication/src/main.cpp) has put into the process stash
-- (core/src/process_stash.cpp) and which a timer of core/src/main.cpp removes when it expires. The
-- data object endpoint (endpoints/data_objects/src/main.cpp) writes to data objects, over one stream or
-- over the streams of a parallel write handle, which it keeps in a global map and counts.
--
-- The files, and what they model:
--   Prelude, Text, Map      lists of bytes, `find` and `substr`, and association lists for maps.
--   Number                  `std::stoi` and `std::stoll`, which throw outside their range.
--   Http, Http.Exec         requests, responses and the `fail` functions; a task of a handler, which
--                           reads and writes a state, may send a response, and may throw.
--   Arguments               `decode`, `encode`, `to_argument_list` and `url_encode_body`.
--   Multipart               the form parser: `turn` is one turn of its loop, `parse_loop` the loop.
--   Dispatch                `on_read_header`, `on_read_body`, `parse_url` and `execute_operation`.
--   Names                   names of permissions and object types.
--   Stash                   `insert`, `find`, `erase`, `erase_if`, `handles`, and the eviction.
--   Authentication          the authentication handler and `resolve_client_identity`.
--   DataObjects.Io          the client library as a parameter; the global state `Server`.
--   DataObjects.Streams     the constructor of `parallel_write_stream`, and its search for a free one.
--   DataObjects.Init        `op_parallel_write_init`.
--   DataObjects.Shutdown    `op_parallel_write_shutdown`.
--   DataObjects.Select      the choice of a stream in `op_write` and `op_write_streaming`, and the guard
--                           that frees it.
--   DataObjects.Write       these two operations up to the start of the transfer; `get_connection`.
--   DataObjects.Writer      `incremental_write` and `streaming_write`, a turn for each background task.
--   DataObjects.Read        `op_read`, and `incremental_read`, a turn for each background task.
--   Replicas                the other operations on data objects: `run` is the two tables of the endpoint
--                           without reading and writing, Replicas.Input the inputs of the client
--                           library, Replicas.Copies, .Changes, .Queries and .Modify the handlers.
--   Tickets                 `op_create` and `op_remove` of endpoints/tickets/src/main.cpp.
--   Openid                  `validate_using_introspection_endpoint` and `validate_using_local_validation`
--                           of core/src/openid.cpp, with the choice of algorithms and keys.
--   UserMapping             plugins/user_mapping/src/local_file.cpp, and the configuration and the match of
--                           plugins/user_mapping/src/user_claim.cpp.
--   Examples                concrete worlds and runs.
--
-- What is not under the repository's own source is a parameter: the iRODS client library (`Io`, of
-- which each call may change the world, send an error code, or throw), libcurl and Boost's text
-- functions (`TextLibraries`, `HeaderLibraries`, `UrlLibraries`), base64 and the credential checks
-- (`CredentialLibraries`), and random identifiers (a sequence). The requests to an OpenID provider and
-- the user mapping plugin are parameters as well (`OpenId`), and so are jwt-cpp (`JwtLibraries`),
-- nlohmann's JSON (`JsonLibraries`) and boost::regex (`RegexLibraries`). What `op_truncate` does where it
-- dereferences the end of a map is a parameter too (`undefined`), since the language says nothing of it.
--
-- Texts are lists of bytes, and positions and sizes are natural numbers; where the parser subtracts
-- sizes, the wrap-around of a 64-bit `std::size_t` is written out (`sub_size`). An `int` that `stoi`
-- reads is within 32 bits. The size behind an offset in `op_read` (`real_count`, `to_int64`) and the seconds of
-- "nbf" in nanoseconds (`nanoseconds`) wrap at 64 bits. The count of active streams is a natural number, and
-- lowering it stops at 0. Two sums are taken without a bound where the source could overflow: that of the
-- active and the requested streams in `init_arguments`, which an `int` holds as long as the two limits of the
-- configuration add up to less than 2 ^ 31, and that of the clock and the seconds until a ticket expires in
-- `set_expiration`, which the 64-bit nanoseconds of the clock hold for some 7.5 billion seconds.
--
-- The fields for paths in the inputs of the client library are arrays with all their bytes, which `zeros` sets
-- to zeros; `strncpy` and `string_copy` copy into them. The buffer of a streamed write is an array as well; the
-- reads of Beast that fill it are parameters (`SocketRead`).
--
-- Fuel: the form parser gets four turns for each byte and four more, while no two turns in a row leave
-- the position where it is. A transfer, of a read or of a write, gets one turn for each byte and one
-- more, while each turn moves at least one byte. The search for an unused key gets one draw more than there are entries.
-- That each of these suffices is a part of the results.
--
-- Not modelled: locks and the interleaving of two operations inside one another (each operation is a
-- step), logging, destructors of streams and connections, timers, sockets and TLS, the writing of responses and the cycle of a session, start-up and
-- configuration, `op_stat` as it is built before iRODS 5.1, and the endpoints for collections, resources,
-- zones, queries, rules, users and groups, which check arguments and call the client library.
pub mod Prelude
pub mod Text
pub mod Map
pub mod Http
pub mod Number
pub mod DataObjects
pub mod Replicas
pub mod Openid
pub mod UserMapping
pub mod Stash
pub mod Authentication
pub mod Arguments
pub mod Multipart
pub mod Dispatch
pub mod Names
pub mod Tickets
pub mod Examples
