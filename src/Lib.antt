-- ===== src/Lib.antt =====
-- RALE: leader election and a replicated key-value store for a small cluster.
--
-- The program is a library, librale, with a daemon (raled) and a client (ralectrl) around it. In the
-- library, rale_proto.c elects the leader by datagrams; dstore.c keeps the key-value store in step
-- over TCP and is told of the leader; each keeps what it knows in a file rale.state. cluster.c and
-- node.c hold the members, whose addresses the protocol sends to and whose number is the measure of a
-- majority; hash.c is the table behind the local database of db.c.
--
-- Base.antt, with its children, has the tests, list functions and the 32-bit `int`; Text.antt the C
-- strings, as lists of bytes without the closing zero, and atoi, fscanf's and printf's %d. Then:
--   Hash.antt       librale/src/hash.c. A bucket is a list, the mutex a flag, and a call returns,
--                   waits for ever or is undefined. Hash/File.antt has hash_save and hash_load.
--   Db.antt         librale/src/db.c, the local database over that table.
--   StateFile.antt  rale.state as rale_proto.c and dstore.c write and read it.
--   Proto.antt      librale/src/rale_proto.c. The static variables and the file are one record;
--                   Proto/Handle.antt has rale_handle_message, Proto/Tick.antt rale_quram_process and
--                   rale_process_command, Proto/Run.antt the steps of a node in any order.
--   Cluster.antt    librale/src/cluster.c, with its state file in Cluster/File.antt; NodeSystem.antt
--                   librale/src/node.c on the same array.
--   TcpClient.antt  librale/src/tcp_client.c, TcpServer.antt librale/src/tcp_server.c: connections,
--                   slots and buffers. TcpServer/Stream.antt describes the lines of a stream.
--   Dstore.antt     librale/src/dstore.c. The static variables, the cluster, the database and
--                   rale.state are one record, and a function is an action on it: it returns the new
--                   record and what is sent, or is undefined. Dstore/Peers.antt and Dstore/Spread.antt
--                   have what goes to other nodes, Dstore/Commands.antt dstore_put_from_command,
--                   Dstore/Server.antt the callbacks, Dstore/Ticks.antt what the daemon calls in turns;
--                   Dstore/Isolation.antt has sequences of calls.
--   RaledCommand.antt  raled/src/raled_command.c, the commands of the daemon's clients, which end in
--                   dstore.c and db.c; RaledCommand/Tokens.antt reads their lines.
--   Http.antt       the interface of the daemon over HTTP. Http/Server.antt and Http/Rest.antt are
--                   raled/src/raled_rest_api.c, the texts of requests and responses and the server with
--                   its endpoints; Http/Client.antt is ralectrl/src/ralectrl_http_client.c. A connection
--                   is a record of its answers: in Http/Health.antt and Http/Locked.antt they are those of
--                   the server.
--   Guc.antt        raled/src/raled_guc.c, the settings of the daemon, and Guc/File.antt
--                   raled/src/raled_configfile.c, the file of them.
--   Daemon.antt     the start of the daemon: Daemon/Arguments.antt is raled/src/raled_args.c, and
--                   Daemon/Start.antt initialize_librale of raled/src/raled_main.c, on the settings of
--                   Guc.antt, with the configuration of librale/src/librale.c and rale_init, which starts
--                   the cluster, the protocol and the store.
--   Dlog.antt       librale/src/dlog.c, a log for each of ten nodes.
--   Shutdown.antt   librale/src/shutdown.c, the flags, and a wait with what other threads call in it.
--   Watchdog.antt   librale/src/watchdog.c.
--   Validation.antt librale/src/validation.c, and Util.antt the functions on strings of
--                   librale/src/util.c.
--   Tests.antt      concrete inputs, and the theorems at them.
--
-- A function of the C code has a function of the same name, from the state before it to the state
-- after it and its result. What a call sends is a list beside the state; the order of writing a file
-- and sending is kept where a vote is granted. `Proto.Env` and Boolean arguments are the answers of the
-- system: the time, rand, and whether memory, a file or a mutex is to be had. An `int` is an integer,
-- and a place where the code may leave its 32 bits wraps (`to_int`, `incr`). All loops run over a list, an
-- array or a count, and are structural recursion. The lines of the cluster's file and of the file of
-- settings are read with the length of the file as fuel, since each has a byte, a buffer of the server
-- with its length, since each round takes a byte, and a number is printed with the number as fuel. The
-- end of a connection takes the number of calls that the stack has room for.
--
-- Not modelled: datagram sockets, threads, logging and the texts of errors; the daemon's signal
-- handlers, PID file and end, and the command line of ralectrl. cJSON, which the daemon reads commands
-- with and prints with, is an argument, and so are the options that getopt_long returns. Of the calls of
-- the socket interface only the answers are arguments.
pub mod Base
pub mod TcpClient
pub mod TcpServer
pub mod Dstore
pub mod RaledCommand
pub mod Daemon
pub mod Dlog
pub mod Shutdown
pub mod Watchdog
pub mod Text
pub mod Db
pub mod Guc
pub mod Hash
pub mod Http
pub mod NodeSystem
pub mod Cluster
pub mod StateFile
pub mod Proto
pub mod Tests
pub mod Util
pub mod Validation
