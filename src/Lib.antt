-- ===== src/Lib.antt =====
-- A shelter's server in C++, the clients in C, and the libraries in C that both use.
--
-- The server keeps the stock of a shelter in a RocksDB database and talks to clients over TCP, UDP and
-- a UNIX socket. Clients ask for the stock, for a summary and for images, and send updates of the
-- stock as JSON. A process of the server simulates sensors at the four entries of the shelter and
-- writes an alert to a FIFO for each high temperature; another one announces failures of the
-- electricity over the UNIX socket; a third one answers REST requests from the database.
--
-- The parts, and the modules that model them:
--   Supplies   lib/suppliesData/src/supplies_module.c: Stock has the two structs, Init the function
--              init_rocksdb_supplies, Load the loaders, Store the writers, Update the function
--              update_supplies_from_json. Arithmetic describes an update amount by amount, and Bounds,
--              RoundTrip, Transaction and Initial prove the code against that description.
--   Alerts     lib/alertInfection/src/alertInfection.c: Sensors has the readings, Message the bytes in
--              the FIFO; Entry has detectEntry of src/server/utils.cpp and the counters of checkAlerts
--              in src/server/server.cpp, Process the loop of createInfectionAlertsProcess there. Range,
--              Detection and Process have the theorems.
--   Emergency  lib/emergNotif/src/emergNotif.c; Laws has the theorems.
--   Sockets    Setup has the seven functions of lib/socketSetup/src/socket_setup.c, ServerSetup the class
--              of src/server/socketSetup.cpp; Ready and ServerReady have the
--              theorems.
--   Clients    the functions of which both src/clients/tcp_client.c and src/clients/udp_client.c have a
--              copy: Args, OsRelease, Utf8, with theorems in ArgsLaws, Hostname and Utf8Laws.
--   TcpClient  src/clients/tcp_client.c: Session has the global variables and the programs on them,
--              Connect the function do_connect, Zip receive_zip, Receive receive_json, Menu
--              handle_user_input, Main authenticate and main. ConnectLaws, ZipLaws, Shrinks and Listens
--              have theorems, the last two over Tame; Update follows an amount from the keyboard to the
--              stock.
--   UdpClient  src/clients/udp_client.c: Setup, Menu, Receive, Main; theorems in Update, Bounds and Ends.
--   Wrapper    lib/myRocksDbWrapper/src/myRocksDbWrapper.cpp: Operations has the methods of the class
--              over the interface Database, with the iterator as a list of Entries; CApi is about the
--              calls of the C library on the same database.
--   Server     src/server, by component:
--     State          the members of the class Server, IdGen of include/utils.hpp, the keys
--     Tables         the lists of clients; Listing has them with their lines of the log, acceptTcpConn and
--                    the descriptors that select watches
--     Messages       sending and receiving, suppliesToJson, convertJsonToCJson, createJsonSummary
--     TcpMessages    checkTcpClientsMsgs, UdpMessages checkUdpClientsMsgs, Images the image requests
--     Notices        checkAlerts, handleUnixConn, sigintHandler, stop
--     Loop           the loop of start with handleTcpConn and handleUdpConn; Start what comes before it
--     Rest           handleRestAlerts and handleRestSupplies
--     Options, Log   main.cpp's command line, logEvent
--   The theorems on the server: TcpUpdate, StockUpdate and UdpUpdate follow an update from its message
--   to the database, RestLaws and RestStatus to the REST interface; Broadcast, Counts, Restart and
--   History follow alerts; Stops and NoticeRound a notice to the end of the loop; Keys and Writes are
--   about the keys. ImagesLaws, OptionsLaws and LogLaws are about Images, Options and Log. Reachable and
--   TablesLaws are about the tables alone, Invariant, over Watched, about the tables in the whole loop.
--   Frame, FrameMessages, FrameTcp, FrameUdp, FrameLists and FrameLoop carry any predicate through every
--   handler, given that it survives the primitive steps, for Invariant, for Stops and for StockKept,
--   which takes from Asks what asks for an update.
--
-- How code is modelled. Code that calls the system is a program on the history of its calls and their
-- results, in Posix: what the system answers is a function of all that came before, so a theorem for
-- all such functions holds however the system behaves. A process of a client works on a record of its
-- global variables, the input still to come, the results of recv still to come and the events so far;
-- a piece of code ends by returning, by continue or return in the menu loop, by exit, at undefined
-- behaviour (crashes), or in a recv that nothing answers. The server's code is a program of Exec: a
-- function on the state whose result is a value, an exception, exit, or undefined behaviour, with
-- catching for a try block; each handler takes what the system gives it, such as the bytes of a recv
-- and the text of the time, as an argument, and a round of select is a list of such steps. Stdio has the
-- standard library's functions on standard input and numbers. cJSON, nlohmann/json, RocksDB and its
-- iterator are interfaces, CJson, Nlohmann, RocksDb and Wrapper: records of the operations that the
-- program calls, with the documented behaviour as laws; CJson/Trees, Nlohmann/Trees, RocksDb/Memory and
-- Wrapper/Memory are instances that meet the laws, for the tests. The edge filter and zlib are fields of
-- Server/State's Libraries.
--
-- The server parses a message with nlohmann/json and converts it to cJSON by printing and parsing it;
-- the theorems that follow an update from a client's keyboard to the stock parse it with cJSON.
--
-- get_os_id of the clients returns a pointer into an array of its own, which encode_utf8 then reads.
-- C gives that read no meaning: what it finds is a parameter, StaleRead, of the functions that come
-- behind it.
--
-- Numbers. A C int is an integer ℤ with the predicate IsInt; the cast of a double beyond its range is a
-- parameter, and the counter of an IdGen wraps around. Shifts and casts to 16 and 32 bits are written
-- out. A temperature is a number of tenths of a degree.
--
-- Fuel. The menu loops, the receive loops and the loop over the lines of /etc/os-release are on fuel:
-- each round of a menu loop takes a byte of the input at least, each round of a receive loop takes a
-- result of recv, and each line takes a byte of the file. The loop over the addresses of getaddrinfo,
-- the loop over the sensors and the loop of receive_zip are recursions on lists; so is the main loop of
-- the server, on the results of select. The endless loop of the sensors' process is run for any number
-- of rounds.
--
-- Not modelled: prompts, menu texts and other output on a terminal; signals that come from outside at
-- any time, but for the failure of select; the loop of the process that announces power failures, which
-- sleeps and calls modelled functions; the HTTP library and what it does with an exception of a handler; the
-- log of the REST process, whose handlers are programs on the database alone; partial sends. The edge
-- filter, cJSON and lib/rocksDbWrapper are copies of other projects. Memory is taken to be there; leaks
-- are not modelled.
pub mod Prelude
pub mod Exec
pub mod Wrapper
pub mod Nlohmann
pub mod CJson
pub mod RocksDb
pub mod Posix
pub mod Stdio
pub mod Supplies
pub mod Alerts
pub mod Sockets
pub mod Clients
pub mod TcpClient
pub mod Emergency
pub mod UdpClient
pub mod Server
pub mod Tests
