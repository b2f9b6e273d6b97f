-- ===== src/Lib.antt =====
-- EdoyumIMServer: an instant messaging server. Clients send packages over TCP; ClientSession takes
-- them apart and answers, with the sessions of IMServer, the users and groups of UserManager, the
-- messages that MsgCacheManager keeps for users who are offline, and a MySQL database.
--
-- The parts, and where they are modelled:
--
-- * Wire (EdoyumIMServer/BinaryReader.h, BinaryReader.cpp): the codec. `compress` is Compress,
--   `write_data`, `write_string` are WriteData, `read_data`, `read_string` are ReadData. An integer in
--   memory is its little-endian bytes; `m_index` wraps at 2 ^ 32; `fault` is a read past the buffer or
--   a negative length.
-- * Frame (TcpSession::Send of EdoyumIMServer/ClientSession.h and FileServer/TcpSession.cpp, OnRead of
--   ClientSession.cpp and FileServer/FileSession.cpp): packages. Frame/Receive has the loop OnRead,
--   over the network library's input buffer as an interface (Frame/Buffer) and over any handler;
--   both servers are instances, with package sizes of 4 and 8 bytes. Its fuel is one more than the
--   bytes in the buffer, of which each round takes six at least.
-- * Cache (EdoyumIMServer/MsgCacheManager.cpp): the two lists of messages for later.
-- * Users (EdoyumIMServer/UserManager.h, UserManager.cpp): Users/Manager has the operations on the
--   cached users, Users/Load the start from the database, Users/Sql the text of the statements. The
--   database is an interface (DbApi): statements succeed or fail, queries fail or give rows.
-- * Database (EdoyumIMServer/Field.cpp, QueryResult.cpp, mysqltool.cpp, MySqlManager.cpp): what stands
--   behind that interface. Database/Cursor is QueryResult, Database/Tool the connection,
--   Database/Tables and Database/Schema the check of the tables at the start, over the MySQL client
--   library as an interface (Database/Client). Loops over rows take fuel: one round more than there are
--   rows is enough for the loops of UserManager (Database/Loading, Database/Rows).
-- * Server (EdoyumIMServer/IMServer.cpp): the map of sessions, by connection.
-- * Session (EdoyumIMServer/ClientSession.cpp): `process` is Process, and each On...Response is the
--   function of its name: Session/Account, Friend, Group and Chat. They run in a monad on the state of
--   all parts (Session/World), which records what is sent and which connections are closed; `none` is
--   an exception that nothing catches. The JSON library is an interface (Session/Json).
--   Session/Isolation shows what a request leaves alone, handler by handler; Session/Exchange and
--   Session/Relations follow whole requests between users.
-- * Runs (OnConnection and OnRead of both servers): a server as an interface, its callbacks as a step
--   relation, and what holds behind any sequence of them; Session/Runs and Files/Runs are the two
--   servers. An OnRead that ends in an exception has no step behind it.
-- * Files (EdoyumIMServer/FileServer): the file server, a program of its own. Files/Manager is
--   FileManager.cpp, Files/Transfer and Files/Process are FileSession.cpp, Files/Service is
--   FileServer.cpp. The C library is an interface (Files/Api); Files/Storage names what is relied on
--   of the operations on one file. `none` is a NULL or a length that the code does not survive. A
--   stream that the code forgets without closing it stays open in the file system.
-- * Examples (no code of the program): a database, a JSON library and a small server, on which the theorems are run.
--
-- int32_t and uint32_t are their 32 bits, a number below 2 ^ 32; `slt` compares them as signed.
--
-- Not modelled: logging and console output; the mutexes, since one event loop runs the handlers one
-- after the other; the types of database fields; MD5, a public implementation that nothing calls; the
-- start of the programs, which is signals, the daemon and calls of Init, and the test client; and the
-- copies of muduo and jsoncpp, which are other projects. The map m_mapUsers, which nothing fills, is left out with GetUserByID.
pub mod Base
pub mod Wire
pub mod Frame
pub mod Cache
pub mod Users
pub mod Server
pub mod Runs
pub mod Session
pub mod Examples
pub mod Files
pub mod Database
