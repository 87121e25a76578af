-- ===== src/Lib.antt =====
-- Morfeusz is an emulated World of Warcraft server: realmd lets clients log in, keeps the list of
-- realms and hands each client the address of a proxy, and proxyd speaks to the clients in the
-- game. This library models realmd, the core of proxyd, and the database layer under both.
--
-- Endian is common/Util.h (ByteConverter, EndianConvert): an object is its bytes in memory, and
-- the machine's byte order an argument. ByteBuffer and Packet are common/ByteBuffer.h: the buffer
-- as its bytes and two positions, with `none` for a failed ASSERT, its containers (Containers)
-- and packed numbers (PackGuid), and the headers of ClientPkt and ServerPkt. TbcCrypto is
-- proxyd/tbc/Proxy_Crypto.cpp, the cipher over the headers.
--
-- RealmService is realmd/Realm_Service.cpp with what realmd/Realm_EC_Communicator.cpp does to it:
-- the realms, the proxies that announce themselves, the realms for which proxies are asked again,
-- and get_proxy_for_realm. std::map and std::multimap are lists in the order of their keys.
--
-- Srp is the arithmetic of the logon in realmd/Realm_Socket.cpp; the big numbers and hashes are
-- OpenSSL's, an argument with laws where a theorem needs them. RealmSocket is the connection: its
-- state, the packets (Packets), the handlers and callbacks (Handlers), handle_output (Output), and
-- the events with the observers of realmd/Realm_Database.h (Dispatch). What a socket asks of the
-- database and of the reactor is recorded in order, as is the order of the queue.
--
-- Database is database/Database.h and Database.cpp: the operations with the values of their
-- parameters, execute, the transactions, the worker, and the pool with its queue (Pool), over the
-- interface of a driver (database/PreparedStatement.h), which MySqlStatement,
-- database/MySQL/MySQLPreparedStatement.cpp, implements; MySqlResultSet is the getters of
-- database/MySQL/MySQLPreparedResultSet.cpp, and SqliteStatement is
-- database/SQLite/SQLitePreparedStatement.cpp with SqliteResultSet for its rows; MySqlConnection
-- and SqliteConnection are the connections (database/MySQL/MySQLConnection.cpp,
-- database/SQLite/SQLiteConnection.cpp). The server, its transactions and the client libraries
-- are arguments with laws. RealmDatabase is realmd/Realm_Database.cpp: the statements with their
-- texts, and every request. ProxyDatabase is proxyd/Proxy_Database.cpp in the same way, with the
-- observers (Observers), and ObjectMgr is game/ObjectMgr.h, the table that one of them fills.
--
-- ProxySocket is proxyd/Proxy_Socket.cpp: the queue of packets, and the reading (Input) on what
-- recv returns. ProxySession is the handlers of proxyd/tbc/Proxy_Handlers.cpp: the authentication
-- against the account that the database gives, the character list, and the creation of a
-- character (Creation) with game/Player.cpp, the tables of Dbc, and the numbers and places of
-- ObjectMgr. ProxyService counts the connections and announces the load
-- (proxyd/Proxy_Service.cpp, proxyd/Proxyd_EC_Communicator.cpp). Dbc is common/dbc: the files of
-- the client's data, read field by field, and the tables of DBC_Store (Store). Text is the
-- splitting, the hexadecimal forms and the checks of names of common/Util.h. Base holds the
-- helpers, and Tests runs the models on concrete inputs.
--
-- Loops are recursions on the lists they walk. Only the reading of a text runs on fuel, one more
-- than the size of the buffer, and read_string_lem shows that it is enough.
--
-- Positions and lengths in a buffer are numbers: where their sum wraps around size_t an ASSERT
-- passes that the model takes to fail, and the access past the vector that follows is taken for
-- that failure.
--
-- Not modelled: threads and locks, reference counts, logging, CORBA and ACE themselves (what a
-- queue gives a worker is an argument), the statements of the drivers that are not prepared, the
-- opening of DBC files (their contents are arguments), the configuration file, and the start-up
-- of the process. The commit, the rollback and the mode of SqliteConnection do nothing to the
-- library; the interface that the transactions use is not built from them. MTRand.h is a copy of
-- another project's library.
mod Base
pub mod Endian
pub mod ByteBuffer
pub mod Database
pub mod MySqlStatement
pub mod ObjectMgr
pub mod MySqlResultSet
pub mod MySqlConnection
pub mod SqliteStatement
pub mod SqliteConnection
pub mod SqliteResultSet
pub mod RealmDatabase
pub mod TbcCrypto
pub mod Packet
pub mod RealmService
pub mod Srp
pub mod RealmSocket
pub mod ProxySocket
pub mod ProxyDatabase
pub mod Dbc
pub mod ProxySession
pub mod ProxyService
pub mod Text
pub mod Tests
