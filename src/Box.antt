-- ===== src/Box.antt =====
-- MP2, the file synchronisation, with the hash table that MP2 and MP5 share, and of
-- MP5 the thread pool, the requests the server answers and the splitting of paths.
pub mod Table
pub mod Config
pub mod Protocol
pub mod Posix
pub mod Account
pub mod Server
pub mod Client
pub mod Exchange
pub mod Pool
pub mod Names
pub mod Daemon
pub mod Ports
pub mod Monitor
pub mod Crowd
