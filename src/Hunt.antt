-- ===== src/Hunt.antt =====
-- MP3, the MD5 treasure hunt: the miner (MP3/client/miner.cpp), the boss (MP3/server/boss.cpp) and
-- what they share: the MD5 context of OpenSSL as an interface, digests in hex, the pipe messages.
pub mod Md5
pub mod Digest
pub mod Protocol
pub mod Miner
pub mod Boss
