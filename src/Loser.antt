-- ===== src/Loser.antt =====
-- MP1/main.cpp, a version control program that keeps the MD5 of each file in `.loser_record`: the
-- file list, the record read backwards, the comparison with the last commit, the sub-commands.
pub mod Files
pub mod Record
pub mod Commit
pub mod Compare
pub mod Commands
