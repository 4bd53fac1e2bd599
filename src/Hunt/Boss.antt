-- ===== src/Hunt/Boss.antt =====
-- MP3/server/boss.h and MP3/server/boss.cpp, a part to a module: the state, the configuration file,
-- the hashing of the mine, the jobs, the treasures, the user's commands, the dumps, the main loop.
pub mod State
pub mod Configure
pub mod Loading
pub mod Jobs
pub mod Treasures
pub mod Commands
pub mod Dumps
pub mod Serve
