-- ===== src/Bonbon.antt =====
-- MP4, the chat server that pairs users by their filter functions.
pub mod Protocol
pub mod Child
pub mod Json
pub mod Server
