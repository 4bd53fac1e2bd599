-- ===== src/Tests.antt =====
-- Concrete inputs for the theorems of the other modules.
pub mod Hunt
pub mod Loser
pub mod Bonbon
pub mod Box
pub mod Counting
