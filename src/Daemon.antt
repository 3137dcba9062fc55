-- ===== src/Daemon.antt =====
-- The daemon raled: its command line, and how it starts the library.
pub mod Arguments
pub mod Start
pub mod Started
pub mod Files
pub mod Levels
