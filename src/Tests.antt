-- ===== src/Tests.antt =====
-- The theorems at concrete inputs, and runs of the models.
pub mod Checks
pub mod Clusters
pub mod Commands
pub mod Files
pub mod Parts
pub mod Protocol
pub mod Stores
pub mod Tables
pub mod Web
pub mod Starts
