-- ===== src/Tests.antt =====
-- Concrete runs, and the hypotheses of the theorems at concrete states.
pub mod Server
pub mod Nodes
mod Renames
pub mod Sessions
mod Waiting
mod Storages
mod Races
pub mod Callbacks
pub mod Requests
pub mod Web
mod Pool
mod Workers
mod Startup
