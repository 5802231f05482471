-- ===== src/Tests.antt =====
-- A concrete runtime, runs of the daemon in it, and the theorems at concrete inputs.
mod Sample
mod Sessions
mod Transfers
mod Channels
mod Listeners
mod Directories
mod Files
mod Stats
mod Plain
mod Starts
