-- ===== src/Sound.antt =====
-- The invariant of a client's session between two commands, and the proofs that every command of
-- cmdhandler.c and connection.c keeps it.
mod Defs
pub mod Commands
pub mod Channel
pub mod Rounds
pub mod Files
pub mod Uploads
pub mod Listing
pub mod Loop
pub mod Reached
pub use Defs.*
