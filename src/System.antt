-- ===== src/System.antt =====
-- What the daemon runs on: the values of the Apache Portable Runtime, the answers of its calls, the
-- session state of sess.h, and runs of the daemon's functions over these.
mod Types
mod Answers
mod Session
mod Monad
mod Calls
pub use Types.*
unfoldable pub use Answers.*
unfoldable pub use Session.*
unfoldable pub use Monad.*
unfoldable pub use Calls.*
