-- ===== src/World.antt =====
-- What the program acts on: the state database, and the host, which is known only by its answers
-- to the calls that the program makes (package os, os/exec, net, net/http, database/sql, time).
mod Calls
mod Monad
pub mod Rows
pub mod Clock
pub mod Keeps
pub mod Ends
pub mod Emits
pub mod Total
pub use Calls.*
unfoldable pub use Monad.*
