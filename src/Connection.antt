-- ===== src/Connection.antt =====
-- A TLS connection: `SocketTLS` of src/TLS.cpp as far as its codes go, and `Connection` of
-- src/Connection.cpp, with the callbacks it makes.
pub mod Tls
pub mod State
pub mod Loops
pub mod Keeps
pub mod Lifecycle
pub mod Transfers
pub mod Progress
pub mod Whole
pub mod Arrival
pub mod PackTurns
pub mod Stream
pub mod Unwaited
mod Tests
