-- ===== src/Tcp.antt =====
-- The TCP messages of include/mumble/Message.hpp and their packing in src/Pack.cpp.
pub mod Fields
pub mod Session
pub mod Channels
pub mod Users
pub mod UserLists
pub mod Access
pub mod Server
pub mod Versions
pub mod Externals
pub mod Bans
pub mod Stats
pub mod Kinds
pub mod Cases
pub mod Tunnel
mod Tests
pub mod Pack
