-- ===== src/Udp.antt =====
-- The UDP messages of include/mumble/Message.hpp, their packing in src/Pack.cpp, and the sorting of
-- packets in src/Peer.cpp.
pub mod Messages
pub mod Pack
pub mod Dispatch
mod Tests
