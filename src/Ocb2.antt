-- ===== src/Ocb2.antt =====
-- The blocks of src/CryptOCB2.cpp.
pub mod Swap
pub mod Blocks
pub mod Loops
pub mod BlockLaws
pub mod Sent
pub mod LoopTrips
pub mod LastBlock
pub mod Crypt
pub mod Padding
pub mod LastTrips
pub mod Altered
pub mod Ends
pub mod CryptTrips
pub mod Unaltered
pub mod Object
pub mod Process
pub mod Stateless
pub mod EcbCipher
mod ProcessTests
mod Tests
