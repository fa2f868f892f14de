-- ===== src/Tests.antt =====
-- Concrete runs, and the theorems applied to them.
pub mod Crypto
pub mod Server
pub mod Toy
pub mod Answers
pub mod Wire
pub mod Handshakes
pub mod Forged
pub mod Runs
pub mod Devices
pub mod Kems
pub mod Sorting
pub mod Boards
pub mod Benches
