-- ===== src/Client.antt =====
-- The client library, client/.
pub mod Answer
pub mod Loop
pub mod Packet
pub mod Push
pub mod Request
pub mod Servers
pub mod Trigger
