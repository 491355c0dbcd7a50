-- ===== src/Server.antt =====
-- The server daemon, server/.
pub mod Cache
pub mod Commands
pub mod Decimal
pub mod Hash
pub mod Mocd
pub mod Parse
pub mod Queue
pub mod Reply
pub mod Tcp
pub mod Timers
