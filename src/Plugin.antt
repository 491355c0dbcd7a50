-- ===== src/Plugin.antt =====
-- The modules that the server loads, plugin/.
pub mod Bang
pub mod Base
pub mod Chat
pub mod Message
