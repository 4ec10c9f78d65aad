-- ===== src/Nipc.antt =====
-- grage-nipc: the messages that the three processes exchange.
pub mod Message
pub mod Facade
pub mod Wire
pub mod Samples
mod Tests
