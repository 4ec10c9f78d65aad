-- ===== src/Ppd.antt =====
-- grage-ppd: the process that keeps one disk, and the order in which it serves requests.
pub mod Geometry
pub mod Jobs
pub mod Strategy
pub mod Persistence
pub mod Queues
pub mod Sync
mod Tests
