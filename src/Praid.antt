-- ===== src/Praid.antt =====
-- grage-praid: the process that keeps several disks (PPDs) as mirrors of one another and serves
-- the file system (PFS) from them.
pub mod Jobs
pub mod State
pub mod Balancer
pub mod Entrypoint
pub mod Thread
pub mod Invariant
mod Tests
