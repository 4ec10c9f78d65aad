-- ===== src/Pfs.antt =====
-- grage-pfs: the file system process.
pub mod Pool
pub mod Volume
pub mod Cache
pub mod Fat
pub mod Block
pub mod Dates
pub mod LongName
pub mod ShortName
pub mod Load
pub mod Seek
pub mod Mknod
pub mod Read
pub mod Write
pub mod Files
pub mod Truncate
pub mod Unlink
pub mod Directory
pub mod Open
pub mod Mkdir
pub mod Move
pub mod Paths
pub mod Fuse
mod Tests
