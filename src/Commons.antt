-- ===== src/Commons.antt =====
-- The shared library of grage-commons: its linked list and the queue built on it.
pub mod LinkedList
pub mod Queue
pub mod Strings
mod Tests
