-- ===== src/Lib.antt =====
-- grage: three processes that keep one file system on several disks.
--
-- The file system process (grage-pfs) turns file calls into requests for sectors. PRAID (grage-praid)
-- takes those requests, queues every PUT at all disks and every GET at the least loaded one, and
-- passes a new disk the sectors of an old one. A disk process (grage-ppd) plans its requests in a
-- queue ordered by the distance from its head, and serves them from a mapped file. The processes
-- exchange messages of one type (grage-nipc), and keep their state in linked lists (grage-commons).
--
-- Prelude, Prelude/Tests, Prelude/Lists, Splice: shared names, comparisons, `do` for optional
-- results, list lemmas, and bytes that are written over a part of others.
-- Commons/LinkedList: grage-commons/app/src/misc/linux-commons-list.c. A chain of nodes is the list
-- of their data; add_node, remove_node, contains_node, get_node_by_criteria, remove_list and the
-- iterator are the functions commons_list_* and commons_iterator_*. Link, Order and Stable are about
-- adding a node, Remove about removing nodes.
-- Commons/Queue: grage-commons/app/src/misc/linux-commons-queue.c; Fifo, Put.
-- Commons/Strings: linux-commons-strings.c and commons_list_tokenize.
-- Nipc/Message, Nipc/Facade: grage-nipc/app/includes/nipc-messaging.h and the message builder.
-- Nipc/Wire: sending and receiving a message as bytes, with the loops of
-- grage-commons/app/src/misc/linux-commons-socket.c; what `send` and `recv` return is a parameter.
-- Praid/Jobs: grage-praid/app/src/core/praid-queue.c. Praid/State: praid-state.c and
-- praid-ppd-synchronizer.c, with the storages on a heap, since the list and two threads share them.
-- Praid/Balancer: praid-balancer.c. Praid/Entrypoint: grage-praid/app/src/services. Praid/Thread: the
-- rounds of the sender and of the listener of a disk, praid-ppd-thread.c; Drain is about the loop of
-- the sender. Praid/Invariant: what every interleaving of those steps keeps.
-- Ppd/Geometry, Ppd/Strategy, Ppd/Jobs, Ppd/Queues: grage-ppd/app/src/core/ppd-utils.c,
-- grage-ppd/app/src/planifier and the requests of grage-ppd/app/src/services. Ppd/Persistence:
-- ppd-persistence.c. Ppd/Sync: ppd-sync.c and ppd-praid-entrypoint.c.
-- Pfs/Pool: grage-pfs/app/src/core/pfs-connection-pool.c, the connections that the threads of the
-- file system share. Pfs/Volume, Pfs/Load: the sector and cluster numbers of pfs-fat-utils.c, and the
-- volume of a mount. Pfs/Cache: pfs-cache.c and the cached requests of pfs-endpoint.c, with the flush
-- of pfs-fat32.c; Lookup, Coherent, Overwrite, Requests, Writes and Flush are about what the file
-- system sees. Pfs/Fat: the chains of clusters, pfs-fat-utils.c and pfs-fat32.c, over the cached
-- sectors; Entry, Chain, Unlink and Allocate. Pfs/Block: blocks of eight sectors and the cache of a
-- file, pfs-file-cache.c. Pfs/Seek, Pfs/Dates, Pfs/LongName, Pfs/ShortName: offsets in a file and the
-- fields of directory entries.
-- The calls of pfs-fat32.c, with what they share in Pfs/Files: Pfs/Mknod, a new file; Pfs/Mkdir, a
-- new directory; Pfs/Read with Content and Whole; Pfs/Write with Place; Pfs/Truncate with Tail;
-- Pfs/Unlink with Removed, Empty and Renamed, removing and renaming; Pfs/Move with Split, moving a
-- file to another directory; Pfs/Directory with Empty and Entries, the entries of a directory;
-- Pfs/Open with Found and Created, a file by its path. Pfs/Paths: a path is cut at its last slash.
-- Pfs/Fuse: pfs-fuse.c, the calls of FUSE, which hold a call of each of those modules; Reads.
-- Replication: the three processes of the copy of a disk.
--
-- Integers are natural numbers; a field of w bits is cut with `% 2 ^ w` where it is written or where
-- it can wrap. A record that a function leaves uninitialised is an argument. A write behind the end
-- of an array or a block is `none`. A name that is written to a long entry has characters of one
-- byte. A mutex makes the code under it one step, and the rounds of the threads are steps that come
-- in any order. A list's loop is a recursion on the chain. Reading a file for a copy has fuel, one
-- more than the bytes of the file, and each read but the last takes 512 of them. The loops along a
-- chain of clusters have fuel, and one more than the clusters behind the first is enough. The search
-- for a name has fuel, one for each entry that it passes. What the file system sees of a sector is
-- the cached content, or else the device's.
--
-- Not modelled: the count of free clusters; the list of open files, which is only added to; releasing
-- a file, which gives memory back; the conversion between UTF-8 and UTF-16 of the ICU library, which
-- is a parameter; the wait for a connection of a file system with fewer than eight of them; the
-- consoles, the configuration, printing and logging, opening connections and mapping files, and the
-- starts of the processes. A send of PRAID or of a disk is a message appended to what was sent: a
-- `send` that fails or is cut short there is outside the model. The answer of a disk to its console
-- is a time in floating point and is left out.
pub mod Prelude
pub mod Commons
pub mod Splice
pub mod Nipc
pub mod Praid
pub mod Ppd
pub mod Replication
pub mod Pfs
