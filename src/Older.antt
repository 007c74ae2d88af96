-- ===== src/Older.antt =====
-- diff.cpp: an older variant of main.cpp that stands beside it. It shares the buffers, the inode
-- store and the protocol, so its state is the one of `Daemon`; the members `name` and `nameid` of
-- the object `p4u`, which this variant does not have, are not used.
pub mod Client
pub mod Files
pub mod Open
pub mod Dirs
pub mod Commands
pub mod Links
pub mod Relist
