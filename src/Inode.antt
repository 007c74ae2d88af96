-- ===== src/Inode.antt =====
-- inode_store.cpp: the table of inodes, its names and the binary tree over (parent, name).
mod Store
pub mod Compare
pub mod Search
pub mod Arena
pub mod Create
pub mod Path
pub mod Key
pub mod Tree
pub mod Insertion
pub mod SearchTree
pub mod Find
pub mod Relink
pub mod Walk
pub mod Names
pub mod Created
pub mod Labels
pub mod Invariant
pub mod Alike
pub mod Copies
pub mod List
pub mod Bounds
unfoldable pub use Store.{set_node_name}
pub use Store.{Ptr, Entry, Table, copy_bytes, copy_arena, entry, node_name, set_entry}
