-- ===== src/Wire.antt =====
-- fuse_kernel.h: the messages of the FUSE protocol that main.cpp reads and writes.
pub mod Layout
pub mod Opcode
pub mod Request
pub mod Reply
pub use Layout.{le, of_le, value_at, pack, sizeof}
