-- ===== src/Daemon.antt =====
-- main.cpp: the FUSE daemon. `process_commands` takes the requests out of the ring one by one, and
-- its cases reply to them.
mod State
pub mod Init
pub mod Files
pub mod Open
pub mod Dirs
pub mod DirsPlus
pub mod Commands
pub mod Answer
pub mod Cases
pub mod Runs
pub mod Listing
pub mod Invariant
pub mod Replies
pub mod Stores
pub mod Listed
pub mod Holds
pub mod Paths
pub mod Sends
pub mod Listers
pub mod Turns
pub mod Lookups
unfoldable pub use State.{command_bytes, prologue, place}
pub use State.{
  Host, Command, Daemon, Message, Body, Outcome, next, wait, full, exit, fault, diverged, Placed,
  in_header_size, out_header_size, reply, with_chunk, session, with_session,
}
