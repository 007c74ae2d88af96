-- ===== src/Daemon/State.antt =====
-- The daemon's globals, the replies that it queues, and what it asks of the system.
use p4fuse.Base.{ℕ, ◌+◌, ℤ, Option, none, some, List, ◌∷◌, add64}
use p4fuse.Buffer.{alloc_chunk}
use p4fuse.Ring.{Bytes, copyin_wrap}
use p4fuse.Wire.Request.{InHeader}
use p4fuse.Wire.Reply.{InitOut, AttrOut, EntryOut, OpenOut, Dirent, DirentPlus}
use p4fuse.Inode.{Table}
use p4fuse.Client.{ClientUser, Output, Session}

-- A Perforce command with the path of its last argument: "dirs", "fstat" with the options -Ol and
-- -T depotFile,fileSize,headType, "sync" with the option -f, and "sizes", which only the
-- older daemon runs.
pub data Command : Type 0 where
  dirs fstat sync sizes : List ℕ → Command

-- What the code outside of the repository answers while one request is handled: the Perforce
-- client library and the system calls. `stale` is what the chunk of an INIT reply held before.
pub record Host : Type 0 where
  pub run : Command → List Output
  pub open_file : List ℕ → ℤ
  pub read_link : List ℕ → ℕ → ℤ × List ℕ
  pub pread : ℤ → ℕ → ℕ → ℤ × List ℕ
  pub lseek : ℤ → ℕ → ℕ → ℤ
  pub fsync : ℤ → ℤ
  pub errno : ℕ
  pub stale : InitOut

-- The part of a reply behind its header. The entries of a directory carry their offsets in
-- `out_buf`, and the reply shows the bytes from `offs` on.
pub data Body : Type 0 where
  empty : Body
  init : InitOut → Body
  attr : AttrOut → Body
  entry : EntryOut → Body
  opened : OpenOut → Body
  position : ℕ → Body
  statfs : Body
  bytes : List ℕ → Body
  -- what `out_buf` holds from an offset on
  buffered : ℕ → Body
  dirents : ℕ → List (ℕ × Dirent) → Body
  dirents_plus : ℕ → List (ℕ × DirentPlus) → Body

-- A write that is queued to the kernel: the offset of its header in `out_buf`, the header, the
-- body.
pub record Message : Type 0 where
  pub at : ℕ
  pub len : ℕ
  pub error : ℤ
  pub unique : ℕ
  pub body : Body

pub record Daemon : Type 0 where
  pub cur : ℕ
  pub head : ℕ
  pub read_buf : Bytes
  pub cur_sz : ℕ
  pub num_rqs : ℕ
  pub table : Table
  pub user : ClientUser
  -- the descriptors that were closed, the last one first
  pub closed : List ℤ
  -- the writes that the kernel has not completed, the last one first
  pub flight : List Message

-- How a turn of the loop in `process_commands` ends: it goes on, it returns -1 or -2, the process
-- exits, it writes through NULL, or a loop of it does not end.
pub data Outcome : Type 0 where
  next wait full : Daemon → Outcome
  exit fault diverged : Outcome

-- `sizeof(fuse_in_header)` and `sizeof(fuse_out_header)`
abbrev pub in_header_size : ℕ
in_header_size = 40

abbrev pub out_header_size : ℕ
out_header_size = 16

-- The bytes behind the header of the request at `cur`.
abbrev pub command_bytes : Daemon → ℕ → List ℕ
command_bytes d size = copyin_wrap d.read_buf size (add64 d.cur in_header_size)

-- A chunk for a reply: its offset, and the daemon behind the allocation.
abbrev pub Placed : Type 0
Placed = Option (ℕ × Daemon)

-- `alloc_chunk` on the daemon's globals.
unfoldable pub place : Daemon → ℕ → ℕ → Placed
place d size align =
    let c = alloc_chunk d.cur_sz size align in
    elim (c.res) [ none ↦ none | some at ↦ some (at, record d { cur_sz = c.cur_sz }) ]

-- FUSE_MESSAGE_PROLOGUE for a body of `size` bytes: `none` where it returns -2.
unfoldable pub prologue : Daemon → ℕ → Placed
prologue d size = place d (out_header_size + size) 1

-- The end of a case: `num_rqs++; send_message(outh); cur += hdr.len;`
abbrev pub reply : Daemon → InHeader → ℕ → ℕ → ℤ → Body → Outcome
reply d hdr at len error body = next (record d {
  cur = add64 d.cur hdr.len;
  num_rqs = add64 d.num_rqs 1;
  flight =
      record { at = at; len = len; error = error; unique = hdr.unique; body = body } ∷ d.flight;
})

-- Runs a case on its chunk, or returns -2.
abbrev pub with_chunk : Daemon → Placed → (ℕ → Daemon → Outcome) → Outcome
with_chunk d placed f = elim placed [ none ↦ full d | some (at, d') ↦ f at d' ]

-- The part of the state that the client's callbacks work on.
abbrev pub session : Daemon → Session
session d = record { user = d.user; table = d.table; cur_sz = d.cur_sz }

abbrev pub with_session : Daemon → Session → Daemon
with_session d s = record d { user = s.user; table = s.table; cur_sz = s.cur_sz }
