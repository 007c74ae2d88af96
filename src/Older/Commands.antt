-- ===== src/Older/Commands.antt =====
-- diff.cpp, `process_commands`: its switch, and its loop over the requests in the ring.
use p4fuse.Base.{ℕ, zero, suc, Option, some, add64, ltb, if◌then◌else◌}
use p4fuse.Wire.Opcode.{Opcode, of_value}
use p4fuse.Wire.Request.{InHeader}
use p4fuse.Wire.Reply.{DirentPlus}
use p4fuse.Daemon.{Host, Daemon, Outcome}
use p4fuse.Daemon.{next, wait, full, exit, fault, diverged, in_header_size}
use p4fuse.Daemon.Files.{do_nosys, do_statfs, do_read, do_ignore}
use p4fuse.Daemon.Commands.{header_at}
use p4fuse.Older.Files.{older_init, older_getattr, older_release}
use p4fuse.Older.Open.{older_open}
use p4fuse.Older.Dirs.{older_readdir, older_readdirplus, older_lookup}

-- `switch(hdr.opcode)`: the cases that main.cpp has unchanged are those of `Daemon`.
unfoldable pub older_dispatch : DirentPlus → Host → Daemon → InHeader → Option Opcode → Outcome
older_dispatch stale host d hdr (some Opcode.init) = older_init host d hdr
older_dispatch stale host d hdr (some Opcode.getattr) = older_getattr d hdr
older_dispatch stale host d hdr (some Opcode.lseek) = do_nosys d hdr
older_dispatch stale host d hdr (some Opcode.access) = do_nosys d hdr
older_dispatch stale host d hdr (some Opcode.getxattr) = do_nosys d hdr
older_dispatch stale host d hdr (some Opcode.flush) = do_nosys d hdr
older_dispatch stale host d hdr (some Opcode.opendir) = do_nosys d hdr
older_dispatch stale host d hdr (some Opcode.statfs) = do_statfs d hdr
older_dispatch stale host d hdr (some Opcode.fuse_open) = older_open host d hdr
older_dispatch stale host d hdr (some Opcode.release) = older_release d hdr
older_dispatch stale host d hdr (some Opcode.readdir) = older_readdir host d hdr
older_dispatch stale host d hdr (some Opcode.readdirplus) = older_readdirplus stale host d hdr
older_dispatch stale host d hdr (some Opcode.lookup) = older_lookup host d hdr
older_dispatch stale host d hdr (some Opcode.read) = do_read host d hdr
older_dispatch stale host d hdr (some Opcode.interrupt) = do_ignore d hdr
older_dispatch stale host d hdr (some Opcode.forget) = do_ignore d hdr
older_dispatch stale host d hdr (some Opcode.batch_forget) = do_ignore d hdr
older_dispatch stale host d hdr _ = exit

-- One turn of `while(1)`.
unfoldable pub older_turn : DirentPlus → Host → Daemon → Outcome
older_turn stale host d =
    if ltb d.head (add64 d.cur in_header_size)
    then wait d
    else (let hdr = header_at d in
        if ltb d.head (add64 d.cur hdr.len)
        then wait d
        else older_dispatch stale host d hdr (of_value hdr.opcode))

-- `process_commands()`, as in `Daemon`.
unfoldable pub older_process_commands : DirentPlus → (ℕ → Host) → ℕ → Daemon → Outcome
older_process_commands stale hosts zero d = diverged
older_process_commands stale hosts (suc fuel) d = elim (older_turn stale (hosts fuel) d) [
  | next d' ↦ older_process_commands stale hosts fuel d'
  | wait d' ↦ wait d'
  | full d' ↦ full d'
  | exit ↦ exit
  | fault ↦ fault
  | diverged ↦ diverged
]
