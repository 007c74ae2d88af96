-- ===== src/Daemon/Commands.antt =====
-- main.cpp, `process_commands`: the loop over the requests in the ring.
use p4fuse.Base.{ℕ, zero, suc, Option, some, add64, ltb, if◌then◌else◌}
use p4fuse.Ring.{copyin_wrap}
use p4fuse.Wire.Opcode.{Opcode, of_value}
use p4fuse.Wire.Request.{InHeader, decode_in_header}
use p4fuse.Daemon.State.{
  Host, Daemon, Outcome, next, wait, full, exit, fault, diverged, in_header_size,
}
use p4fuse.Daemon.Init.{do_init}
use p4fuse.Daemon.Files.{
  do_getattr, do_nosys, do_lseek, do_flush, do_access, do_statfs, do_release, do_read, do_ignore,
}
use p4fuse.Daemon.Open.{do_readlink, do_open}
use p4fuse.Daemon.Dirs.{do_readdir, do_lookup}

-- `switch(hdr.opcode)`; the default case ends the process.
unfoldable pub dispatch : Host → Daemon → InHeader → Option Opcode → Outcome
dispatch host d hdr (some Opcode.init) = do_init host d hdr
dispatch host d hdr (some Opcode.getattr) = do_getattr d hdr
dispatch host d hdr (some Opcode.getxattr) = do_nosys d hdr
dispatch host d hdr (some Opcode.listxattr) = do_nosys d hdr
dispatch host d hdr (some Opcode.ioctl) = do_nosys d hdr
dispatch host d hdr (some Opcode.opendir) = do_nosys d hdr
dispatch host d hdr (some Opcode.lseek) = do_lseek host d hdr
dispatch host d hdr (some Opcode.flush) = do_flush host d hdr
dispatch host d hdr (some Opcode.access) = do_access d hdr
dispatch host d hdr (some Opcode.statfs) = do_statfs d hdr
dispatch host d hdr (some Opcode.readlink) = do_readlink host d hdr
dispatch host d hdr (some Opcode.fuse_open) = do_open host d hdr
dispatch host d hdr (some Opcode.release) = do_release d hdr
dispatch host d hdr (some Opcode.readdir) = do_readdir host d hdr
dispatch host d hdr (some Opcode.lookup) = do_lookup host d hdr
dispatch host d hdr (some Opcode.read) = do_read host d hdr
dispatch host d hdr (some Opcode.interrupt) = do_ignore d hdr
dispatch host d hdr (some Opcode.forget) = do_ignore d hdr
dispatch host d hdr (some Opcode.batch_forget) = do_ignore d hdr
dispatch host d hdr _ = exit

-- The header of the request at `cur`.
unfoldable pub header_at : Daemon → InHeader
header_at d = decode_in_header (copyin_wrap d.read_buf in_header_size d.cur)

-- One turn of `while(1)`: nothing is done until the request is there as a whole.
unfoldable pub turn : Host → Daemon → Outcome
turn host d =
    if ltb d.head (add64 d.cur in_header_size)
    then wait d
    else (let hdr = header_at d in
        if ltb d.head (add64 d.cur hdr.len)
        then wait d
        else dispatch host d hdr (of_value hdr.opcode))

-- `process_commands()`. What the outside answers may differ from turn to turn. The fuel counts
-- turns; `diverged` is also the end of the fuel.
unfoldable pub process_commands : (ℕ → Host) → ℕ → Daemon → Outcome
process_commands hosts zero d = diverged
process_commands hosts (suc fuel) d = elim (turn (hosts fuel) d) [
  | next d' ↦ process_commands hosts fuel d'
  | wait d' ↦ wait d'
  | full d' ↦ full d'
  | exit ↦ exit
  | fault ↦ fault
  | diverged ↦ diverged
]
