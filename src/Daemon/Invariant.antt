-- ===== src/Daemon/Invariant.antt =====
-- The daemon's invariant, and that `process_commands` keeps it.
use p4fuse.Base.{
  ℕ, zero, suc, ◌+◌, ◌*◌, ◌<◌, ◌≤◌, ◌≡◌, inl, inr, refl, arith, Option, none, some, List, [], ◌∷◌,
  length, add64, ltb, Bool-cases,
}
use p4fuse.Buffer.{buf_sz}
use p4fuse.Wire.Opcode.{Opcode, of_value}
use p4fuse.Wire.Request.{InHeader}
use p4fuse.Inode.Bounds.{IsSmall}
use p4fuse.Daemon.State.{
  Host, Daemon, Message, Outcome, next, wait, full, exit, fault, diverged, in_header_size,
  out_header_size,
}
use p4fuse.Daemon.Answer.{Grows, Replied, Answers}
use p4fuse.Daemon.Cases.{
  do_init-Answers, do_getattr-Answers, do_nosys-Answers, do_lseek-Answers, do_flush-Answers,
  do_access-Answers, do_statfs-Answers, do_release-Answers, do_read-Answers,
}
use p4fuse.Daemon.Runs.{IsHost, do_open-Answers, do_readlink-Answers}
use p4fuse.Daemon.Listing.{do_readdir-Answers, do_lookup-Answers}
use p4fuse.Daemon.Files.{do_ignore}
use p4fuse.Daemon.Commands.{dispatch, header_at, turn, process_commands}

-- The headers of the writes stand apart below `top`, the newest one on top.
abbrev pub Apart : ℕ → List Message → Type 0
Apart top [] = Unit
Apart top (m ∷ ms) = (m.at + out_header_size ≤ top) × Apart (m.at) ms

pub record IsDaemon (d : Daemon) : Type 0 where
  pub room : d.cur_sz ≤ buf_sz
  pub small : IsSmall d.table
  pub bytes : (i : ℕ) → d.read_buf i < 256
  -- `num_rqs` counts the writes that are not complete
  pub count : d.num_rqs ≡ length d.flight
  -- their headers do not overlap
  pub apart : Apart d.cur_sz d.flight

pub Apart-≤ : {a b : ℕ} (ms : List Message) → a ≤ b → Apart a ms → Apart b ms
Apart-≤ [] h k = tt
Apart-≤ (m ∷ ms) h k = (omega (arith, h, k.0), k.1)

-- So there are no more than fit the buffer.
pub Apart-length : (top : ℕ) (ms : List Message) → Apart top ms → length ms * 16 ≤ top
Apart-length top [] h = omega arith
Apart-length top (m ∷ ms) h = omega (arith, h.0, Apart-length m.at ms h.1)

Grows-IsDaemon : {d d' : Daemon} → IsDaemon d → Grows d d' → IsDaemon d'
Grows-IsDaemon {d} {d'} v g = record {
  room = g.room;
  small = g.small v.small;
  bytes = rw g.read_buf v.bytes;
  count = rw (g.num_rqs, g.flight) v.count;
  apart = rw g.flight (Apart-≤ d.flight g.above v.apart);
}

Replied-IsDaemon : {d d' : Daemon} {hdr : InHeader} → IsDaemon d → Replied d hdr d' → IsDaemon d'
Replied-IsDaemon {d} {d'} v r = record {
  room = r.room;
  small = r.small v.small;
  bytes = rw r.read_buf v.bytes;
  count =
      rw (r.num_rqs, r.flight)
        (omega (arith, v.count, v.room, Apart-length d.cur_sz d.flight v.apart));
  apart = rw r.flight (r.inside, Apart-≤ d.flight r.above v.apart);
}

-- A turn ends in a daemon of the invariant, or the process ends.
abbrev pub IsOutcome : Outcome → Type 0
IsOutcome (next d) = IsDaemon d
IsOutcome (wait d) = IsDaemon d
IsOutcome (full d) = IsDaemon d
IsOutcome exit = Unit
IsOutcome fault = Unit
IsOutcome diverged = Unit

Answers-IsOutcome :
    (d : Daemon) (hdr : InHeader) (o : Outcome) → IsDaemon d → Answers d hdr o → IsOutcome o
Answers-IsOutcome d hdr (next e) v a = Replied-IsDaemon v a
Answers-IsOutcome d hdr (wait e) v a = absurd a
Answers-IsOutcome d hdr (full e) v a = Grows-IsDaemon v a
Answers-IsOutcome d hdr exit v a = tt
Answers-IsOutcome d hdr fault v a = tt
Answers-IsOutcome d hdr diverged v a = tt

-- What each opcode asks for: a reply, no reply, or the end of the process.
abbrev pub Handles : Daemon → InHeader → Option Opcode → Outcome → Type 0
Handles d hdr (some Opcode.init) o = Answers d hdr o
Handles d hdr (some Opcode.getattr) o = Answers d hdr o
Handles d hdr (some Opcode.getxattr) o = Answers d hdr o
Handles d hdr (some Opcode.listxattr) o = Answers d hdr o
Handles d hdr (some Opcode.ioctl) o = Answers d hdr o
Handles d hdr (some Opcode.opendir) o = Answers d hdr o
Handles d hdr (some Opcode.lseek) o = Answers d hdr o
Handles d hdr (some Opcode.flush) o = Answers d hdr o
Handles d hdr (some Opcode.access) o = Answers d hdr o
Handles d hdr (some Opcode.statfs) o = Answers d hdr o
Handles d hdr (some Opcode.readlink) o = Answers d hdr o
Handles d hdr (some Opcode.fuse_open) o = Answers d hdr o
Handles d hdr (some Opcode.release) o = Answers d hdr o
Handles d hdr (some Opcode.readdir) o = Answers d hdr o
Handles d hdr (some Opcode.lookup) o = Answers d hdr o
Handles d hdr (some Opcode.read) o = Answers d hdr o
Handles d hdr (some Opcode.interrupt) o = o ≡ next (record d { cur = add64 d.cur hdr.len })
Handles d hdr (some Opcode.forget) o = o ≡ next (record d { cur = add64 d.cur hdr.len })
Handles d hdr (some Opcode.batch_forget) o = o ≡ next (record d { cur = add64 d.cur hdr.len })
Handles d hdr _ o = o ≡ exit

-- On an invariant state, each of the sixteen opcodes that the program serves is answered by one
-- reply, or stops with the request kept, in a fault or in an endless loop; FUSE_INTERRUPT,
-- FUSE_FORGET and FUSE_BATCH_FORGET are passed over without a reply; any other opcode ends the
-- process.
pub dispatch-Handles :
    (host : Host) (d : Daemon) (hdr : InHeader) (o : Option Opcode)
    → IsHost host
    → IsDaemon d
    → Handles d hdr o (dispatch host d hdr o)
unfolding dispatch do_ignore
dispatch-Handles host d hdr (some Opcode.lookup) k v = do_lookup-Answers d hdr v.room v.small host k
dispatch-Handles host d hdr (some Opcode.forget) k v = refl
dispatch-Handles host d hdr (some Opcode.getattr) k v = do_getattr-Answers d hdr v.room
dispatch-Handles host d hdr (some Opcode.setattr) k v = refl
dispatch-Handles host d hdr (some Opcode.readlink) k v = do_readlink-Answers host k d hdr v.room
dispatch-Handles host d hdr (some Opcode.symlink) k v = refl
dispatch-Handles host d hdr (some Opcode.mknod) k v = refl
dispatch-Handles host d hdr (some Opcode.mkdir) k v = refl
dispatch-Handles host d hdr (some Opcode.unlink) k v = refl
dispatch-Handles host d hdr (some Opcode.rmdir) k v = refl
dispatch-Handles host d hdr (some Opcode.rename) k v = refl
dispatch-Handles host d hdr (some Opcode.link) k v = refl
dispatch-Handles host d hdr (some Opcode.fuse_open) k v = do_open-Answers host k d hdr v.room
dispatch-Handles host d hdr (some Opcode.read) k v = do_read-Answers d hdr v.room host v.bytes
dispatch-Handles host d hdr (some Opcode.write) k v = refl
dispatch-Handles host d hdr (some Opcode.statfs) k v = do_statfs-Answers d hdr v.room
dispatch-Handles host d hdr (some Opcode.release) k v = do_release-Answers d hdr v.room
dispatch-Handles host d hdr (some Opcode.fsync) k v = refl
dispatch-Handles host d hdr (some Opcode.setxattr) k v = refl
dispatch-Handles host d hdr (some Opcode.getxattr) k v = do_nosys-Answers d hdr v.room
dispatch-Handles host d hdr (some Opcode.listxattr) k v = do_nosys-Answers d hdr v.room
dispatch-Handles host d hdr (some Opcode.removexattr) k v = refl
dispatch-Handles host d hdr (some Opcode.flush) k v = do_flush-Answers d hdr v.room host
dispatch-Handles host d hdr (some Opcode.init) k v = do_init-Answers d hdr v.room host
dispatch-Handles host d hdr (some Opcode.opendir) k v = do_nosys-Answers d hdr v.room
dispatch-Handles host d hdr (some Opcode.readdir) k v =
    do_readdir-Answers d hdr v.room v.small host k
dispatch-Handles host d hdr (some Opcode.releasedir) k v = refl
dispatch-Handles host d hdr (some Opcode.fsyncdir) k v = refl
dispatch-Handles host d hdr (some Opcode.getlk) k v = refl
dispatch-Handles host d hdr (some Opcode.setlk) k v = refl
dispatch-Handles host d hdr (some Opcode.setlkw) k v = refl
dispatch-Handles host d hdr (some Opcode.access) k v = do_access-Answers d hdr v.room
dispatch-Handles host d hdr (some Opcode.create) k v = refl
dispatch-Handles host d hdr (some Opcode.interrupt) k v = refl
dispatch-Handles host d hdr (some Opcode.bmap) k v = refl
dispatch-Handles host d hdr (some Opcode.destroy) k v = refl
dispatch-Handles host d hdr (some Opcode.ioctl) k v = do_nosys-Answers d hdr v.room
dispatch-Handles host d hdr (some Opcode.poll) k v = refl
dispatch-Handles host d hdr (some Opcode.notify_reply) k v = refl
dispatch-Handles host d hdr (some Opcode.batch_forget) k v = refl
dispatch-Handles host d hdr (some Opcode.fallocate) k v = refl
dispatch-Handles host d hdr (some Opcode.readdirplus) k v = refl
dispatch-Handles host d hdr (some Opcode.rename2) k v = refl
dispatch-Handles host d hdr (some Opcode.lseek) k v = do_lseek-Answers d hdr v.room host
dispatch-Handles host d hdr (some Opcode.copy_file_range) k v = refl
dispatch-Handles host d hdr (some Opcode.setupmapping) k v = refl
dispatch-Handles host d hdr (some Opcode.removemapping) k v = refl
dispatch-Handles host d hdr (some Opcode.syncfs) k v = refl
dispatch-Handles host d hdr (some Opcode.tmpfile) k v = refl
dispatch-Handles host d hdr (some Opcode.cuse_init) k v = refl
dispatch-Handles host d hdr (some Opcode.cuse_init_bswap_reserved) k v = refl
dispatch-Handles host d hdr (some Opcode.init_bswap_reserved) k v = refl
dispatch-Handles host d hdr none k v = refl

module _ (d : Daemon) (hdr : InHeader) (v : IsDaemon d) where
  passed : {o : Outcome} → o ≡ next (record d { cur = add64 d.cur hdr.len }) → IsOutcome o
  passed e =
      rw e (record {
        room = v.room;
        small = v.small;
        bytes = v.bytes;
        count = v.count;
        apart = v.apart;
      })

  exited : {o : Outcome} → o ≡ exit → IsOutcome o
  exited e = rw e tt

  Handles-IsOutcome : (o : Option Opcode) (r : Outcome) → Handles d hdr o r → IsOutcome r
  Handles-IsOutcome (some Opcode.lookup) r h = Answers-IsOutcome d hdr r v h
  Handles-IsOutcome (some Opcode.forget) r h = passed h
  Handles-IsOutcome (some Opcode.getattr) r h = Answers-IsOutcome d hdr r v h
  Handles-IsOutcome (some Opcode.setattr) r h = exited h
  Handles-IsOutcome (some Opcode.readlink) r h = Answers-IsOutcome d hdr r v h
  Handles-IsOutcome (some Opcode.symlink) r h = exited h
  Handles-IsOutcome (some Opcode.mknod) r h = exited h
  Handles-IsOutcome (some Opcode.mkdir) r h = exited h
  Handles-IsOutcome (some Opcode.unlink) r h = exited h
  Handles-IsOutcome (some Opcode.rmdir) r h = exited h
  Handles-IsOutcome (some Opcode.rename) r h = exited h
  Handles-IsOutcome (some Opcode.link) r h = exited h
  Handles-IsOutcome (some Opcode.fuse_open) r h = Answers-IsOutcome d hdr r v h
  Handles-IsOutcome (some Opcode.read) r h = Answers-IsOutcome d hdr r v h
  Handles-IsOutcome (some Opcode.write) r h = exited h
  Handles-IsOutcome (some Opcode.statfs) r h = Answers-IsOutcome d hdr r v h
  Handles-IsOutcome (some Opcode.release) r h = Answers-IsOutcome d hdr r v h
  Handles-IsOutcome (some Opcode.fsync) r h = exited h
  Handles-IsOutcome (some Opcode.setxattr) r h = exited h
  Handles-IsOutcome (some Opcode.getxattr) r h = Answers-IsOutcome d hdr r v h
  Handles-IsOutcome (some Opcode.listxattr) r h = Answers-IsOutcome d hdr r v h
  Handles-IsOutcome (some Opcode.removexattr) r h = exited h
  Handles-IsOutcome (some Opcode.flush) r h = Answers-IsOutcome d hdr r v h
  Handles-IsOutcome (some Opcode.init) r h = Answers-IsOutcome d hdr r v h
  Handles-IsOutcome (some Opcode.opendir) r h = Answers-IsOutcome d hdr r v h
  Handles-IsOutcome (some Opcode.readdir) r h = Answers-IsOutcome d hdr r v h
  Handles-IsOutcome (some Opcode.releasedir) r h = exited h
  Handles-IsOutcome (some Opcode.fsyncdir) r h = exited h
  Handles-IsOutcome (some Opcode.getlk) r h = exited h
  Handles-IsOutcome (some Opcode.setlk) r h = exited h
  Handles-IsOutcome (some Opcode.setlkw) r h = exited h
  Handles-IsOutcome (some Opcode.access) r h = Answers-IsOutcome d hdr r v h
  Handles-IsOutcome (some Opcode.create) r h = exited h
  Handles-IsOutcome (some Opcode.interrupt) r h = passed h
  Handles-IsOutcome (some Opcode.bmap) r h = exited h
  Handles-IsOutcome (some Opcode.destroy) r h = exited h
  Handles-IsOutcome (some Opcode.ioctl) r h = Answers-IsOutcome d hdr r v h
  Handles-IsOutcome (some Opcode.poll) r h = exited h
  Handles-IsOutcome (some Opcode.notify_reply) r h = exited h
  Handles-IsOutcome (some Opcode.batch_forget) r h = passed h
  Handles-IsOutcome (some Opcode.fallocate) r h = exited h
  Handles-IsOutcome (some Opcode.readdirplus) r h = exited h
  Handles-IsOutcome (some Opcode.rename2) r h = exited h
  Handles-IsOutcome (some Opcode.lseek) r h = Answers-IsOutcome d hdr r v h
  Handles-IsOutcome (some Opcode.copy_file_range) r h = exited h
  Handles-IsOutcome (some Opcode.setupmapping) r h = exited h
  Handles-IsOutcome (some Opcode.removemapping) r h = exited h
  Handles-IsOutcome (some Opcode.syncfs) r h = exited h
  Handles-IsOutcome (some Opcode.tmpfile) r h = exited h
  Handles-IsOutcome (some Opcode.cuse_init) r h = exited h
  Handles-IsOutcome (some Opcode.cuse_init_bswap_reserved) r h = exited h
  Handles-IsOutcome (some Opcode.init_bswap_reserved) r h = exited h
  Handles-IsOutcome none r h = exited h

-- A turn keeps the invariant.
turn-IsOutcome : (host : Host) (d : Daemon) → IsHost host → IsDaemon d → IsOutcome (turn host d)
unfolding turn
turn-IsOutcome host d k v = elim (Bool-cases (ltb d.head (add64 d.cur in_header_size))) [
  | inl e ↦ rw e v
  | inr e ↦ rw e (elim (Bool-cases (ltb d.head (add64 d.cur (header_at d).len))) [
    | inl e' ↦ rw e' v
    | inr e' ↦ rw e' (
        Handles-IsOutcome d (header_at d) v (of_value (header_at d).opcode) _
          (dispatch-Handles host d (header_at d) (of_value (header_at d).opcode) k v))
  ])
]

-- `process_commands` keeps the invariant, whatever the outside answers in each turn: wherever it
-- returns, `cur_sz` is inside the reply buffer, every stored name length fits 8 bits, `num_rqs`
-- counts the writes in flight, and their headers stand apart below `cur_sz`. It assumes that the
-- client library hands out texts shorter than 2 ^ 31.
pub process_commands-IsOutcome :
    (hosts : ℕ → Host) (fuel : ℕ) (d : Daemon)
    → ((n : ℕ) → IsHost (hosts n))
    → IsDaemon d
    → IsOutcome (process_commands hosts fuel d)
unfolding process_commands
process_commands-IsOutcome hosts zero d k v = tt
process_commands-IsOutcome hosts (suc fuel) d k v =
    go (turn (hosts fuel) d) (turn-IsOutcome (hosts fuel) d (k fuel) v)
      (λ d1. process_commands-IsOutcome hosts fuel d1 k)
  where
    go :
        (o : Outcome)
        → IsOutcome o
        → ((d1 : Daemon) → IsDaemon d1 → IsOutcome (process_commands hosts fuel d1))
        → IsOutcome (elim o [
          | next d' ↦ process_commands hosts fuel d'
          | wait d' ↦ wait d'
          | full d' ↦ full d'
          | exit ↦ exit
          | fault ↦ fault
          | diverged ↦ diverged
        ])
    go (next d1) w more = more d1 w
    go (wait d1) w more = w
    go (full d1) w more = w
    go exit w more = tt
    go fault w more = tt
    go diverged w more = tt
