-- ===== src/Daemon/Turns.antt =====
-- `process_commands` keeps the inode store: an inode number that was given out for a name stays the
-- number of this name.
use p4fuse.Base.{
  ℕ, zero, suc, ◌+◌, ◌*◌, ◌^◌, ◌<◌, ◌≡◌, refl, inl, inr, arith, false, Option, some, u32, add64,
  ltb, Bool-cases,
}
use p4fuse.Wire.Opcode.{Opcode, of_value}
use p4fuse.Wire.Request.{InHeader}
use p4fuse.Inode.Key.{Key}
use p4fuse.Daemon.State.{
  Host, Daemon, Outcome, next, wait, full, exit, fault, diverged, in_header_size,
}
use p4fuse.Daemon.Commands.{dispatch, header_at, turn, process_commands}
use p4fuse.Daemon.Holds.{
  Holds, HoldsOutcome, do_init-HoldsOutcome, do_getattr-HoldsOutcome, do_nosys-HoldsOutcome,
  do_lseek-HoldsOutcome, do_flush-HoldsOutcome, do_access-HoldsOutcome, do_statfs-HoldsOutcome,
  do_release-HoldsOutcome, do_read-HoldsOutcome, do_ignore-HoldsOutcome,
}
use p4fuse.Daemon.Paths.{do_open-HoldsOutcome, do_readlink-HoldsOutcome}
use p4fuse.Daemon.Listers.{IsServer, Holds-≤, do_readdir-HoldsOutcome, do_lookup-HoldsOutcome}

module _ (k : Key) (m most bound : ℕ) (room : bound + 6 * most < 2 ^ 32) (host : Host)
    (s : IsServer most host) (d : Daemon) (h : Holds k m bound d.table d.user.nameid) where
  later : Holds k m (bound + 6 * most) d.table d.user.nameid
  later = Holds-≤ k m (omega arith) h

  dispatch-HoldsOutcome :
      (hdr : InHeader) (o : Option Opcode)
      → u32 hdr.nodeid < 2 ^ 31
      → HoldsOutcome k m (bound + 6 * most) (dispatch host d hdr o)
  unfolding dispatch
  dispatch-HoldsOutcome hdr (some Opcode.init) low = do_init-HoldsOutcome k m _ d hdr later host
  dispatch-HoldsOutcome hdr (some Opcode.getattr) low = do_getattr-HoldsOutcome k m _ d hdr later
  dispatch-HoldsOutcome hdr (some Opcode.getxattr) low = do_nosys-HoldsOutcome k m _ d hdr later
  dispatch-HoldsOutcome hdr (some Opcode.listxattr) low = do_nosys-HoldsOutcome k m _ d hdr later
  dispatch-HoldsOutcome hdr (some Opcode.ioctl) low = do_nosys-HoldsOutcome k m _ d hdr later
  dispatch-HoldsOutcome hdr (some Opcode.opendir) low = do_nosys-HoldsOutcome k m _ d hdr later
  dispatch-HoldsOutcome hdr (some Opcode.lseek) low = do_lseek-HoldsOutcome k m _ d hdr later host
  dispatch-HoldsOutcome hdr (some Opcode.flush) low = do_flush-HoldsOutcome k m _ d hdr later host
  dispatch-HoldsOutcome hdr (some Opcode.access) low = do_access-HoldsOutcome k m _ d hdr later
  dispatch-HoldsOutcome hdr (some Opcode.statfs) low = do_statfs-HoldsOutcome k m _ d hdr later
  dispatch-HoldsOutcome hdr (some Opcode.readlink) low =
      do_readlink-HoldsOutcome k m _ host d hdr later
  dispatch-HoldsOutcome hdr (some Opcode.fuse_open) low =
      do_open-HoldsOutcome k m _ host d hdr later
  dispatch-HoldsOutcome hdr (some Opcode.release) low = do_release-HoldsOutcome k m _ d hdr later
  dispatch-HoldsOutcome hdr (some Opcode.readdir) low =
      do_readdir-HoldsOutcome k m most bound room host s d hdr low h
  dispatch-HoldsOutcome hdr (some Opcode.lookup) low =
      do_lookup-HoldsOutcome k m most bound room host s d hdr low h
  dispatch-HoldsOutcome hdr (some Opcode.read) low = do_read-HoldsOutcome k m _ d hdr later host
  dispatch-HoldsOutcome hdr (some Opcode.interrupt) low = do_ignore-HoldsOutcome k m _ d hdr later
  dispatch-HoldsOutcome hdr (some Opcode.forget) low = do_ignore-HoldsOutcome k m _ d hdr later
  dispatch-HoldsOutcome hdr (some Opcode.batch_forget) low =
      do_ignore-HoldsOutcome k m _ d hdr later
  dispatch-HoldsOutcome hdr _ low = tt

  turn-HoldsOutcome :
      (ltb d.head (add64 d.cur in_header_size) ≡ false → u32 (header_at d).nodeid < 2 ^ 31)
      → HoldsOutcome k m (bound + 6 * most) (turn host d)
  unfolding turn
  turn-HoldsOutcome low = elim (Bool-cases (ltb d.head (add64 d.cur in_header_size))) [
    | inl e ↦ rw e later
    | inr e ↦ rw e (elim (Bool-cases (ltb d.head (add64 d.cur (header_at d).len))) [
      | inl e' ↦ rw e' later
      | inr e' ↦ rw e' (dispatch-HoldsOutcome (header_at d) (of_value (header_at d).opcode) (low e))
    ])
  ]

-- Every request that the turns handle is about a node below 2 ^ 31.
abbrev pub AreLow : (ℕ → Host) → ℕ → Daemon → Type 0
AreLow hosts zero d = Unit
AreLow hosts (suc fuel) d =
    (ltb d.head (add64 d.cur in_header_size) ≡ false → u32 (header_at d).nodeid < 2 ^ 31)
    × ((d' : Daemon) → turn (hosts fuel) d ≡ next d' → AreLow hosts fuel d')

-- `process_commands` keeps the inode store and every name that it holds, wherever it returns: for
-- servers that answer the commands of a listing with at most `most` lines each, of which each that
-- gives a name reaches the end of the directory's path and has at most 255 bytes behind it, for requests about nodes below 2 ^ 31, and as long as the indices stay below
-- 2 ^ 32.
pub process_commands-HoldsOutcome :
    (hosts : ℕ → Host) (k : Key) (m most fuel : ℕ) (bound : ℕ) (d : Daemon)
    → ((n : ℕ) → IsServer most (hosts n))
    → bound + fuel * (6 * most) < 2 ^ 32
    → AreLow hosts fuel d
    → Holds k m bound d.table d.user.nameid
    → HoldsOutcome k m (bound + fuel * (6 * most)) (process_commands hosts fuel d)
unfolding process_commands
process_commands-HoldsOutcome hosts k m most zero bound d s room low h = tt
process_commands-HoldsOutcome hosts k m most (suc fuel) bound d s room low h =
    go (turn (hosts fuel) d) refl
      (turn-HoldsOutcome k m most bound (omega arith) (hosts fuel) (s fuel) d h low.0)
      (λ d1.
        process_commands-HoldsOutcome hosts k m most fuel (bound + 6 * most) d1 s (omega arith))
  where
    after : ℕ
    after = bound + suc fuel * (6 * most)

    last : {t : _} {nameid : ℕ} → Holds k m (bound + 6 * most) t nameid → Holds k m after t nameid
    last g = Holds-≤ k m (omega arith) g

    same :
        (o : Outcome)
        → HoldsOutcome k m (bound + 6 * most + fuel * (6 * most)) o
        → HoldsOutcome k m after o
    same (next e) g = Holds-≤ k m (omega arith) g
    same (wait e) g = Holds-≤ k m (omega arith) g
    same (full e) g = Holds-≤ k m (omega arith) g
    same exit g = tt
    same fault g = tt
    same diverged g = tt

    go :
        (o : Outcome)
        → turn (hosts fuel) d ≡ o
        → HoldsOutcome k m (bound + 6 * most) o
        → ((d1 : Daemon)
            → AreLow hosts fuel d1
            → Holds k m (bound + 6 * most) d1.table d1.user.nameid
            → HoldsOutcome k m
                (bound + 6 * most + fuel * (6 * most))
                (process_commands hosts fuel d1))
        → HoldsOutcome k m after (elim o [
          | next d' ↦ process_commands hosts fuel d'
          | wait d' ↦ wait d'
          | full d' ↦ full d'
          | exit ↦ exit
          | fault ↦ fault
          | diverged ↦ diverged
        ])
    go (next d1) e g more = same (process_commands hosts fuel d1) (more d1 (low.1 d1 e) g)
    go (wait d1) e g more = last g
    go (full d1) e g more = last g
    go exit e g more = tt
    go fault e g more = tt
    go diverged e g more = tt
