-- ===== src/Loop/Numbers.antt =====
-- The event loop keeps the inode store in every order of completions: the kernel's inode numbers stay
-- good.
use mathlib.Core.Path.{subst}
use p4fuse.Base.{
  ℕ, ◌+◌, ◌*◌, ◌^◌, ◌<◌, inl, inr, sym, arith, ℤ, pos, List, ◌++◌, length, Bool-cases, add64,
  is_negative, to_u64,
}
use p4fuse.Ring.{Iovec}
use p4fuse.Inode.Key.{Key}
use p4fuse.Daemon.{Host, Daemon, Outcome}
use p4fuse.Daemon.Holds.{Holds, HoldsOutcome}
use p4fuse.Daemon.Listers.{IsServer, Holds-≤}
use p4fuse.Daemon.Turns.{AreLow, process_commands-HoldsOutcome}
use p4fuse.Loop.{
  Loop, scatter, Turn, goes_on, ends, after_commands, read_done, write_done, Step, on_read,
  on_write, Reach, here, later,
}

-- The daemon with the bytes of a read in its ring.
abbrev pub with_bytes : Daemon → List Iovec → ℤ → List ℕ → Daemon
with_bytes d iov res bytes = record d {
  read_buf = scatter d.read_buf iov bytes;
  head = add64 d.head (to_u64 res);
}

-- The turns that a step may take, and what they ask of the server and of the kernel.
abbrev turns : {l m : Loop} → Step l m → ℕ
turns (on_read hosts fuel before iov after bytes l m k b e r) = fuel
turns (on_write before msg after l m e r) = 0

abbrev IsServed : ℕ → {l m : Loop} → Step l m → Type 0
IsServed most (on_read hosts fuel before iov after bytes l m k b e r) =
    ((n : ℕ) → IsServer most (hosts n))
    × AreLow hosts fuel (with_bytes l.daemon iov (pos (length bytes)) bytes)
IsServed most (on_write before msg after l m e r) = Unit

abbrev pub all_turns : {l m : Loop} → Reach l m → ℕ
all_turns here = 0
all_turns (later r s) = all_turns r + turns s

abbrev pub AreServed : ℕ → {l m : Loop} → Reach l m → Type 0
AreServed most here = Unit
AreServed most (later r s) = AreServed most r × IsServed most s

module _ (k : Key) (n most : ℕ) where
  abbrev HoldsLoop : ℕ → Loop → Type 0
  HoldsLoop bound l = Holds k n bound l.daemon.table l.daemon.user.nameid

  abbrev HoldsTurn : ℕ → Turn → Type 0
  HoldsTurn bound (goes_on l) = HoldsLoop bound l
  HoldsTurn bound (ends o) = Unit

  after_commands-HoldsTurn :
      (bound : ℕ) (l : Loop) (o : Outcome)
      → HoldsOutcome k n bound o
      → HoldsTurn bound (after_commands l o)
  unfolding after_commands
  after_commands-HoldsTurn bound l (Outcome.next d) h = h
  after_commands-HoldsTurn bound l (Outcome.wait d) h = h
  after_commands-HoldsTurn bound l (Outcome.full d) h = h
  after_commands-HoldsTurn bound l Outcome.exit h = tt
  after_commands-HoldsTurn bound l Outcome.fault h = tt
  after_commands-HoldsTurn bound l Outcome.diverged h = tt

  read_done-HoldsTurn :
      (hosts : ℕ → Host) (fuel : ℕ) (iov : List Iovec) (res : ℤ) (bytes : List ℕ) (bound : ℕ)
      (l : Loop)
      → ((i : ℕ) → IsServer most (hosts i))
      → AreLow hosts fuel (with_bytes l.daemon iov res bytes)
      → bound + fuel * (6 * most) < 2 ^ 32
      → HoldsLoop bound l
      → HoldsTurn (bound + fuel * (6 * most)) (read_done hosts fuel iov res bytes l)
  unfolding read_done
  read_done-HoldsTurn hosts fuel iov res bytes bound l s low room h =
      elim (Bool-cases (is_negative res)) [
        | inl e ↦ rw e tt
        | inr e ↦ rw e (elim (Bool-cases l.queue_next) [
          | inl e' ↦ rw e' (Holds-≤ k n (omega arith) h)
          | inr e' ↦ rw e' (
              after_commands-HoldsTurn _ _ _ (
                process_commands-HoldsOutcome hosts k n most fuel bound
                  (with_bytes l.daemon iov res bytes) s room low h))
        ])
      ]

  Step-Holds :
      {l m : Loop} (bound : ℕ) (s : Step l m)
      → IsServed most s
      → bound + turns s * (6 * most) < 2 ^ 32
      → HoldsLoop bound l
      → HoldsLoop (bound + turns s * (6 * most)) m
  unfolding write_done
  Step-Holds bound (on_read hosts fuel before iov after bytes l m k b e r) s room h =
      subst (HoldsTurn (bound + fuel * (6 * most))) r (
        read_done-HoldsTurn hosts fuel iov (pos (length bytes)) bytes bound
          (record l { reads = before ++ after }) s.0 s.1 room h)
  Step-Holds bound (on_write before msg after l m e r) s room h =
      subst (HoldsLoop (bound + 0 * (6 * most))) (sym r) (Holds-≤ k n (omega arith) h)

-- An inode number that was given out stays good, in every state that the loop comes to and in any
-- order of the completions: if the table is an inode store that holds a name below a directory
-- under an index, with at most `bound` indices given out, and a client name of at most 255 bytes,
-- then the table is an inode store that holds the same name under the same index, and at most 6 *
-- `most` indices more are given out for each turn of `process_commands`. This is for servers that
-- answer the commands of a listing with at most `most` lines each, of which each that gives a
-- name reaches the end of the directory's path and has at most 255 bytes behind it, for requests about nodes below 2 ^ 31, and as long as the indices stay below 2 ^ 32.
pub Reach-Holds :
    (k : Key) (n most bound : ℕ) {l m : Loop} (r : Reach l m)
    → AreServed most r
    → bound + all_turns r * (6 * most) < 2 ^ 32
    → Holds k n bound l.daemon.table l.daemon.user.nameid
    → Holds k n (bound + all_turns r * (6 * most)) m.daemon.table m.daemon.user.nameid
Reach-Holds k n most bound here s room h = Holds-≤ k n (omega arith) h
Reach-Holds k n most bound (later r s) served room h = Holds-≤ k n (omega arith) (
    Step-Holds k n most (bound + all_turns r * (6 * most)) s served.1 (omega arith)
      (Reach-Holds k n most bound r served.0 (omega arith) h))
