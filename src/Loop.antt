-- ===== src/Loop.antt =====
-- main.cpp, the event loop of `main`: the completions that the kernel reports.
pub mod Invariant
pub mod Stall
pub mod Numbers
use p4fuse.Base.{
  ℕ, zero, suc, ◌+◌, ◌-◌, ◌^◌, ℤ, pos, negsuc, Bool, true, false, ◌&&◌, List, [], ◌∷◌, ◌++◌, length,
  drop, min, add64, sub64, to_u64, is_negative, ltb, leb, ◌==◌, if◌then◌else◌, ptr, ◌≡◌, ◌<◌, All,
}
use p4fuse.Ring.{Bytes, Iovec, queue_read}
use p4fuse.Daemon.{Host, Daemon, Message, Outcome}
use p4fuse.Daemon.Runs.{IsHost}
use p4fuse.Daemon.Commands.{process_commands}

-- The state of the loop: the globals, `queue_next`, and the reads that the kernel has not
-- completed, each with the pieces of the ring that it may fill.
pub record Loop : Type 0 where
  pub daemon : Daemon
  pub queue_next : Bool
  pub reads : List (List Iovec)

-- The ring behind a read of `bytes` into the pieces, one after the other.
abbrev pub scatter : Bytes → List Iovec → List ℕ → Bytes
scatter buf [] bytes = buf
scatter buf (v ∷ vs) bytes =
    scatter
      (λ i.
        if leb v.base i && ltb i (v.base + min v.len (length bytes))
        then ptr bytes (i - v.base)
        else buf i)
      vs (drop v.len bytes)

-- How the handling of a completion ends: the loop goes on, or the process does not.
pub data Turn : Type 0 where
  goes_on : Loop → Turn
  ends : Outcome → Turn

-- What `process_commands` returned, as `case 1` takes it.
unfoldable pub after_commands : Loop → Outcome → Turn
after_commands l (Outcome.next d) = goes_on (record l { daemon = d })
after_commands l (Outcome.wait d) = goes_on (record l { daemon = d })
after_commands l (Outcome.full d) = goes_on (record l { daemon = d; queue_next = true })
after_commands l o = ends o

-- `case 1`: a read of result `res` is complete, which put `bytes` into the ring.
unfoldable pub read_done : (ℕ → Host) → ℕ → List Iovec → ℤ → List ℕ → Loop → Turn
read_done hosts fuel iov res bytes l =
    if is_negative res
    then ends Outcome.exit
    else (let d = record (l.daemon) {
      read_buf = scatter l.daemon.read_buf iov bytes;
      head = add64 l.daemon.head (to_u64 res);
    } in
        if l.queue_next
        then goes_on (record l { daemon = d })
        else after_commands (record l { daemon = d; reads = queue_read d.cur d.head ∷ l.reads })
            (process_commands hosts fuel d))

-- `case 2`: a write is complete, and `flight` are the writes that are not.
unfoldable pub write_done : List Message → Loop → Loop
write_done flight l =
    let num_rqs = sub64 l.daemon.num_rqs 1 in
    let done = num_rqs == 0 in
    record l {
      daemon = record (l.daemon) {
        num_rqs = num_rqs;
        cur_sz = if done then 0 else l.daemon.cur_sz;
        flight = flight;
      };
      queue_next = if done then false else l.queue_next;
    }

-- A step of the loop. The kernel may complete any of the reads and writes that it has, and a read
-- brings bytes.
pub data Step : Loop → Loop → Type 0 where
  on_read :
      (hosts : ℕ → Host) (fuel : ℕ) (before : List (List Iovec)) (iov : List Iovec)
      (after : List (List Iovec)) (bytes : List ℕ) (l l' : Loop)
      → ((n : ℕ) → IsHost (hosts n))
      → All (λ b. b < 256) bytes
      → l.reads ≡ before ++ (iov ∷ after)
      → read_done hosts fuel iov (pos (length bytes)) bytes (record l { reads = before ++ after })
        ≡ goes_on l'
      → Step l l'
  on_write :
      (before : List Message) (m : Message) (after : List Message) (l l' : Loop)
      → l.daemon.flight ≡ before ++ (m ∷ after)
      → l' ≡ write_done (before ++ after) l
      → Step l l'

-- The states that the loop comes to.
pub data Reach (l : Loop) : Loop → Type 0 where
  here : Reach l l
  later : {m n : Loop} → Reach l m → Step m n → Reach l n
