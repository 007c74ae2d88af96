-- ===== src/Tests/Daemons.antt =====
-- The theorems on the daemon and on its loop, applied to small states.
use p4fuse.Base.{
  ℕ, ◌-◌, ◌^◌, ◌<◌, ◌≡◌, ◌≢◌, inl, inr, refl, ap, arith, pos, negsuc, true, false, some, List, [],
  ◌∷◌, ptr, codes,
}
use p4fuse.Ring.{copyin_wrap, load, queue_read}
use p4fuse.Wire.Opcode.{Opcode}
use p4fuse.Wire.Request.{InHeader}
use p4fuse.Wire.Reply.{InitOut}
use p4fuse.Inode.{entry}
use p4fuse.Inode.Key.{Key, key}
use p4fuse.Inode.Tree.{In, Every, Every-In}
use p4fuse.Client.{CType, ClientUser, info, text, run_outputs}
use p4fuse.Daemon.{Host, Daemon, Message, Body, reply}
use p4fuse.Daemon.Runs.{IsHost}
use p4fuse.Daemon.Files.{release_entry}
use p4fuse.Daemon.Open.{Link, link_loop, mark_listed, sync_file, open_entry}
use p4fuse.Daemon.Dirs.{lookup_attr, is_unlisted, do_lookup}
use p4fuse.Daemon.Commands.{dispatch, process_commands}
use p4fuse.Daemon.Invariant.{
  IsDaemon, IsOutcome, Handles, dispatch-Handles, process_commands-IsOutcome,
}
use p4fuse.Daemon.Lookups.{name_bytes_of, key_of, with_entry_chunk, do_lookup-In, do_lookup_absent}
use p4fuse.Daemon.Replies.{release_entry-open_entry-sync_file, link_loop-ends}
use p4fuse.Loop.{Loop, Reach, here, later, on_write, write_done}
use p4fuse.Loop.Invariant.{Reach-IsDaemon}
use p4fuse.Loop.Stall.{IsStuck, queue_next-IsStuck}
use p4fuse.Tests.Samples.{depot, depot_tree, depot-IsTable, file_entry, link_entry}

abbrev blank : InitOut
blank = record {
  major = 0;
  minor = 0;
  max_readahead = 0;
  flags = 0;
  max_background = 0;
  congestion_threshold = 0;
  max_write = 0;
  time_gran = 0;
  max_pages = 0;
  map_alignment = 0;
  flags2 = 0;
  unused = λ i. 0;
}

-- A host whose server lists one file, and whose disk holds a link of 2 bytes.
abbrev pub host : Host
host = record {
  run = λ c. info 1 (codes "depotFile //depot/a.c") ∷ text (codes "x") ∷ [];
  open_file = λ path. pos 9;
  read_link = λ path n. (pos 2, codes "to");
  pread = λ fd n offs. (pos 0, []);
  lseek = λ fd offs whence. pos 0;
  fsync = λ fd. pos 0;
  errno = 2;
  stale = blank;
}

host-IsHost : IsHost host
host-IsHost c = (tt, (omega arith, tt))

abbrev nobody : ClientUser
nobody = record {
  kind = CType.dirs;
  err = pos 0;
  len = 0;
  id = 0;
  node = 0;
  name = λ i. 0;
  nameid = 0;
}

-- A write of 24 bytes in flight at the start of the buffer.
abbrev sent : Message
sent = record { at = 0; len = 24; error = pos 0; unique = 4; body = Body.empty }

abbrev pub busy : Daemon
busy = record {
  cur = 0;
  head = 0;
  read_buf = λ i. 0;
  cur_sz = 24;
  num_rqs = 1;
  table = depot;
  user = nobody;
  closed = [];
  flight = sent ∷ [];
}

busy-IsDaemon : IsDaemon busy
busy-IsDaemon = record {
  room = omega arith;
  small = λ n. ground arith;
  bytes = λ i. omega arith;
  count = refl;
  apart = (omega arith, tt);
}

abbrev pub header : InHeader
header = record {
  len = 44;
  opcode = 1;
  unique = 8;
  nodeid = 2;
  uid = 0;
  gid = 0;
  pid = 1;
  total_extlen = 0;
  padding = 0;
}

dispatch-Handles_example :
    Handles busy header (some Opcode.release) (dispatch host busy header (some Opcode.release))
dispatch-Handles_example =
    dispatch-Handles host busy header (some Opcode.release) host-IsHost busy-IsDaemon

process_commands-IsOutcome_example :
    IsOutcome (process_commands (λ n. host) 3 (record busy { head = 80 }))
process_commands-IsOutcome_example =
    process_commands-IsOutcome (λ n. host) 3 (record busy { head = 80 }) (λ n. host-IsHost)
      (record {
        room = omega arith;
        small = λ n. ground arith;
        bytes = λ i. omega arith;
        count = refl;
        apart = (omega arith, tt);
      })

abbrev waiting : Loop
waiting = record { daemon = busy; queue_next = true; reads = queue_read 0 0 ∷ [] }

Reach-IsDaemon_example : IsDaemon (write_done [] waiting).daemon
Reach-IsDaemon_example =
    Reach-IsDaemon (later here (on_write [] sent [] waiting (write_done [] waiting) refl refl))
      busy-IsDaemon

queue_next-IsStuck_example : (l : Loop) × Reach waiting l × IsStuck l
queue_next-IsStuck_example =
    queue_next-IsStuck (λ n. host) waiting (queue_read 0 0) sent (1 ∷ 2 ∷ []) (λ n. host-IsHost)
      (omega arith, (omega arith, tt)) refl refl refl

-- The name "a.c" behind a header at the start of the ring.
abbrev asking : Daemon
asking = record busy { read_buf = λ i. ptr (codes "a.c") (i - 40) }

asked : key depot 3 ≡ key_of asking header
unfolding copyin_wrap
asked = refl

do_lookup-In_example :
    do_lookup host asking header
    ≡ reply (with_entry_chunk asking) header 24 144 (pos 0) (
        Body.entry (record {
          nodeid = 3;
          generation = 0;
          entry_valid = 0;
          attr_valid = 0;
          entry_valid_nsec = 0;
          attr_valid_nsec = 0;
          attr = lookup_attr file_entry 3;
        }))
do_lookup-In_example =
    do_lookup-In host asking header depot_tree depot-IsTable (omega arith) (omega arith) 3
      (inr (inr (inr (inr (inl refl))))) (omega arith) asked (λ e. omega (arith, ap (λ k. k.0) e))

-- In the listed directory of the link, entry 4, there is no "a.c".
abbrev elsewhere : InHeader
elsewhere = record header { nodeid = 5 }

entry_numbers : (m : ℕ) → In m depot_tree → m < 2 ^ 32
entry_numbers m = Every-In (λ m. m < 2 ^ 32) depot_tree m (omega arith)

abbrev full_key : Key
full_key = (5, load (ptr (name_bytes_of asking elsewhere)) 0 (elsewhere.len - 41))

not_there : Every (λ m. full_key ≢ key depot m) depot_tree
not_there = (
  λ e. other (omega arith) e,
  tt,
  (
    λ e. other (omega arith) e,
    tt,
    (λ e. other (omega arith) e, tt, (λ e. other (omega arith) e, tt, tt)),
  ),
)
  where
    other : {p : ℕ} {n : List ℕ} → p < 5 → ◌≢◌ {A = Key} full_key (p, n)
    other h e = omega (arith, ap (λ k. k.0) e)

listed : is_unlisted asking 5 ≡ false
unfolding is_unlisted
listed = refl

do_lookup_absent_example :
    do_lookup host asking elsewhere
    ≡ reply (with_entry_chunk asking) elsewhere 24 16 (negsuc 1) Body.empty
do_lookup_absent_example =
    do_lookup_absent host asking elsewhere depot_tree depot-IsTable (omega arith) (omega arith)
      entry_numbers (omega arith) (omega arith)
      (λ m. Every-In (λ m. full_key ≢ key depot m) depot_tree m not_there) listed (omega arith)

link_loop-ends_example : link_loop host (codes "a/depot/ln") 64 128 busy ≢ Link.no_end
link_loop-ends_example = link_loop-ends host (codes "a/depot/ln") busy (omega arith)

-- A server that says nothing, and the daemon behind its sync of the link, entry 4.
abbrev quiet : Host
quiet = record host { run = λ c. [] }

abbrev synced_daemon : Daemon
synced_daemon = record (mark_listed busy 4) { user = record nobody { kind = CType.sync } }

synced : sync_file quiet busy 4 (codes "//depot/ln") ≡ some synced_daemon
unfolding sync_file run_outputs
synced = refl

release_entry-open_entry-sync_file_example :
    release_entry (open_entry quiet (codes "//depot/ln") (entry synced_daemon.table 4))
    ≡ record link_entry { b_list = true }
release_entry-open_entry-sync_file_example =
    release_entry-open_entry-sync_file quiet busy synced_daemon 4 (codes "//depot/ln") synced
      (omega arith) (inl (refl, refl))
