-- ===== src/Older/Open.antt =====
-- diff.cpp, FUSE_OPEN: a file that cannot be opened is taken for a symbolic link, whose text is the
-- next path to open.
use p4fuse.Base.{
  ℕ, zero, suc, ◌+◌, ◌-◌, ◌*◌, ℤ, pos, negsuc, Option, none, some, List, length, take, u64, add32,
  to_u64, is_negative, is_zero, ◌==◌, if◌then◌else◌,
}
use p4fuse.Wire.Request.{InHeader}
use p4fuse.Inode.{entry, set_entry}
use p4fuse.Inode.Path.{build_path}
use p4fuse.Daemon.{Host, Command, Daemon, Outcome, Body, reply, prologue}
use p4fuse.Daemon.{full, fault, diverged, out_header_size, place, with_chunk, session, with_session}
use p4fuse.Daemon.Open.{mark_listed, local_path, fopen_nonseekable}
use p4fuse.Older.Client.{older_run_outputs}

-- `p4c.Run(command, &p4u)`
abbrev pub older_run : Host → Command → Daemon → Option Daemon
older_run host command d = elim (older_run_outputs (host.run command) (session d)) [
  | none ↦ none
  | some s ↦ some (with_session d s)
]

-- `if(!table->entries[hdr.nodeid].bList) { … p4c.Run("sync", &p4u); }`; the kind of the object `p4u`
-- stays the one of the last listing.
unfoldable pub older_sync : Host → Daemon → ℕ → List ℕ → Option Daemon
older_sync host d node path =
    if (entry d.table node).b_list
    then some d
    else older_run host (Command.sync path) (mark_listed d node)

-- How the inner loop, on `readlink`, ends: with the text of the link, without room, or with an
-- error of `readlink`.
pub data LinkText : Type 0 where
  filled : List ℕ → ℕ → Daemon → LinkText
  no_room : Daemon → LinkText
  no_link : Daemon → LinkText
  no_end : LinkText

-- `while((mad = readlink(path, buf, msz)) != msz) { … msz <<= 1; }`: the chunk is not the buffer
-- that the next `readlink` fills.
unfoldable pub text_loop : Host → List ℕ → ℕ → ℕ → Daemon → LinkText
text_loop host path zero msz d = LinkText.no_end
text_loop host path (suc fuel) msz d =
    let (mad, text) = host.read_link path msz in
    let placed = place d msz 1 in
    let again = λ (d' : Daemon). text_loop host path fuel (u64 (msz * 2)) d' in
    if to_u64 mad == msz then LinkText.filled text msz d else elim placed [
      | none ↦ LinkText.no_room d
      | some (at, d') ↦ if is_negative mad then LinkText.no_link d' else again d'
    ]

-- How the whole loop ends: with an open file, or with an outcome of the request.
pub data Opened : Type 0 where
  file : ℤ → Daemon → Opened
  stops : Outcome → Opened

-- `while(files < 0) { … }`, with the reply of -ENOENT, which is -2. The fuel counts the rounds.
unfoldable pub older_open_loop : Host → InHeader → ℕ → List ℕ → ℕ → ℕ → ℤ → Daemon → Opened
older_open_loop host hdr outh path zero msz files d = Opened.stops diverged
older_open_loop host hdr outh path (suc fuel) msz files d =
    let again = λ (text : List ℕ) (msz' : ℕ) (d' : Daemon).
      older_open_loop host hdr outh path fuel msz' (host.open_file text) d' in
    if is_negative files
    then elim (text_loop host path 64 msz d) [
      | LinkText.filled text msz' d' ↦ again text msz' d'
      | LinkText.no_room d' ↦ Opened.stops (full d')
      | LinkText.no_link d' ↦ Opened.stops (reply d' hdr outh out_header_size (negsuc 1) Body.empty)
      | LinkText.no_end ↦ Opened.stops diverged
    ]
    else Opened.file files d

-- `if(table->entries[hdr.nodeid].opened_file == 0) { … }`. A NULL buffer is -2 in the loop only.
unfoldable pub older_open_file : Host → InHeader → ℕ → List ℕ → Daemon → Opened
older_open_file host hdr outh path d =
    if is_zero (entry d.table hdr.nodeid).opened_file
    then (let files = host.open_file path in
        elim (place d 128 1) [
          | none ↦ if is_negative files then Opened.stops (full d) else Opened.file files d
          | some (buf, d') ↦ older_open_loop host hdr outh path 64 128 files d'
        ])
    else Opened.file (entry d.table hdr.nodeid).opened_file d

-- The end of FUSE_OPEN: the descriptor is stored, and the reference counted.
unfoldable pub older_opened : InHeader → ℕ → Opened → Outcome
older_opened hdr at (Opened.stops o) = o
older_opened hdr at (Opened.file files d) =
    reply
      (record d {
        table = set_entry d.table hdr.nodeid (record (entry d.table hdr.nodeid) {
          opened_file = files;
          refcnt = add32 (entry d.table hdr.nodeid).refcnt 1;
        });
      })
      hdr at (out_header_size + 16) (pos 0)
      (Body.opened (record { fh = hdr.nodeid; open_flags = fopen_nonseekable; padding = 0 }))

-- `case FUSE_OPEN`
unfoldable pub older_open : Host → Daemon → InHeader → Outcome
older_open host d hdr = with_chunk d (prologue d 16) λ at d1.
    elim (build_path d1.table hdr.nodeid) [
      | none ↦ diverged
      | some bytes ↦
          (let path = take (length bytes - 1) bytes in
            elim (older_sync host d1 hdr.nodeid path) [
              | none ↦ fault
              | some d2 ↦ older_opened hdr at (older_open_file host hdr at (local_path path) d2)
            ])
    ]
