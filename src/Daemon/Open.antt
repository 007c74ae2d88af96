-- ===== src/Daemon/Open.antt =====
-- main.cpp: FUSE_READLINK and FUSE_OPEN, which have the server write the file to the local tree
-- first.
use p4fuse.Base.{
  ℕ, zero, suc, ◌+◌, ◌-◌, ◌*◌, ◌^◌, ℤ, pos, true, ◌&&◌, not, Option, none, some, List, ◌∷◌, length,
  take, drop, u32, u64, add32, to_u64, is_negative, is_zero, ◌==◌, if◌then◌else◌,
}
use p4fuse.Wire.Request.{InHeader}
use p4fuse.Inode.{Entry, entry, set_entry}
use p4fuse.Inode.Path.{build_path}
use p4fuse.Client.{CType, run_outputs}
use p4fuse.Daemon.State.{
  Host, Command, Daemon, Outcome, full, fault, diverged, Body, out_header_size, place, prologue,
  reply, with_chunk, session, with_session,
}

-- `table->entries[node].bList = 1`
abbrev pub mark_listed : Daemon → ℕ → Daemon
mark_listed d node = record d {
  table = set_entry d.table node (record (entry d.table node) { b_list = true });
}

-- `if(!table->entries[hdr.nodeid].bList) { … p4c.Run("sync", &p4u); }`
unfoldable pub sync_file : Host → Daemon → ℕ → List ℕ → Option Daemon
sync_file host d node path =
    if (entry d.table node).b_list
    then some d
    else (let d1 = mark_listed d node in
        let d2 = record d1 { user = record (d1.user) { kind = CType.sync } } in
        elim (run_outputs (host.run (Command.sync path)) (session d2)) [
          | none ↦ none
          | some s ↦ some (with_session d2 s)
        ])

-- `path[0] = 'a'`: the local copies stand below "a/".
abbrev pub local_path : List ℕ → List ℕ
local_path path = b'a' ∷ drop 1 path

-- The loop of FUSE_READLINK: it takes a buffer of twice the size as long as the link fills it.
pub data Link : Type 0 where
  -- the result of the last `readlink`, and the text
  read : ℤ → List ℕ → Daemon → Link
  no_room : Daemon → Link
  no_end : Link

unfoldable pub link_loop : Host → List ℕ → ℕ → ℕ → Daemon → Link
link_loop host path zero msz d = Link.no_end
link_loop host path (suc fuel) msz d =
    let (mad, text) = host.read_link path msz in
    let placed = place d msz 1 in
    let again = λ (d' : Daemon). link_loop host path fuel (u64 (msz * 2)) d' in
    if to_u64 mad == msz
    then elim placed [ none ↦ Link.no_room d | some (at, d') ↦ again d' ]
    else Link.read mad text d

-- The body of the message of FUSE_READLINK: it is sent from the header at `at` on, and the text stands
-- at `buf`, which is behind the header unless the server's output of the sync stands there.
abbrev pub link_body : ℕ → ℕ → List ℕ → Body
link_body at buf text =
    if buf == at + out_header_size then Body.bytes text else Body.buffered (at + out_header_size)

-- The end of FUSE_READLINK. The header's chunk is not tested: a reply through NULL is a fault.
unfoldable pub link_reply : InHeader → Option ℕ → ℕ → Link → Outcome
link_reply hdr outh buf Link.no_end = diverged
link_reply hdr outh buf (Link.no_room d) = full d
link_reply hdr outh buf (Link.read mad text d) = elim outh [
  | none ↦ fault
  | some at ↦
      reply d hdr at (u32 (out_header_size + (if is_negative mad then 0 else to_u64 mad)))
        (if is_negative mad then mad else pos 0) (link_body at buf text)
]

-- FUSE_READLINK behind the header's chunk, `outh`.
unfoldable pub readlink_reply : Host → InHeader → Option ℕ → Daemon → Outcome
readlink_reply host hdr outh d1 = elim (build_path d1.table hdr.nodeid) [
  | none ↦ diverged
  | some bytes ↦
      (let path = take (length bytes - 1) bytes in
        elim (sync_file host d1 hdr.nodeid path) [
          | none ↦ fault
          | some d2 ↦
              with_chunk d2 (place d2 128 1)
                λ buf d3. link_reply hdr outh buf (link_loop host (local_path path) 64 128 d3)
        ])
]

-- `case FUSE_READLINK`
unfoldable pub do_readlink : Host → Daemon → InHeader → Outcome
do_readlink host d hdr = elim (place d out_header_size 1) [
  | none ↦ readlink_reply host hdr none d
  | some (at, d') ↦ readlink_reply host hdr (some at) d'
]

-- The entry behind `opened_file = open(…)`, for a file that is not open and no symbolic link, and
-- `refcnt++`.
unfoldable pub open_entry : Host → List ℕ → Entry → Entry
open_entry host path ent = record ent {
  opened_file =
      if is_zero ent.opened_file && not ent.b_sym
      then host.open_file (local_path path)
      else ent.opened_file;
  refcnt = add32 ent.refcnt 1;
}

-- FOPEN_NONSEEKABLE
abbrev pub fopen_nonseekable : ℕ
fopen_nonseekable = 2 ^ 2

-- `case FUSE_OPEN`
unfoldable pub do_open : Host → Daemon → InHeader → Outcome
do_open host d hdr = with_chunk d (prologue d 16) λ at d1. elim (build_path d1.table hdr.nodeid) [
  | none ↦ diverged
  | some bytes ↦
      (let path = take (length bytes - 1) bytes in
        elim (sync_file host d1 hdr.nodeid path) [
          | none ↦ fault
          | some d2 ↦
              reply
                (record d2 {
                  table =
                      set_entry d2.table hdr.nodeid
                        (open_entry host path (entry d2.table hdr.nodeid));
                })
                hdr at (out_header_size + 16) (pos 0)
                (Body.opened
                  (record { fh = hdr.nodeid; open_flags = fopen_nonseekable; padding = 0 }))
        ])
]
