-- ===== src/Daemon/Files.antt =====
-- main.cpp: the cases that answer about one entry, from FUSE_GETATTR to FUSE_READ, and those that
-- only acknowledge.
use p4fuse.Base.{
  ℕ, ◌+◌, ◌-◌, ℤ, pos, negsuc, Bool, ◌&&◌, not, none, some, ◌∷◌, bit_and, bit_or, u32, add64, sub64,
  sub32, to_u64, is_negative, is_zero, ltb, ◌==◌, if◌then◌else◌,
}
use p4fuse.Buffer.{Chunk, alloc_chunk}
use p4fuse.Wire.Request.{
  InHeader, decode_getattr_in, decode_release_in, decode_flush_in, decode_read_in, decode_lseek_in,
}
use p4fuse.Wire.Reply.{Attr, zero_attr}
use p4fuse.Inode.{Entry, entry, set_entry}
use p4fuse.Daemon.State.{
  Host, Daemon, Outcome, next, full, fault, Body, out_header_size, command_bytes, place, prologue,
  reply, with_chunk,
}

abbrev pub s_ifdir : ℕ
s_ifdir = 0o040000

abbrev pub s_ifreg : ℕ
s_ifreg = 0o100000

abbrev pub s_iflnk : ℕ
s_iflnk = 0o120000

-- `-ENOSYS`
abbrev pub enosys : ℤ
enosys = negsuc 37

-- What a failed call left in `errno`, negated.
abbrev pub minus_errno : ℕ → ℤ
minus_errno e = if e == 0 then pos 0 else negsuc (e - 1)

-- `0444`, with `|= ent->bDir ? S_IFDIR : (S_IFREG | 0111)`
abbrev pub entry_mode : Bool → ℕ
entry_mode is_dir = bit_or 0o444 (if is_dir then s_ifdir else bit_or s_ifreg 0o111)

-- The attributes of FUSE_GETATTR.
unfoldable pub getattr_attr : Entry → ℕ → Attr
getattr_attr ent nodeid = record zero_attr {
  ino = nodeid;
  nlink = 2;
  size = if ent.b_dir then 0 else ent.size;
  mode = if ent.b_sym then s_iflnk else entry_mode ent.b_dir;
}

-- `case FUSE_GETATTR`: FUSE_GETATTR_FH is the lowest flag.
unfoldable pub do_getattr : Daemon → InHeader → Outcome
do_getattr d hdr =
    let attr_in = decode_getattr_in (command_bytes d 16) in
    with_chunk d (prologue d 104) λ at d'.
      (let nodeid = if bit_and attr_in.getattr_flags 1 == 0 then hdr.nodeid else attr_in.fh in
        reply d' hdr at (out_header_size + 104) (pos 0) (
          Body.attr (record {
            attr_valid = 0;
            attr_valid_nsec = 0;
            dummy = 0;
            attr = getattr_attr (entry d'.table nodeid) nodeid;
          })))

-- `case FUSE_GETXATTR`, FUSE_LISTXATTR, FUSE_IOCTL and FUSE_OPENDIR
unfoldable pub do_nosys : Daemon → InHeader → Outcome
do_nosys d hdr =
    with_chunk d (place d out_header_size 1)
      λ at d'. reply d' hdr at out_header_size enosys Body.empty

-- `case FUSE_LSEEK`
unfoldable pub do_lseek : Host → Daemon → InHeader → Outcome
do_lseek host d hdr =
    let seek_in = decode_lseek_in (command_bytes d 24) in
    with_chunk d (prologue d 8) λ at d'. reply d' hdr at (out_header_size + 8) (pos 0) (
      Body.position
        (to_u64 (host.lseek (entry d'.table seek_in.fh).opened_file seek_in.offset seek_in.whence)))

-- `case FUSE_FLUSH`
unfoldable pub do_flush : Host → Daemon → InHeader → Outcome
do_flush host d hdr =
    let flush_in = decode_flush_in (command_bytes d 24) in
    with_chunk d (prologue d 1) λ at d'.
      reply d' hdr at out_header_size
        (if is_negative (host.fsync (entry d'.table flush_in.fh).opened_file)
          then minus_errno host.errno
          else pos 0)
        Body.empty

-- `case FUSE_ACCESS`
unfoldable pub do_access : Daemon → InHeader → Outcome
do_access d hdr =
    with_chunk d (prologue d 1) λ at d'. reply d' hdr at out_header_size (pos 0) Body.empty

-- The end of FUSE_STATFS on its two chunks: the second is not tested, so that a reply through
-- NULL is a fault.
unfoldable pub statfs_reply : Daemon → InHeader → Chunk → Chunk → Outcome
statfs_reply d hdr outh arg =
    let d' = record d { cur_sz = arg.cur_sz } in
    elim (outh.res) [
      | none ↦ full d'
      | some at ↦ elim (arg.res) [
        | none ↦ fault
        | some body ↦ reply d' hdr at (out_header_size + 80) (pos 0) Body.statfs
      ]
    ]

-- `case FUSE_STATFS`: both chunks are taken before the first is tested.
unfoldable pub do_statfs : Daemon → InHeader → Outcome
do_statfs d hdr =
    let outh = alloc_chunk d.cur_sz out_header_size 1 in
    statfs_reply d hdr outh (alloc_chunk outh.cur_sz 80 1)

-- `!ent->refcnt && ent->opened_file != 0`, behind `ent->refcnt--`
abbrev pub is_last : Entry → Bool
is_last ent = sub32 ent.refcnt 1 == 0 && not (is_zero ent.opened_file)

-- The entry behind `ent->refcnt--`, and closed by the last reference.
unfoldable pub release_entry : Entry → Entry
release_entry ent = record ent {
  refcnt = sub32 ent.refcnt 1;
  opened_file = if is_last ent then pos 0 else ent.opened_file;
}

-- `case FUSE_RELEASE`
unfoldable pub do_release : Daemon → InHeader → Outcome
do_release d hdr =
    let release_in = decode_release_in (command_bytes d 24) in
    with_chunk d (prologue d 1) λ at d'.
      (let ent = entry d'.table release_in.fh in
        reply
          (record d' {
            table = set_entry d'.table release_in.fh (release_entry ent);
            closed = if is_last ent then ent.opened_file ∷ d'.closed else d'.closed;
          })
          hdr at out_header_size (pos 0) Body.empty)

-- `min(ss, read_in.size)` on signed 64-bit values, as an unsigned one.
abbrev pub min_signed : ℤ → ℕ → ℕ
min_signed (pos ss) size = if ltb ss size then ss else size
min_signed (negsuc n) size = to_u64 (negsuc n)

-- `case FUSE_READ`: the data is to stand right behind the header, in place of the u8.
unfoldable pub do_read : Host → Daemon → InHeader → Outcome
do_read host d hdr =
    let read_in = decode_read_in (command_bytes d 40) in
    with_chunk d (prologue d 1) λ at d1.
      (let d2 = record d1 { cur_sz = sub64 d1.cur_sz 1 } in
        with_chunk d2 (place d2 read_in.size 1) λ buf d3.
          (let (ss, bytes) =
              host.pread (entry d3.table read_in.fh).opened_file read_in.size read_in.offset in
            reply d3 hdr at (u32 (add64 (min_signed ss read_in.size) out_header_size)) (pos 0)
              (Body.bytes bytes)))

-- `case FUSE_INTERRUPT`, FUSE_FORGET and FUSE_BATCH_FORGET: no reply.
unfoldable pub do_ignore : Daemon → InHeader → Outcome
do_ignore d hdr = next (record d { cur = add64 d.cur hdr.len })
