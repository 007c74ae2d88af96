-- ===== src/Older/Files.antt =====
-- diff.cpp: FUSE_INIT, FUSE_GETATTR, FUSE_RELEASE, and the requests that it does not serve.
use p4fuse.Base.{ℕ, ◌+◌, pos, bit_and, bit_or, ◌∷◌, sub32, ◌==◌, if◌then◌else◌}
use p4fuse.Wire.Request.{InHeader, decode_init_in, decode_getattr_in, decode_release_in}
use p4fuse.Wire.Reply.{Attr, zero_attr}
use p4fuse.Inode.{Entry, entry, set_entry}
use p4fuse.Daemon.{Host, Daemon, Outcome, Body, reply, command_bytes, prologue}
use p4fuse.Daemon.{out_header_size, with_chunk}
use p4fuse.Daemon.Init.{
  negotiate, fuse_async_read, fuse_parallel_dirops, fuse_explicit_inval_data, fuse_handle_killpriv,
  fuse_async_dio, fuse_ioctl_dir, fuse_atomic_o_trunc, fuse_splice_read, fuse_posix_locks,
  fuse_flock_locks, fuse_max_pages, fuse_big_writes, fuse_no_opendir_support, fuse_no_open_support,
}
use p4fuse.Daemon.Files.{entry_mode}

-- `flagsout`, before it is cut to what the kernel offers: main.cpp adds FUSE_CACHE_SYMLINKS.
abbrev pub older_flags : ℕ
older_flags = bit_or fuse_async_read (
    bit_or fuse_parallel_dirops (
      bit_or fuse_explicit_inval_data (
        bit_or fuse_handle_killpriv (
          bit_or fuse_async_dio (
            bit_or fuse_ioctl_dir (
              bit_or fuse_atomic_o_trunc (
                bit_or fuse_splice_read (
                  bit_or fuse_posix_locks (
                    bit_or fuse_flock_locks (
                      bit_or fuse_max_pages (
                        bit_or fuse_big_writes
                          (bit_or fuse_no_opendir_support fuse_no_open_support))))))))))))

-- `case FUSE_INIT`
unfoldable pub older_init : Host → Daemon → InHeader → Outcome
older_init host d hdr =
    let init_in = decode_init_in (command_bytes d 64) in
    with_chunk d (prologue d 64) λ at d'.
      reply d' hdr at (out_header_size + 64) (pos 0)
        (Body.init (negotiate older_flags host.stale init_in))

-- The attributes of FUSE_GETATTR and FUSE_LOOKUP: a symbolic link looks like a file.
unfoldable pub older_attr : Entry → ℕ → Attr
older_attr ent n = record zero_attr {
  ino = n;
  nlink = 2;
  size = if ent.b_dir then 0 else ent.size;
  mode = entry_mode ent.b_dir;
}

-- `case FUSE_GETATTR`
unfoldable pub older_getattr : Daemon → InHeader → Outcome
older_getattr d hdr =
    let attr_in = decode_getattr_in (command_bytes d 16) in
    with_chunk d (prologue d 104) λ at d'.
      (let nodeid = if bit_and attr_in.getattr_flags 1 == 0 then hdr.nodeid else attr_in.fh in
        reply d' hdr at (out_header_size + 104) (pos 0) (
          Body.attr (record {
            attr_valid = 0;
            attr_valid_nsec = 0;
            dummy = 0;
            attr = older_attr (entry d'.table nodeid) nodeid;
          })))

-- The entry behind `ent->refcnt--`, and closed by the last reference, whether it is open or not.
unfoldable pub older_release_entry : Entry → Entry
older_release_entry ent = record ent {
  refcnt = sub32 ent.refcnt 1;
  opened_file = if sub32 ent.refcnt 1 == 0 then pos 0 else ent.opened_file;
}

-- `case FUSE_RELEASE`
unfoldable pub older_release : Daemon → InHeader → Outcome
older_release d hdr =
    let release_in = decode_release_in (command_bytes d 24) in
    with_chunk d (prologue d 1) λ at d'.
      (let ent = entry d'.table release_in.fh in
        reply
          (record d' {
            table = set_entry d'.table release_in.fh (older_release_entry ent);
            closed = if sub32 ent.refcnt 1 == 0 then ent.opened_file ∷ d'.closed else d'.closed;
          })
          hdr at out_header_size (pos 0) Body.empty)
