-- ===== src/Daemon/Init.antt =====
-- main.cpp, FUSE_INIT: the version and the flags of the connection.
use p4fuse.Base.{ℕ, ◌+◌, ◌*◌, ◌/◌, ◌^◌, ◌-◌, pos, bit_and, bit_or, u32, ◌==◌, if◌then◌else◌}
use p4fuse.Buffer.{buf_sz}
use p4fuse.Wire.Request.{InHeader, InitIn, decode_init_in}
use p4fuse.Wire.Reply.{InitOut}
use p4fuse.Daemon.State.{
  Host, Daemon, Outcome, Body, out_header_size, command_bytes, prologue, reply, with_chunk,
}

-- The flags of fuse_kernel.h that the reply asks for.
abbrev pub fuse_async_read : ℕ
fuse_async_read = 2 ^ 0

abbrev pub fuse_posix_locks : ℕ
fuse_posix_locks = 2 ^ 1

abbrev pub fuse_atomic_o_trunc : ℕ
fuse_atomic_o_trunc = 2 ^ 3

abbrev pub fuse_export_support : ℕ
fuse_export_support = 2 ^ 4

abbrev pub fuse_big_writes : ℕ
fuse_big_writes = 2 ^ 5

abbrev pub fuse_splice_read : ℕ
fuse_splice_read = 2 ^ 9

abbrev pub fuse_flock_locks : ℕ
fuse_flock_locks = 2 ^ 10

abbrev pub fuse_has_ioctl_dir : ℕ
fuse_has_ioctl_dir = 2 ^ 11

abbrev pub fuse_async_dio : ℕ
fuse_async_dio = 2 ^ 15

abbrev pub fuse_no_open_support : ℕ
fuse_no_open_support = 2 ^ 17

abbrev pub fuse_parallel_dirops : ℕ
fuse_parallel_dirops = 2 ^ 18

abbrev pub fuse_handle_killpriv : ℕ
fuse_handle_killpriv = 2 ^ 19

abbrev pub fuse_max_pages : ℕ
fuse_max_pages = 2 ^ 22

abbrev pub fuse_cache_symlinks : ℕ
fuse_cache_symlinks = 2 ^ 23

abbrev pub fuse_no_opendir_support : ℕ
fuse_no_opendir_support = 2 ^ 24

abbrev pub fuse_explicit_inval_data : ℕ
fuse_explicit_inval_data = 2 ^ 25

abbrev pub fuse_init_ext : ℕ
fuse_init_ext = 2 ^ 30

-- FUSE_IOCTL_DIR, a flag of ioctl requests.
abbrev pub fuse_ioctl_dir : ℕ
fuse_ioctl_dir = 2 ^ 4

-- `flagsout`, before it is cut to what the kernel offers.
abbrev pub wanted_flags : ℕ
wanted_flags = bit_or fuse_async_read (
    bit_or fuse_parallel_dirops (
      bit_or fuse_explicit_inval_data (
        bit_or fuse_handle_killpriv (
          bit_or fuse_async_dio (
            bit_or fuse_ioctl_dir (
              bit_or fuse_atomic_o_trunc (
                bit_or fuse_splice_read (
                  bit_or fuse_posix_locks (
                    bit_or fuse_flock_locks (
                      bit_or fuse_max_pages (
                        bit_or fuse_big_writes (
                          bit_or fuse_no_opendir_support
                            (bit_or fuse_no_open_support fuse_cache_symlinks)))))))))))))

-- `flagsin`: with FUSE_INIT_EXT the second word holds the upper half.
abbrev pub offered_flags : InitIn → ℕ
offered_flags init_in =
    if bit_and init_in.flags fuse_init_ext == 0
    then init_in.flags
    else bit_or init_in.flags (init_in.flags2 * 2 ^ 32)

-- The fields that are written for the flags `wanted`; the others keep what the chunk held before.
unfoldable pub negotiate : ℕ → InitOut → InitIn → InitOut
negotiate wanted stale init_in =
    let flagsin = offered_flags init_in in
    let flagsout = bit_and wanted flagsin in
    record stale {
      major = 7;
      minor = 28;
      max_readahead = init_in.max_readahead;
      flags = u32 flagsout;
      flags2 = if bit_and flagsin fuse_init_ext == 0 then stale.flags2 else u32 (flagsout / 2 ^ 32);
      max_pages = 2 ^ 15;
      max_write = buf_sz / 2 ^ 3;
      time_gran = 1;
      max_background = 2 ^ 16 - 1;
      congestion_threshold = 2 ^ 15;
    }

unfoldable pub init_reply : InitOut → InitIn → InitOut
init_reply = negotiate wanted_flags

-- `case FUSE_INIT`
unfoldable pub do_init : Host → Daemon → InHeader → Outcome
do_init host d hdr =
    let init_in = decode_init_in (command_bytes d 64) in
    with_chunk d (prologue d 64) λ at d'.
      reply d' hdr at (out_header_size + 64) (pos 0) (Body.init (init_reply host.stale init_in))
