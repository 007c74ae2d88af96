-- ===== src/Wire/Request.antt =====
-- fuse_kernel.h: the structs that main.cpp copies out of `read_buf`, as decoders of their bytes,
-- and the layout that the kernel sends.
use p4fuse.Base.{ℕ, List, [], ◌∷◌}
use p4fuse.Wire.Layout.{Fields, value_at}

-- `struct fuse_in_header`
pub record InHeader : Type 0 where
  pub len : ℕ
  pub opcode : ℕ
  pub unique : ℕ
  pub nodeid : ℕ
  pub uid : ℕ
  pub gid : ℕ
  pub pid : ℕ
  pub total_extlen : ℕ
  pub padding : ℕ

abbrev pub in_header_fields : InHeader → Fields
in_header_fields h =
    (4, h.len)
    ∷ (4, h.opcode)
    ∷ (8, h.unique)
    ∷ (8, h.nodeid)
    ∷ (4, h.uid)
    ∷ (4, h.gid)
    ∷ (4, h.pid)
    ∷ (2, h.total_extlen)
    ∷ (2, h.padding)
    ∷ []

unfoldable pub decode_in_header : List ℕ → InHeader
decode_in_header bytes = record {
  len = value_at 0 4 bytes;
  opcode = value_at 4 4 bytes;
  unique = value_at 8 8 bytes;
  nodeid = value_at 16 8 bytes;
  uid = value_at 24 4 bytes;
  gid = value_at 28 4 bytes;
  pid = value_at 32 4 bytes;
  total_extlen = value_at 36 2 bytes;
  padding = value_at 38 2 bytes;
}

-- `struct fuse_init_in`, whose `unused` words nothing reads.
pub record InitIn : Type 0 where
  pub major : ℕ
  pub minor : ℕ
  pub max_readahead : ℕ
  pub flags : ℕ
  pub flags2 : ℕ

abbrev pub init_in_fields : InitIn → Fields
init_in_fields r =
    (4, r.major)
    ∷ (4, r.minor)
    ∷ (4, r.max_readahead)
    ∷ (4, r.flags)
    ∷ (4, r.flags2)
    ∷ (4, 0)
    ∷ (4, 0)
    ∷ (4, 0)
    ∷ (4, 0)
    ∷ (4, 0)
    ∷ (4, 0)
    ∷ (4, 0)
    ∷ (4, 0)
    ∷ (4, 0)
    ∷ (4, 0)
    ∷ (4, 0)
    ∷ []

unfoldable pub decode_init_in : List ℕ → InitIn
decode_init_in bytes = record {
  major = value_at 0 4 bytes;
  minor = value_at 4 4 bytes;
  max_readahead = value_at 8 4 bytes;
  flags = value_at 12 4 bytes;
  flags2 = value_at 16 4 bytes;
}

-- `struct fuse_getattr_in`
pub record GetattrIn : Type 0 where
  pub getattr_flags : ℕ
  pub dummy : ℕ
  pub fh : ℕ

abbrev pub getattr_in_fields : GetattrIn → Fields
getattr_in_fields r = (4, r.getattr_flags) ∷ (4, r.dummy) ∷ (8, r.fh) ∷ []

unfoldable pub decode_getattr_in : List ℕ → GetattrIn
decode_getattr_in bytes = record {
  getattr_flags = value_at 0 4 bytes;
  dummy = value_at 4 4 bytes;
  fh = value_at 8 8 bytes;
}

-- `struct fuse_release_in`
pub record ReleaseIn : Type 0 where
  pub fh : ℕ
  pub flags : ℕ
  pub release_flags : ℕ
  pub lock_owner : ℕ

abbrev pub release_in_fields : ReleaseIn → Fields
release_in_fields r = (8, r.fh) ∷ (4, r.flags) ∷ (4, r.release_flags) ∷ (8, r.lock_owner) ∷ []

unfoldable pub decode_release_in : List ℕ → ReleaseIn
decode_release_in bytes = record {
  fh = value_at 0 8 bytes;
  flags = value_at 8 4 bytes;
  release_flags = value_at 12 4 bytes;
  lock_owner = value_at 16 8 bytes;
}

-- `struct fuse_flush_in`
pub record FlushIn : Type 0 where
  pub fh : ℕ
  pub unused : ℕ
  pub padding : ℕ
  pub lock_owner : ℕ

abbrev pub flush_in_fields : FlushIn → Fields
flush_in_fields r = (8, r.fh) ∷ (4, r.unused) ∷ (4, r.padding) ∷ (8, r.lock_owner) ∷ []

unfoldable pub decode_flush_in : List ℕ → FlushIn
decode_flush_in bytes = record {
  fh = value_at 0 8 bytes;
  unused = value_at 8 4 bytes;
  padding = value_at 12 4 bytes;
  lock_owner = value_at 16 8 bytes;
}

-- `struct fuse_read_in`
pub record ReadIn : Type 0 where
  pub fh : ℕ
  pub offset : ℕ
  pub size : ℕ
  pub read_flags : ℕ
  pub lock_owner : ℕ
  pub flags : ℕ
  pub padding : ℕ

abbrev pub read_in_fields : ReadIn → Fields
read_in_fields r =
    (8, r.fh)
    ∷ (8, r.offset)
    ∷ (4, r.size)
    ∷ (4, r.read_flags)
    ∷ (8, r.lock_owner)
    ∷ (4, r.flags)
    ∷ (4, r.padding)
    ∷ []

unfoldable pub decode_read_in : List ℕ → ReadIn
decode_read_in bytes = record {
  fh = value_at 0 8 bytes;
  offset = value_at 8 8 bytes;
  size = value_at 16 4 bytes;
  read_flags = value_at 20 4 bytes;
  lock_owner = value_at 24 8 bytes;
  flags = value_at 32 4 bytes;
  padding = value_at 36 4 bytes;
}

-- `struct fuse_lseek_in`
pub record LseekIn : Type 0 where
  pub fh : ℕ
  pub offset : ℕ
  pub whence : ℕ
  pub padding : ℕ

abbrev pub lseek_in_fields : LseekIn → Fields
lseek_in_fields r = (8, r.fh) ∷ (8, r.offset) ∷ (4, r.whence) ∷ (4, r.padding) ∷ []

unfoldable pub decode_lseek_in : List ℕ → LseekIn
decode_lseek_in bytes = record {
  fh = value_at 0 8 bytes;
  offset = value_at 8 8 bytes;
  whence = value_at 16 4 bytes;
  padding = value_at 20 4 bytes;
}
