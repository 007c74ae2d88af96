-- ===== src/Wire/Reply.antt =====
-- fuse_kernel.h: the structs that main.cpp writes to `out_buf`, with the layout of their bytes.
use p4fuse.Base.{ℕ, ℤ, pos, negsuc, ◌-◌, ◌^◌, u32, List, [], ◌∷◌}
use p4fuse.Wire.Layout.{Fields}

-- The pattern of an `int32_t`.
abbrev pub of_int32 : ℤ → ℕ
of_int32 (pos n) = u32 n
of_int32 (negsuc n) = 2 ^ 32 - 1 - u32 n

-- `struct fuse_out_header`
pub record OutHeader : Type 0 where
  pub len : ℕ
  pub error : ℤ
  pub unique : ℕ

abbrev pub out_header_fields : OutHeader → Fields
out_header_fields h = (4, h.len) ∷ (4, of_int32 h.error) ∷ (8, h.unique) ∷ []

-- `struct fuse_attr`
pub record Attr : Type 0 where
  pub ino : ℕ
  pub size : ℕ
  pub blocks : ℕ
  pub atime : ℕ
  pub mtime : ℕ
  pub ctime : ℕ
  pub atimensec : ℕ
  pub mtimensec : ℕ
  pub ctimensec : ℕ
  pub mode : ℕ
  pub nlink : ℕ
  pub uid : ℕ
  pub gid : ℕ
  pub rdev : ℕ
  pub blksize : ℕ
  pub flags : ℕ

-- `fuse_attr{}`
abbrev pub zero_attr : Attr
zero_attr = record {
  ino = 0;
  size = 0;
  blocks = 0;
  atime = 0;
  mtime = 0;
  ctime = 0;
  atimensec = 0;
  mtimensec = 0;
  ctimensec = 0;
  mode = 0;
  nlink = 0;
  uid = 0;
  gid = 0;
  rdev = 0;
  blksize = 0;
  flags = 0;
}

abbrev pub attr_fields : Attr → Fields
attr_fields a =
    (8, a.ino)
    ∷ (8, a.size)
    ∷ (8, a.blocks)
    ∷ (8, a.atime)
    ∷ (8, a.mtime)
    ∷ (8, a.ctime)
    ∷ (4, a.atimensec)
    ∷ (4, a.mtimensec)
    ∷ (4, a.ctimensec)
    ∷ (4, a.mode)
    ∷ (4, a.nlink)
    ∷ (4, a.uid)
    ∷ (4, a.gid)
    ∷ (4, a.rdev)
    ∷ (4, a.blksize)
    ∷ (4, a.flags)
    ∷ []

-- `struct fuse_entry_out`
pub record EntryOut : Type 0 where
  pub nodeid : ℕ
  pub generation : ℕ
  pub entry_valid : ℕ
  pub attr_valid : ℕ
  pub entry_valid_nsec : ℕ
  pub attr_valid_nsec : ℕ
  pub attr : Attr

abbrev pub entry_out_fields : EntryOut → Fields
entry_out_fields e =
    (8, e.nodeid)
    ∷ (8, e.generation)
    ∷ (8, e.entry_valid)
    ∷ (8, e.attr_valid)
    ∷ (4, e.entry_valid_nsec)
    ∷ (4, e.attr_valid_nsec)
    ∷ attr_fields e.attr

-- `struct fuse_attr_out`
pub record AttrOut : Type 0 where
  pub attr_valid : ℕ
  pub attr_valid_nsec : ℕ
  pub dummy : ℕ
  pub attr : Attr

abbrev pub attr_out_fields : AttrOut → Fields
attr_out_fields a = (8, a.attr_valid) ∷ (4, a.attr_valid_nsec) ∷ (4, a.dummy) ∷ attr_fields a.attr

-- `struct fuse_open_out`
pub record OpenOut : Type 0 where
  pub fh : ℕ
  pub open_flags : ℕ
  pub padding : ℕ

abbrev pub open_out_fields : OpenOut → Fields
open_out_fields o = (8, o.fh) ∷ (4, o.open_flags) ∷ (4, o.padding) ∷ []

-- `struct fuse_init_out`; `unused` has seven words.
pub record InitOut : Type 0 where
  pub major : ℕ
  pub minor : ℕ
  pub max_readahead : ℕ
  pub flags : ℕ
  pub max_background : ℕ
  pub congestion_threshold : ℕ
  pub max_write : ℕ
  pub time_gran : ℕ
  pub max_pages : ℕ
  pub map_alignment : ℕ
  pub flags2 : ℕ
  pub unused : ℕ → ℕ

abbrev pub init_out_fields : InitOut → Fields
init_out_fields i =
    (4, i.major)
    ∷ (4, i.minor)
    ∷ (4, i.max_readahead)
    ∷ (4, i.flags)
    ∷ (2, i.max_background)
    ∷ (2, i.congestion_threshold)
    ∷ (4, i.max_write)
    ∷ (4, i.time_gran)
    ∷ (2, i.max_pages)
    ∷ (2, i.map_alignment)
    ∷ (4, i.flags2)
    ∷ (4, i.unused 0)
    ∷ (4, i.unused 1)
    ∷ (4, i.unused 2)
    ∷ (4, i.unused 3)
    ∷ (4, i.unused 4)
    ∷ (4, i.unused 5)
    ∷ (4, i.unused 6)
    ∷ []

-- `struct fuse_dirent`; `name` is its flexible array.
pub record Dirent : Type 0 where
  pub ino : ℕ
  pub off : ℕ
  pub namelen : ℕ
  pub kind : ℕ
  pub name : List ℕ

abbrev pub dirent_fields : Dirent → Fields
dirent_fields d = (8, d.ino) ∷ (8, d.off) ∷ (4, d.namelen) ∷ (4, d.kind) ∷ []

-- `struct fuse_direntplus`
pub record DirentPlus : Type 0 where
  pub entry_out : EntryOut
  pub dirent : Dirent
