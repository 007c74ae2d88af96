-- ===== src/Daemon/Dirs.antt =====
-- main.cpp: FUSE_READDIR and FUSE_LOOKUP, which list a directory at the server when it is first
-- looked at.
use p4fuse.Base.{
  ℕ, ◌+◌, ◌/◌, ◌^◌, ◌++◌, pos, negsuc, Bool, ◌&&◌, not, Option, none, some, List, [], ◌∷◌, length,
  bit_or, u8, u32, add64, sub64, min, ◌==◌, if◌then◌else◌, ptr, ◌⊎◌, inl, inr,
}
use p4fuse.Buffer.{align_up}
use p4fuse.Ring.{load, copyin_wrap}
use p4fuse.Wire.Request.{InHeader, ReadIn, decode_read_in}
use p4fuse.Wire.Reply.{Attr, zero_attr, Dirent}
use p4fuse.Inode.{Entry, entry, node_name}
use p4fuse.Inode.Path.{build_path}
use p4fuse.Inode.Search.{find_path, find_all_with_parent}
use p4fuse.Client.{CType, run_outputs}
use p4fuse.Daemon.State.{
  Host, Command, Daemon, Outcome, fault, diverged, Body, in_header_size, out_header_size,
  command_bytes, place, prologue, reply, with_chunk, session, with_session,
}
use p4fuse.Daemon.Files.{s_ifdir, s_ifreg, s_iflnk}
use p4fuse.Daemon.Open.{mark_listed}

-- The two commands that list the directory `node` of the path `path`, and their output.
abbrev pub run_one : Host → Command → Daemon → Option Daemon
run_one host command d = elim (run_outputs (host.run command) (session d)) [
  | none ↦ none
  | some s ↦ some (with_session d s)
]

abbrev pub with_kind : Daemon → CType → Daemon
with_kind d kind = record d { user = record (d.user) { kind = kind } }

-- `path[psz] = '*'`
abbrev pub pattern_of : List ℕ → List ℕ
pattern_of path = path ++ (b'*' ∷ [])

-- The object `p4u` before the first command.
abbrev pub with_directory : Daemon → ℕ → ℕ → Daemon
with_directory d node psz = record d {
  user = record (d.user) { len = psz; kind = CType.dirs; err = pos 0; id = u32 node };
}

unfoldable pub list_directory : Host → Daemon → ℕ → List ℕ → Option Daemon
list_directory host d node path = elim (run_one host (Command.dirs (pattern_of path)) d) [
  | none ↦ none
  | some d1 ↦ elim (run_one host (Command.fstat (pattern_of path)) (with_kind d1 CType.files)) [
    | none ↦ none
    | some d2 ↦ some (mark_listed d2 node)
  ]
]

-- `(cur_sz - prev + 7llu) &~ 7llu`, which is `align_up` to 8 of the bytes behind `prev`.
abbrev pub filled : ℕ → ℕ → ℕ
filled cur_sz prev = align_up (sub64 cur_sz prev) 8

-- `alloc_dirs(node, prev)`: the entry's offset in `out_buf` and its struct; a copy to NULL is a
-- fault.
unfoldable pub alloc_dirs : ℕ → Daemon → ℕ → Option ((ℕ × Dirent) × Daemon)
alloc_dirs prev d node =
    let ent = entry d.table node in
    elim (place d (24 + ent.slen) 8) [
      | none ↦ none
      | some (at, d') ↦ some (
        (
          at,
          record {
            ino = node;
            off = filled d'.cur_sz prev;
            namelen = ent.slen;
            kind = (if ent.b_dir then s_ifdir else s_ifreg) / 2 ^ 12;
            name = load (node_name d.table ent) 0 ent.slen;
          },
        ),
        d',
      )
    ]

-- The calls of `alloc_dirs` that the walk of the tree makes.
unfoldable pub alloc_all : ℕ → Daemon → List ℕ → Option (List (ℕ × Dirent) × Daemon)
alloc_all prev d [] = some ([], d)
alloc_all prev d (node ∷ nodes) = elim (alloc_dirs prev d node) [
  | none ↦ none
  | some (e, d1) ↦ elim (alloc_all prev d1 nodes) [
    | none ↦ none
    | some (es, d2) ↦ some (e ∷ es, d2)
  ]
]

-- The end of FUSE_READDIR, with the entries to come behind `cur_sz`.
unfoldable pub send_entries : Daemon → InHeader → ReadIn → ℕ → Outcome
send_entries d hdr read_in at =
    let t = d.cur_sz in
    elim (find_all_with_parent d.table (u32 hdr.nodeid) (2 ^ 32) 1) [
      | none ↦ diverged
      | some nodes ↦ elim (alloc_all t d nodes) [
        | none ↦ fault
        | some (es, d') ↦
            (let ss = filled d'.cur_sz t in
              reply d' hdr at (u32 (out_header_size + min (sub64 ss read_in.offset) read_in.size))
                (pos 0) (Body.dirents read_in.offset es))
      ]
    ]

-- FUSE_READDIR behind the chunk of the header, which starts at `at`.
unfoldable pub readdir_reply : Host → Daemon → InHeader → ReadIn → ℕ → Outcome
readdir_reply host d hdr read_in at = elim (build_path d.table hdr.nodeid) [
  | none ↦ diverged
  | some path ↦
      (let d1 = with_directory d hdr.nodeid (length path) in
        if (entry d1.table hdr.nodeid).b_list
        then send_entries d1 hdr read_in at
        else elim (list_directory host d1 hdr.nodeid path) [
          | none ↦ fault
          | some d2 ↦ send_entries d2 hdr read_in at
        ])
]

-- `case FUSE_READDIR`: the entries stand behind the header, in place of the fuse_dirent.
unfoldable pub do_readdir : Host → Daemon → InHeader → Outcome
do_readdir host d hdr =
    let read_in = decode_read_in (command_bytes d 40) in
    with_chunk d (prologue d 24)
      λ at d1. readdir_reply host (record d1 { cur_sz = sub64 d1.cur_sz 24 }) hdr read_in at

-- The attributes of FUSE_LOOKUP.
unfoldable pub lookup_attr : Entry → ℕ → Attr
lookup_attr ent n = record zero_attr {
  ino = n;
  nlink = 2;
  size = if ent.b_dir then 0 else ent.size;
  mode =
      if ent.b_dir
      then bit_or 0o444 s_ifdir
      else if not ent.b_sym
      then bit_or 0o444 (bit_or s_ifreg 0o111)
      else s_iflnk;
}

-- `n >> 32 != 0`
unfoldable pub is_missing : ℕ → Bool
is_missing n = not (n / 2 ^ 32 == 0)

-- The end of FUSE_LOOKUP, behind the second search. `-ENOENT` is -2.
unfoldable pub lookup_reply : Daemon → InHeader → ℕ → ℕ → Outcome
lookup_reply d hdr at n =
    if is_missing n
    then reply d hdr at out_header_size (negsuc 1) Body.empty
    else reply d hdr at (out_header_size + 128) (pos 0) (
        Body.entry (record {
          nodeid = n;
          generation = (entry d.table n).gen;
          entry_valid = 0;
          attr_valid = 0;
          entry_valid_nsec = 0;
          attr_valid_nsec = 0;
          attr = lookup_attr (entry d.table n) n;
        }))

-- The number of bytes behind the header, and the name's length as it reaches `find_path`.
abbrev pub name_space : InHeader → ℕ
name_space hdr = sub64 hdr.len in_header_size

abbrev pub name_len : InHeader → ℕ
name_len hdr = u8 (sub64 (name_space hdr) 1)

-- The search of FUSE_LOOKUP.
unfoldable pub lookup_name : Daemon → InHeader → List ℕ → Option ℕ
lookup_name d hdr buf = find_path d.table (u32 hdr.nodeid) (ptr buf) (name_len hdr)

-- `table->entries[hdr.nodeid].bDir && !table->entries[hdr.nodeid].bList`
unfoldable pub is_unlisted : Daemon → ℕ → Bool
is_unlisted d node = (entry d.table node).b_dir && not (entry d.table node).b_list

-- The directory's listing, where the first search found nothing and the directory is not listed.
unfoldable pub lookup_listing : Host → Daemon → InHeader → ℕ → Outcome ⊎ Daemon
lookup_listing host d hdr n =
    if is_missing n && is_unlisted d hdr.nodeid
    then elim (build_path d.table hdr.nodeid) [
      | none ↦ inl diverged
      | some path ↦
          elim (list_directory host (with_directory d hdr.nodeid (length path)) hdr.nodeid path) [
            | none ↦ inl fault
            | some d' ↦ inr d'
          ]
    ]
    else inr d

-- FUSE_LOOKUP behind its chunk, on the bytes of the name.
unfoldable pub lookup_rest : Host → Daemon → InHeader → ℕ → List ℕ → Outcome
lookup_rest host d hdr at buf = elim (lookup_name d hdr buf) [
  | none ↦ diverged
  | some n ↦ elim (lookup_listing host d hdr n) [
    | inl o ↦ o
    | inr d2 ↦ elim (lookup_name d2 hdr buf) [
      | none ↦ diverged
      | some n' ↦ lookup_reply d2 hdr at n'
    ]
  ]
]

-- `case FUSE_LOOKUP`
unfoldable pub do_lookup : Host → Daemon → InHeader → Outcome
do_lookup host d hdr = with_chunk d (prologue d 128) λ at d1.
    lookup_rest host d1 hdr at
      (copyin_wrap d1.read_buf (name_space hdr) (add64 d1.cur in_header_size))
