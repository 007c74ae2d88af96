-- ===== src/Older/Dirs.antt =====
-- diff.cpp: FUSE_READDIR, FUSE_READDIRPLUS and FUSE_LOOKUP, with the command "sizes" for the files.
use p4fuse.Base.{
  ℕ, ◌+◌, ◌^◌, pos, negsuc, Option, none, some, List, [], ◌∷◌, length, u32, sub64, add64, min, ◌&&◌,
  if◌then◌else◌, ◌⊎◌, inl, inr,
}
use p4fuse.Ring.{copyin_wrap}
use p4fuse.Wire.Request.{InHeader, ReadIn, decode_read_in}
use p4fuse.Wire.Reply.{DirentPlus}
use p4fuse.Inode.{entry}
use p4fuse.Inode.Path.{build_path}
use p4fuse.Inode.Search.{find_all_with_parent}
use p4fuse.Client.{CType}
use p4fuse.Daemon.{Host, Command, Daemon, Outcome, Body, reply, command_bytes, prologue}
use p4fuse.Daemon.{fault, diverged, in_header_size, out_header_size, with_chunk}
use p4fuse.Daemon.Open.{mark_listed}
use p4fuse.Daemon.Dirs.{
  pattern_of, with_kind, with_directory, filled, send_entries, is_missing, is_unlisted, lookup_name,
  name_space,
}
use p4fuse.Daemon.DirsPlus.{alloc_dirsplus}
use p4fuse.Older.Open.{older_run}
use p4fuse.Older.Files.{older_attr}

-- The two commands that list a directory.
unfoldable pub older_list : Host → Daemon → List ℕ → Option Daemon
older_list host d path = elim (older_run host (Command.dirs (pattern_of path)) d) [
  | none ↦ none
  | some d1 ↦ older_run host (Command.sizes (pattern_of path)) (with_kind d1 CType.files)
]

unfoldable pub older_list_directory : Host → Daemon → ℕ → List ℕ → Option Daemon
older_list_directory host d node path = elim (older_list host d path) [
  | none ↦ none
  | some d' ↦ some (mark_listed d' node)
]

-- FUSE_READDIR behind the chunk of the header, which starts at `at`.
unfoldable pub older_readdir_reply : Host → Daemon → InHeader → ReadIn → ℕ → Outcome
older_readdir_reply host d hdr read_in at = elim (build_path d.table hdr.nodeid) [
  | none ↦ diverged
  | some path ↦
      (let d1 = with_directory d hdr.nodeid (length path) in
        if (entry d1.table hdr.nodeid).b_list
        then send_entries d1 hdr read_in at
        else elim (older_list_directory host d1 hdr.nodeid path) [
          | none ↦ fault
          | some d2 ↦ send_entries d2 hdr read_in at
        ])
]

-- `case FUSE_READDIR`
unfoldable pub older_readdir : Host → Daemon → InHeader → Outcome
older_readdir host d hdr =
    let read_in = decode_read_in (command_bytes d 40) in
    with_chunk d (prologue d 24)
      λ at d1. older_readdir_reply host (record d1 { cur_sz = sub64 d1.cur_sz 24 }) hdr read_in at

-- The calls of `alloc_dirsplus`, each on a chunk that held `stale`.
unfoldable pub plus_all : DirentPlus → ℕ → Daemon → List ℕ → Option (List (ℕ × DirentPlus) × Daemon)
plus_all stale prev d [] = some ([], d)
plus_all stale prev d (node ∷ nodes) = elim (alloc_dirsplus stale prev d node) [
  | none ↦ none
  | some (e, d1) ↦ elim (plus_all stale prev d1 nodes) [
    | none ↦ none
    | some (es, d2) ↦ some (e ∷ es, d2)
  ]
]

-- The end of FUSE_READDIRPLUS, with the entries to come behind `cur_sz`.
unfoldable pub send_plus : DirentPlus → Daemon → InHeader → ReadIn → ℕ → Outcome
send_plus stale d hdr read_in at =
    let t = d.cur_sz in
    elim (find_all_with_parent d.table (u32 hdr.nodeid) (2 ^ 32) 1) [
      | none ↦ diverged
      | some nodes ↦ elim (plus_all stale t d nodes) [
        | none ↦ fault
        | some (es, d') ↦
            (let ss = filled d'.cur_sz t in
              reply d' hdr at (u32 (out_header_size + min (sub64 ss read_in.offset) read_in.size))
                (pos 0) (Body.dirents_plus read_in.offset es))
      ]
    ]

-- `case FUSE_READDIRPLUS`: the directory is listed each time, and not marked.
unfoldable pub older_readdirplus : DirentPlus → Host → Daemon → InHeader → Outcome
older_readdirplus stale host d hdr =
    let read_in = decode_read_in (command_bytes d 40) in
    with_chunk d (prologue d 24) λ at d1.
      (let d2 = record d1 { cur_sz = sub64 d1.cur_sz 24 } in
        elim (build_path d2.table hdr.nodeid) [
          | none ↦ diverged
          | some path ↦ elim (older_list host (with_directory d2 hdr.nodeid (length path)) path) [
            | none ↦ fault
            | some d3 ↦ send_plus stale d3 hdr read_in at
          ]
        ])

-- The end of FUSE_LOOKUP, behind the second search. `-ENOENT` is -2.
unfoldable pub older_lookup_reply : Daemon → InHeader → ℕ → ℕ → Outcome
older_lookup_reply d hdr at n =
    if is_missing n
    then reply d hdr at out_header_size (negsuc 1) Body.empty
    else reply d hdr at (out_header_size + 128) (pos 0) (
        Body.entry (record {
          nodeid = n;
          generation = (entry d.table n).gen;
          entry_valid = 0;
          attr_valid = 0;
          entry_valid_nsec = 0;
          attr_valid_nsec = 0;
          attr = older_attr (entry d.table n) n;
        }))

-- The directory's listing, where the first search found nothing and the directory is not listed.
unfoldable pub older_lookup_listing : Host → Daemon → InHeader → ℕ → Outcome ⊎ Daemon
older_lookup_listing host d hdr n =
    if is_missing n && is_unlisted d hdr.nodeid
    then elim (build_path d.table hdr.nodeid) [
      | none ↦ inl diverged
      | some path ↦
          elim (older_list_directory host (with_directory d hdr.nodeid (length path)) hdr.nodeid
            path) [ none ↦ inl fault | some d' ↦ inr d' ]
    ]
    else inr d

-- FUSE_LOOKUP behind its chunk, on the bytes of the name.
unfoldable pub older_lookup_rest : Host → Daemon → InHeader → ℕ → List ℕ → Outcome
older_lookup_rest host d hdr at buf = elim (lookup_name d hdr buf) [
  | none ↦ diverged
  | some n ↦ elim (older_lookup_listing host d hdr n) [
    | inl o ↦ o
    | inr d2 ↦ elim (lookup_name d2 hdr buf) [
      | none ↦ diverged
      | some n' ↦ older_lookup_reply d2 hdr at n'
    ]
  ]
]

-- `case FUSE_LOOKUP`
unfoldable pub older_lookup : Host → Daemon → InHeader → Outcome
older_lookup host d hdr = with_chunk d (prologue d 128) λ at d1.
    older_lookup_rest host d1 hdr at
      (copyin_wrap d1.read_buf (name_space hdr) (add64 d1.cur in_header_size))
