-- ===== src/Daemon/DirsPlus.antt =====
-- main.cpp, `alloc_dirsplus`: an entry of FUSE_READDIRPLUS, whose case is commented out.
use p4fuse.Base.{ℕ, ◌+◌, ◌/◌, ◌^◌, Option, none, some, if◌then◌else◌}
use p4fuse.Ring.{load}
use p4fuse.Wire.Reply.{DirentPlus}
use p4fuse.Inode.{entry, node_name}
use p4fuse.Daemon.State.{Daemon, place}
use p4fuse.Daemon.Files.{s_ifdir, s_ifreg, entry_mode}
use p4fuse.Daemon.Dirs.{filled}

-- The fields that are written; the others keep what the chunk held before.
unfoldable pub alloc_dirsplus : DirentPlus → ℕ → Daemon → ℕ → Option ((ℕ × DirentPlus) × Daemon)
alloc_dirsplus stale prev d node =
    let ent = entry d.table node in
    elim (place d (152 + ent.slen) 8) [
      | none ↦ none
      | some (at, d') ↦ some (
        (
          at,
          record {
            entry_out = record (stale.entry_out) {
              nodeid = node;
              generation = ent.gen;
              attr = record (stale.entry_out.attr) {
                ino = node;
                nlink = 2;
                size = if ent.b_dir then 0 else ent.size;
                mode = entry_mode ent.b_dir;
              };
            };
            dirent = record {
              ino = node;
              off = filled d'.cur_sz prev;
              namelen = ent.slen;
              kind = (if ent.b_dir then s_ifdir else s_ifreg) / 2 ^ 12;
              name = load (node_name d.table ent) 0 ent.slen;
            };
          },
        ),
        d',
      )
    ]
