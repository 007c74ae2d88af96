-- ===== src/Tests/Listings.antt =====
-- FUSE_LOOKUP on a new table, of a directory that the server lists.
use p4fuse.Base.{
  ℕ, ◌-◌, ◌+◌, ◌*◌, ◌^◌, ◌<◌, ◌≡◌, refl, inl, arith, pos, true, some, none, List, [], ◌∷◌, ptr,
  codes,
}
use p4fuse.Ring.{copyin_wrap}
use p4fuse.Wire.Request.{InHeader}
use p4fuse.Inode.{Table, entry}
use p4fuse.Inode.Path.{build_path, build_loop}
use p4fuse.Inode.Create.{zero_entry, init_table}
use p4fuse.Inode.Tree.{Tree, leaf, node}
use p4fuse.Inode.Invariant.{IsStore, init_table-IsStore}
use p4fuse.Client.{Output, info}
use p4fuse.Client.View.{view, same_key}
use p4fuse.Client.Given.{GivesDir}
use p4fuse.Daemon.{Host, Command, Daemon, Body, reply}
use p4fuse.Daemon.Dirs.{lookup_attr, is_unlisted, do_lookup, list_directory, with_directory}
use p4fuse.Daemon.Lookups.{key_of, with_entry_chunk}
use p4fuse.Daemon.Listed.{do_lookup-listed}
use p4fuse.Tests.Daemons.{host, busy, header}

abbrev answer : Command → List Output
answer (Command.dirs path) = info b'1' (codes "dir //newdir") ∷ []
answer _ = []

abbrev depot_host : Host
depot_host = record host { run = answer }

abbrev fresh : Table
fresh = init_table (λ n. zero_entry) (λ i. 0) 1 0 1024 (2 ^ 16)

fresh-IsStore : IsStore fresh (node 1 leaf leaf)
fresh-IsStore = init_table-IsStore (λ n. zero_entry) (λ i. 0) 0 1024 (λ n h. omega arith)

abbrev asking : Daemon
asking = record busy { table = fresh; read_buf = λ i. ptr (codes "newdir") (i - 40) }

abbrev asked : InHeader
asked = record header { nodeid = 1; len = 47 }

absent : view fresh (node 1 leaf leaf) (key_of asking asked) ≡ none
unfolding init_table copyin_wrap same_key
absent = refl

unlisted : is_unlisted asking 1 ≡ true
unfolding is_unlisted init_table
unlisted = refl

climb : build_path fresh 1 ≡ some (codes "//")
unfolding build_path build_loop init_table
climb = refl

room : fresh.id + 3 * 1 + 3 * 0 < 2 ^ 32
unfolding init_table
room = omega arith

given : GivesDir 2 (key_of asking asked).1 (answer (Command.dirs (codes "//*")))
unfolding copyin_wrap
given = inl (refl, refl)

do_lookup-listed_example :
    (m : ℕ) × (d' : Daemon) × (tree' : Tree) × (list_directory depot_host
        (with_directory (with_entry_chunk asking) 1 2)
        1
        (codes "//")
      ≡ some d')
    × IsStore d'.table tree'
    × (view d'.table tree' (key_of asking asked) ≡ some m)
    × (do_lookup depot_host asking asked
        ≡ reply d' asked 24 144 (pos 0) (
            Body.entry (record {
              nodeid = m;
              generation = (entry d'.table m).gen;
              entry_valid = 0;
              attr_valid = 0;
              entry_valid_nsec = 0;
              attr_valid_nsec = 0;
              attr = lookup_attr (entry d'.table m) m;
            })))
do_lookup-listed_example =
    do_lookup-listed depot_host asking asked (node 1 leaf leaf) fresh-IsStore (omega arith)
      (omega arith) (codes "//") (omega arith) absent unlisted climb
      ((omega arith, omega arith), tt) tt room (inl given)
