-- ===== src/Tests/Inserts.antt =====
-- The theorems on the entering of names, applied to the small depot.
use p4fuse.Base.{
  ℕ, ◌≡◌, ◌≢◌, refl, ap, arith, pos, true, false, some, none, List, [], ◌∷◌, ptr, codes, length,
}
use p4fuse.Ring.{load}
use p4fuse.Inode.{entry}
use p4fuse.Inode.Key.{key}
use p4fuse.Inode.Tree.{Tree}
use p4fuse.Inode.Search.{find_path}
use p4fuse.Inode.Invariant.{IsStore}
use p4fuse.Client.{CType, Session, Output, info, run_outputs, enter_name}
use p4fuse.Client.Lists.{run_outputs-IsStore}
use p4fuse.Client.View.{view, insert, same_key}
use p4fuse.Client.Lookup.{enter_name-find_path}
use p4fuse.Client.Insert.{user_key, enter_name-insert, enter_name-view}
use p4fuse.Older.Client.{older_name_line}
use p4fuse.Older.Relist.{older_name_line-In}
use p4fuse.Daemon.{Host, Daemon}
use p4fuse.Daemon.Dirs.{list_directory}
use p4fuse.Daemon.Stores.{list_directory-IsStore}
use p4fuse.Tests.Samples.{depot, depot_tree, depot-IsTable}
use p4fuse.Tests.Daemons.{host, busy}

pub depot-IsStore : IsStore depot depot_tree
depot-IsStore = record {
  links = depot-IsTable.links;
  entries = ground (arith, depot-IsTable.keyed);
  ordered = depot-IsTable.ordered;
  counted = omega arith;
  ids = omega arith;
  arena = record {
    order = 12;
    allocsz = refl;
    least = omega arith;
    most = omega arith;
    head = refl;
    cur = omega arith;
  };
  used = omega arith;
  unused = λ n h. ground arith;
  last = (refl, refl);
}

-- The client lists the directory 2, and has read the name "b.c" or "ln".
abbrev listing : List ℕ → Session
listing name = record {
  user = record {
    kind = CType.files;
    err = pos 0;
    len = 8;
    id = 2;
    node = 0;
    name = ptr name;
    nameid = length name;
  };
  table = depot;
  cur_sz = 0;
}

absent : view depot depot_tree (user_key (listing (codes "b.c"))) ≡ none
unfolding same_key
absent = refl

held : view depot depot_tree (user_key (listing (codes "ln"))) ≡ some 4
unfolding same_key
held = refl

enter_name-insert_example :
    (s' : Session) × (tree' : Tree) × (enter_name false (listing (codes "b.c")) ≡ some (true, s'))
    × (s'.user.node ≡ 6)
    × IsStore s'.table tree'
    × (view s'.table tree' ≡ insert (2, codes "b.c") 6 (view depot depot_tree))
enter_name-insert_example =
    enter_name-insert false (listing (codes "b.c")) depot_tree depot-IsStore (omega arith)
      (omega arith) (omega arith) absent

enter_name-view_example :
    enter_name false (listing (codes "ln")) ≡ some (false, listing (codes "ln"))
enter_name-view_example =
    enter_name-view false (listing (codes "ln")) depot_tree 4 depot-IsStore (omega arith)
      (omega arith) held (λ e. omega (arith, e))

not_root : (2, codes "ln") ≢ key depot 1
not_root e = omega (arith, ap (λ k. k.0) e)

enter_name-find_path_example :
    (s' : Session) × (enter_name false (listing (codes "b.c")) ≡ some (true, s'))
    × (find_path s'.table 2 (ptr (codes "b.c")) 3 ≡ some 6)
    × (find_path s'.table 2 (ptr (codes "ln")) 2 ≡ some 4)
enter_name-find_path_example =
    enter_name-find_path false (listing (codes "b.c")) depot_tree depot-IsStore (omega arith)
      (omega arith) (omega arith) absent 2 (ptr (codes "ln")) 2 4 (omega arith) (omega arith) held
      not_root

-- The root is listed again by the older daemon.
abbrev relisting : Session
relisting = record {
  user = record {
    kind = CType.dirs;
    err = pos 0;
    len = 1;
    id = 1;
    node = 0;
    name = ptr [];
    nameid = 0;
  };
  table = depot;
  cur_sz = 0;
}

held_depot : view depot depot_tree (1, load (ptr (codes "depot")) 0 5) ≡ some 2
unfolding same_key
held_depot = refl

older_name_line-In_example :
    (s' : Session) × (older_name_line b'1' (codes "dir /depot") relisting ≡ some s')
    × (s'.user.node ≡ 2)
    × ((entry s'.table 2).left ≡ 0)
    × ((entry s'.table 2).right ≡ 0)
older_name_line-In_example =
    older_name_line-In relisting depot_tree (codes "dir /depot") 2 depot-IsStore refl (omega arith)
      (omega arith) held_depot refl

-- The server's listing of one file, as lines.
abbrev lines : List Output
lines =
    info b'1' (codes "depotFile //depot/b.c")
    ∷ info b'1' (codes "fileSize 12")
    ∷ info b'1' (codes "headType text")
    ∷ []

run_outputs-IsStore_example :
    (s' : Session) × (tree' : Tree) × (run_outputs lines (listing []) ≡ some s')
    × IsStore s'.table tree'
    × (view s'.table tree' (2, codes "ln") ≡ some 4)
run_outputs-IsStore_example =
    run_outputs-IsStore lines (listing []) depot_tree (2, codes "ln") 4 depot-IsStore held
      (omega arith) (omega arith) ((omega arith, omega arith), (tt, (tt, tt))) (omega arith)

-- A server that answers every command with these lines.
abbrev server : Host
server = record host { run = λ c. lines }

abbrev lister : Daemon
lister = record busy { user = (listing []).user }

list_directory-IsStore_example :
    (d' : Daemon) × (tree' : Tree) × (list_directory server lister 2 (codes "//depot/") ≡ some d')
    × IsStore d'.table tree'
    × (view d'.table tree' (2, codes "ln") ≡ some 4)
list_directory-IsStore_example =
    list_directory-IsStore server lister 2 (codes "//depot/") depot_tree (2, codes "ln") 4
      depot-IsStore held (omega arith) (omega arith) ((omega arith, omega arith), (tt, (tt, tt)))
      ((omega arith, omega arith), (tt, (tt, tt))) (omega arith)
