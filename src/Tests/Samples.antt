-- ===== src/Tests/Samples.antt =====
-- A small depot: the root, the directory "depot", and in it the file "a.c" and the link "ln".
use p4fuse.Base.{ℕ, refl, arith, pos, true, List, [], ◌∷◌, ptr, ◌==◌, if◌then◌else◌, codes}
use p4fuse.Inode.{Entry, Table}
use p4fuse.Inode.Create.{zero_entry, root_entry}
use p4fuse.Inode.Tree.{Tree, IsTable, leaf, node}
use p4fuse.Inode.Path.Laws.{Climbs}

abbrev pub depot_entry : Entry
depot_entry = record zero_entry {
  name = ptr (codes "depot");
  parent = 1;
  slen = 5;
  b_dir = true;
  b_list = true;
  left = 0;
  right = 3;
}

abbrev pub file_entry : Entry
file_entry = record zero_entry {
  name = ptr (codes "a.c");
  parent = 2;
  slen = 3;
  b_list = true;
  size = 7;
  right = 4;
  opened_file = pos 5;
  refcnt = 1;
}

abbrev pub link_entry : Entry
link_entry = record zero_entry { name = ptr (codes "ln"); parent = 2; slen = 2; b_sym = true }

abbrev pub depot : Table
depot = record {
  id = 5;
  total_inodes = 64;
  gen = 0;
  str_arena = record { bytes = λ i. 0; head = 0; cur = 0; allocsz = 4096 };
  entries = λ n.
      if n == 1
      then record (root_entry zero_entry) { right = 2 }
      else if n == 2
      then depot_entry
      else if n == 3
      then file_entry
      else if n == 4
      then link_entry
      else zero_entry;
}

abbrev pub depot_tree : Tree
depot_tree = node 1 leaf (node 2 leaf (node 3 leaf (node 4 leaf leaf)))

pub depot-IsTable : IsTable depot depot_tree
depot-IsTable = record {
  links = omega arith;
  keyed = omega arith;
  ordered = (
    tt,
    (refl, tt, (refl, tt, (refl, tt, tt))),
    tt,
    (tt, (refl, tt, (refl, tt, tt)), tt, (tt, (refl, tt, tt), tt, (tt, tt, tt, tt))),
  );
  shallow = omega arith;
}

-- The climb from the file: "a.c", "depot", "/".
abbrev pub file_climb : List ℕ
file_climb = 3 ∷ 2 ∷ 1 ∷ []

pub file-Climbs : Climbs depot 3 file_climb
file-Climbs = (refl, omega arith, (refl, omega arith, (refl, omega arith, refl)))
