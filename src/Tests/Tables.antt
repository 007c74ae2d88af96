-- ===== src/Tests/Tables.antt =====
-- The theorems on the inode store, applied to the small depot.
use p4fuse.Base.{ℕ, ◌^◌, ◌<◌, ◌≡◌, ◌≢◌, inl, inr, refl, ap, arith, some, List, ptr, codes, length}
use p4fuse.Inode.{Ptr, entry}
use p4fuse.Inode.Compare.{cmp_node}
use p4fuse.Inode.Search.{find_path, missing, find_all_with_parent}
use p4fuse.Inode.Key.{Key, side, key, key_cmp, cmp_node-key_cmp}
use p4fuse.Inode.Tree.{In, Every, Every-In, preorder}
use p4fuse.Inode.Find.{find_path-In, find_path_absent}
use p4fuse.Inode.List.{children_of, find_all_with_parent-children_of}
use p4fuse.Inode.Path.{path_size, build_path}
use p4fuse.Inode.Path.Laws.{path_of, build_path-path_size}
use p4fuse.Tests.Samples.{depot, depot_tree, depot-IsTable, file_climb, file-Climbs}

abbrev a_c : Ptr
a_c = ptr (codes "a.c")

abbrev b_c : Ptr
b_c = ptr (codes "b.c")

cmp_node-key_cmp_example :
    side (cmp_node depot (entry depot 4) 2 a_c 3) ≡ key_cmp (2, codes "a.c") (key depot 4)
cmp_node-key_cmp_example =
    cmp_node-key_cmp depot 4 2 a_c 3 (omega arith) (omega arith) (omega arith) (omega arith)

find_path-In_example : find_path depot 2 a_c 3 ≡ some 3
find_path-In_example =
    find_path-In depot depot_tree 3 2 a_c 3 depot-IsTable (omega arith) (omega arith)
      (inr (inr (inr (inr (inl refl))))) refl (λ e. omega (arith, ap (λ k. k.0) e))

abbrev absent_key : Key
absent_key = (5, codes "a.c")

no_such_key : Every (λ m. absent_key ≢ key depot m) depot_tree
no_such_key = (
  λ e. other (omega arith) e,
  tt,
  (
    λ e. other (omega arith) e,
    tt,
    (λ e. other (omega arith) e, tt, (λ e. other (omega arith) e, tt, tt)),
  ),
)
  where
    other : {p : ℕ} {n : List ℕ} → p < 5 → ◌≢◌ {A = Key} absent_key (p, n)
    other h e = omega (arith, ap (λ k. k.0) e)

find_path_absent_example : (x : ℕ) × In x depot_tree × (find_path depot 5 a_c 3 ≡ some (missing x))
find_path_absent_example =
    find_path_absent depot depot_tree 5 a_c 3 depot-IsTable (omega arith) (omega arith)
      (λ m. Every-In (λ m. absent_key ≢ key depot m) depot_tree m no_such_key)

find_all_with_parent-children_of_example :
    find_all_with_parent depot 2 (2 ^ 32) 1 ≡ some (children_of depot 2 (preorder depot_tree))
find_all_with_parent-children_of_example =
    find_all_with_parent-children_of depot depot_tree 2 (2 ^ 32) depot-IsTable (omega arith)

build_path-path_size_example :
    (build_path depot 3 ≡ some (path_of depot file_climb))
    × (path_size depot 3 ≡ some (length (path_of depot file_climb)))
build_path-path_size_example =
    build_path-path_size depot 3 file_climb file-Climbs (omega arith) (omega arith)

path_of_file : path_of depot file_climb ≡ codes "//depot/a.c/"
path_of_file = refl
