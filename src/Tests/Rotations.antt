-- ===== src/Tests/Rotations.antt =====
-- The theorems on the red-black tree, applied to five entries.
use Prim.Native.Nat.{Ordering}
use p4fuse.Base.{
  ℕ, zero, suc, ◌<◌, All, ◌≡◌, refl, arith, pos, true, false, ptr, codes, ◌==◌, if◌then◌else◌, List,
  [], ◌∷◌,
}
use p4fuse.Inode.Tree.{Tree, leaf, node}
use p4fuse.RedBlack.{InodeEntry, InodeTable, at_root, inode_str_cmp, read_slot, do_rotation}
use p4fuse.RedBlack.Compare.{side64, IsBytes, inode_str_cmp-name_cmp}
use p4fuse.RedBlack.Turned.{rotated, before, IsLinked, inorder}
use p4fuse.RedBlack.Rotation.{do_rotation-inorder}

abbrev file_inode : InodeEntry
file_inode = record {
  name_offset = 0;
  name = ptr (codes "a.c");
  parent = 7;
  slen = 3;
  f_type = 0;
  b_black = false;
  state = 0;
  gen = 0;
  size = 0;
  left = 0;
  right = 0;
  opened_file = pos 0;
  refcnt = 0;
}

-- The entry 1 above 2 and 5, and 2 above 3 and 4.
abbrev five : InodeTable
five = record {
  bytes = λ i. 0;
  entries = λ n.
      if n == 1
      then record file_inode { left = 2; right = 5 }
      else if n == 2
      then record file_inode { left = 3; right = 4 }
      else file_inode;
  root = 1;
}

abbrev single : ℕ → Tree
single n = node n leaf leaf

do_rotation-inorder_example :
    IsLinked
      (do_rotation five at_root true)
      (read_slot (do_rotation five at_root true) at_root)
      (rotated true 1 2 (single 3) (single 4) (single 5))
    × (inorder (rotated true 1 2 (single 3) (single 4) (single 5))
        ≡ inorder (before true 1 2 (single 3) (single 4) (single 5)))
do_rotation-inorder_example =
    do_rotation-inorder five at_root true 1 2 (single 3) (single 4) (single 5) (omega arith)
      (omega arith) tt tt (omega arith) (omega arith) (omega arith)

order_of_rotated :
    inorder (rotated true 1 2 (single 3) (single 4) (single 5)) ≡ 3 ∷ 2 ∷ 4 ∷ 1 ∷ 5 ∷ []
order_of_rotated = refl

ptr-IsBytes : (s : List ℕ) → All (λ b. b < 256) s → IsBytes (ptr s)
ptr-IsBytes [] h i = omega arith
ptr-IsBytes (b ∷ s) h zero = h.0
ptr-IsBytes (b ∷ s) h (suc i) = ptr-IsBytes s h.1 i

inode_str_cmp-name_cmp_example :
    side64 (inode_str_cmp five file_inode (ptr (codes "b")) 1 3) ≡ Ordering.gt
inode_str_cmp-name_cmp_example =
    inode_str_cmp-name_cmp five file_inode (ptr (codes "b")) 1 3
      (ptr-IsBytes (codes "a.c") (omega arith)) (ptr-IsBytes (codes "b") (omega arith))
      (omega arith) (omega arith) (omega arith) (omega arith)
