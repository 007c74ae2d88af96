-- ===== src/RedBlack/Rotation.antt =====
-- inode.cpp, `do_rotation`: the tree behind a rotation has the same entries in the same order.
use p4fuse.Base.{ℕ, ◌≡◌, ◌≢◌, refl, sym, ap, ◌∙◌, Bool, true, false, if◌then◌else◌}
use p4fuse.Inode.Tree.{Tree}
use mathlib.Core.Path.{subst}
use p4fuse.RedBlack.{InodeTable, Slot, left_of, right_of, read_slot, do_rotation}
use p4fuse.RedBlack.Turned.{
  IsLinked, inorder, before, rotated, IsOutside, IsApart, turned, turned_slot, same_inorder,
  turned-true, turned-false, carried,
}

-- `do_rotation` writes these, for the entries that the slot leads to.
do_rotation-turned :
    (t : InodeTable) (slot : Slot) (dir : Bool) (p c : ℕ)
    → read_slot t slot ≡ p
    → read_slot t (if dir then left_of p else right_of p) ≡ c
    → do_rotation t slot dir
      ≡ turned t slot dir p c (read_slot t (if dir then right_of c else left_of c))
unfolding do_rotation
do_rotation-turned t slot dir p c h k =
    ap
      (λ q.
        turned t slot dir q (below q)
          (read_slot t (if dir then right_of (below q) else left_of (below q))))
      h
    ∙ ap (λ y. turned t slot dir p y (read_slot t (if dir then right_of y else left_of y))) k
  where
    below : ℕ → ℕ
    below q = read_slot t (if dir then left_of q else right_of q)

-- A rotation of the subtree in a slot, to the right for `dir` and to the left otherwise, moves the
-- child of its root above the root: the slot then leads to a tree with the same entries in the same
-- order, if the two entries, the subtrees below them and the entry that has the slot are distinct.
pub do_rotation-inorder :
    (t : InodeTable) (slot : Slot) (dir : Bool) (p c : ℕ) (a b d : Tree)
    → IsLinked t (read_slot t slot) (before dir p c a b d)
    → c ≢ p
    → IsOutside slot p
    → IsOutside slot c
    → IsApart slot p c a
    → IsApart slot p c b
    → IsApart slot p c d
    → IsLinked
        (do_rotation t slot dir)
        (read_slot (do_rotation t slot dir) slot)
        (rotated dir p c a b d)
      × (inorder (rotated dir p c a b d) ≡ inorder (before dir p c a b d))
do_rotation-inorder t slot true p c a b d h ne op oc ha hb hd = (
  subst (λ u. IsLinked u (read_slot u slot) (rotated true p c a b d))
      (sym (do_rotation-turned t slot true p c h.0 h.2.0))
      (carried t slot p c (t.entries c).right ne op oc true (rotated true p c a b d)
        (turned_slot t slot true p c (t.entries c).right op oc)
        (turned-true t slot p c (t.entries c).right ne op oc a b d (refl, h.1, h.2, h.3) refl ha hb
          hd)),
  same_inorder true p c a b d,
)
do_rotation-inorder t slot false p c a b d h ne op oc ha hb hd = (
  subst (λ u. IsLinked u (read_slot u slot) (rotated false p c a b d))
      (sym (do_rotation-turned t slot false p c h.0 h.3.0))
      (carried t slot p c (t.entries c).left ne op oc false (rotated false p c a b d)
        (turned_slot t slot false p c (t.entries c).left op oc)
        (turned-false t slot p c (t.entries c).left ne op oc a b d (refl, h.1, h.2, h.3) refl ha hb
          hd)),
  same_inorder false p c a b d,
)
