-- ===== src/RedBlack/Turned.antt =====
-- inode.cpp: the table behind the writes of a rotation.
use mathlib.Core.List.{append_assoc}
use p4fuse.Base.{
  ℕ, ◌≡◌, ◌≢◌, ◌++◌, refl, sym, ap, ◌∙◌, Bool, true, false, List, [], ◌∷◌, ==-refl, ≢→==,
  if◌then◌else◌,
}
use p4fuse.Inode.Tree.{Tree, leaf, node, Every}
use mathlib.Core.Path.{subst}
use p4fuse.Inode.Invariant.{Every-map}
use p4fuse.RedBlack.{
  InodeEntry, InodeTable, Slot, at_root, left_of, right_of, read_slot, write_slot, set_inode,
}

-- The links from `at` form the tree.
abbrev pub IsLinked : InodeTable → ℕ → Tree → Type 0
IsLinked t at leaf = at ≡ 0
IsLinked t at (node n l r) =
    (at ≡ n) × (n ≢ 0) × IsLinked t (t.entries n).left l × IsLinked t (t.entries n).right r

-- The entries from left to right.
abbrev pub inorder : Tree → List ℕ
inorder leaf = []
inorder (node n l r) = inorder l ++ n ∷ inorder r

-- The parent `p` above the child `c`, and the child above the parent.
abbrev pub before : Bool → ℕ → ℕ → Tree → Tree → Tree → Tree
before true p c a b d = node p (node c a b) d
before false p c a b d = node p a (node c b d)

abbrev pub rotated : Bool → ℕ → ℕ → Tree → Tree → Tree → Tree
rotated true p c a b d = node c a (node p b d)
rotated false p c a b d = node c (node p a b) d

-- The entry that has the slot is another one.
abbrev pub IsOutside : Slot → ℕ → Type 0
IsOutside at_root m = Unit
IsOutside (left_of n) m = m ≢ n
IsOutside (right_of n) m = m ≢ n

-- None of the entries of the tree is one of the two, or has the slot.
abbrev pub IsApart : Slot → ℕ → ℕ → Tree → Type 0
IsApart slot p c s = Every (λ m. (m ≢ p) × (m ≢ c) × IsOutside slot m) s

pub same_inorder :
    (dir : Bool) (p c : ℕ) (a b d : Tree)
    → inorder (rotated dir p c a b d) ≡ inorder (before dir p c a b d)
same_inorder true p c a b d = sym (append_assoc (inorder a) (c ∷ inorder b) (p ∷ inorder d))
same_inorder false p c a b d = append_assoc (inorder a) (p ∷ inorder b) (c ∷ inorder d)

-- A written slot.
write_other :
    (t : InodeTable) (slot : Slot) (id m : ℕ)
    → IsOutside slot m
    → (write_slot t slot id).entries m ≡ t.entries m
write_other t at_root id m h = refl
write_other t (left_of n) id m h = rw (≢→== m n h) refl
write_other t (right_of n) id m h = rw (≢→== m n h) refl

-- Where no entry is changed, the links are those before.
IsLinked-frame :
    (t t' : InodeTable) (at : ℕ) (s : Tree)
    → Every (λ m. t'.entries m ≡ t.entries m) s
    → IsLinked t at s
    → IsLinked t' at s
IsLinked-frame t t' at leaf e h = h
IsLinked-frame t t' at (node n l r) e h = (
  h.0,
  h.1,
  rw e.0 (IsLinked-frame t t' (t.entries n).left l e.1 h.2),
  rw e.0 (IsLinked-frame t t' (t.entries n).right r e.2 h.3),
)

abbrev with_left : ℕ → InodeEntry → InodeEntry
with_left id e = record e { left = id }

abbrev with_right : ℕ → InodeEntry → InodeEntry
with_right id e = record e { right = id }

-- What `do_rotation` writes, for a parent `p` in the slot, a child `c`, and the subtree `gc` between
-- them.
abbrev pub turned : InodeTable → Slot → Bool → ℕ → ℕ → ℕ → InodeTable
turned t slot dir p c gc =
    write_slot (write_slot (write_slot t slot c) (if dir then right_of c else left_of c) p)
      (if dir then left_of p else right_of p) gc

set_same : (t : InodeTable) (n : ℕ) (e : InodeEntry) → (set_inode t n e).entries n ≡ e
set_same t n e = rw (==-refl n) refl

-- The entry that has the slot gets the child.
turned_rest :
    (t : InodeTable) (slot : Slot) (dir : Bool) (p c gc m : ℕ)
    → m ≢ p
    → m ≢ c
    → (turned t slot dir p c gc).entries m ≡ (write_slot t slot c).entries m
turned_rest t slot true p c gc m h k = rw (≢→== m p h, ≢→== m c k) refl
turned_rest t slot false p c gc m h k = rw (≢→== m p h, ≢→== m c k) refl

pub turned_slot :
    (t : InodeTable) (slot : Slot) (dir : Bool) (p c gc : ℕ)
    → IsOutside slot p
    → IsOutside slot c
    → read_slot (turned t slot dir p c gc) slot ≡ c
turned_slot t at_root true p c gc h k = refl
turned_slot t at_root false p c gc h k = refl
turned_slot t (left_of n) dir p c gc h k =
    ap (λ e. e.left) (turned_rest t (left_of n) dir p c gc n (λ e. h (sym e)) (λ e. k (sym e)))
    ∙ ap (λ e. e.left) (set_same t n (with_left c (t.entries n)))
turned_slot t (right_of n) dir p c gc h k =
    ap (λ e. e.right) (turned_rest t (right_of n) dir p c gc n (λ e. h (sym e)) (λ e. k (sym e)))
    ∙ ap (λ e. e.right) (set_same t n (with_right c (t.entries n)))

module _ (t : InodeTable) (slot : Slot) (p c gc : ℕ) (apart : c ≢ p) (out_p : IsOutside slot p)
    (out_c : IsOutside slot c) where
  turned_other :
      (dir : Bool) (m : ℕ)
      → (m ≢ p) × (m ≢ c) × IsOutside slot m
      → (turned t slot dir p c gc).entries m ≡ t.entries m
  turned_other dir m h = turned_rest t slot dir p c gc m h.0 h.1 ∙ write_other t slot c m h.2

  turned_child :
      (dir : Bool)
      → (turned t slot dir p c gc).entries c
        ≡ (if dir then with_right p (t.entries c) else with_left p (t.entries c))
  turned_child true =
      rw (≢→== c p apart, ==-refl c) (ap (with_right p) (write_other t slot c c out_c))
  turned_child false =
      rw (≢→== c p apart, ==-refl c) (ap (with_left p) (write_other t slot c c out_c))

  turned_parent :
      (dir : Bool)
      → (turned t slot dir p c gc).entries p
        ≡ (if dir then with_left gc (t.entries p) else with_right gc (t.entries p))
  turned_parent true =
      rw (==-refl p, ≢→== p c (λ e. apart (sym e)))
        (ap (with_left gc) (write_other t slot c p out_p))
  turned_parent false =
      rw (==-refl p, ≢→== p c (λ e. apart (sym e)))
        (ap (with_right gc) (write_other t slot c p out_p))

  frame :
      (dir : Bool) (at : ℕ) (s : Tree)
      → IsApart slot p c s
      → IsLinked t at s
      → IsLinked (turned t slot dir p c gc) at s
  frame dir at s h =
      IsLinked-frame t (turned t slot dir p c gc) at s (Every-map (turned_other dir) s h)

  pub carried :
      (dir : Bool) {x y : ℕ} (s : Tree)
      → x ≡ y
      → IsLinked (turned t slot dir p c gc) y s
      → IsLinked (turned t slot dir p c gc) x s
  carried dir s e = subst (λ y. IsLinked (turned t slot dir p c gc) y s) (sym e)

  pub turned-true :
      (a b d : Tree)
      → IsLinked t p (before true p c a b d)
      → gc ≡ (t.entries c).right
      → IsApart slot p c a
      → IsApart slot p c b
      → IsApart slot p c d
      → IsLinked (turned t slot true p c gc) c (rotated true p c a b d)
  turned-true a b d h g ha hb hd = (
    refl,
    h.2.1,
    carried true a (ap (λ e. e.left) (turned_child true))
        (frame true (t.entries c).left a ha h.2.2),
    (
      ap (λ e. e.right) (turned_child true),
      h.1,
      carried true b (ap (λ e. e.left) (turned_parent true) ∙ g)
          (frame true (t.entries c).right b hb h.2.3),
      carried true d (ap (λ e. e.right) (turned_parent true))
          (frame true (t.entries p).right d hd h.3),
    ),
  )

  pub turned-false :
      (a b d : Tree)
      → IsLinked t p (before false p c a b d)
      → gc ≡ (t.entries c).left
      → IsApart slot p c a
      → IsApart slot p c b
      → IsApart slot p c d
      → IsLinked (turned t slot false p c gc) c (rotated false p c a b d)
  turned-false a b d h g ha hb hd = (
    refl,
    h.3.1,
    (
      ap (λ e. e.left) (turned_child false),
      h.1,
      carried false a (ap (λ e. e.left) (turned_parent false))
          (frame false (t.entries p).left a ha h.2),
      carried false b (ap (λ e. e.right) (turned_parent false) ∙ g)
          (frame false (t.entries c).left b hb h.3.2),
    ),
    carried false d (ap (λ e. e.right) (turned_child false))
        (frame false (t.entries c).right d hd h.3.3),
  )
