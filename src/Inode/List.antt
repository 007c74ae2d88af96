-- ===== src/Inode/List.antt =====
-- `find_all_with_parent` lists the entries of a directory.
use Prim.Native.Nat.{Ordering}
use mathlib.Core.List.{append-nil}
use p4fuse.Base.{
  ℕ, zero, suc, ◌<◌, ◌≤◌, ◌≡◌, refl, ap, ◌∙◌, arith, Option, some, List, [], ◌∷◌, ◌++◌, ◌==◌, ltb,
  false, if◌then◌else◌, Bool-cases, inl, inr, ≢→==, ltb→lt,
}
use p4fuse.Inode.Store.{Table, entry}
use p4fuse.Inode.Key.{key, key_cmp}
use p4fuse.Inode.Search.{find_all_with_parent}
use p4fuse.Inode.Tree.{Tree, leaf, node, depth, Links, Every, IsOrdered, preorder, IsTable}

-- The entries of a list whose parent is `parent`.
abbrev pub children_of : Table → ℕ → List ℕ → List ℕ
children_of t parent [] = []
children_of t parent (n ∷ ns) =
    if (entry t n).parent == parent then n ∷ children_of t parent ns else children_of t parent ns

children_of-append :
    (t : Table) (parent : ℕ) (xs ys : List ℕ)
    → children_of t parent (xs ++ ys) ≡ children_of t parent xs ++ children_of t parent ys
children_of-append t parent [] ys = refl
children_of-append t parent (x ∷ xs) ys = elim (Bool-cases ((entry t x).parent == parent)) [
  | inl e ↦ rw (e, children_of-append t parent xs ys)
  | inr e ↦ rw (e, children_of-append t parent xs ys)
]

parent_le_of_lt :
    (t : Table) (m n : ℕ)
    → key_cmp (key t m) (key t n) ≡ Ordering.lt
    → (entry t m).parent ≤ (entry t n).parent
parent_le_of_lt t m n h = ground arith

parent_le_of_gt :
    (t : Table) (m n : ℕ)
    → key_cmp (key t m) (key t n) ≡ Ordering.gt
    → (entry t n).parent ≤ (entry t m).parent
parent_le_of_gt t m n h = ground arith

-- The walk skips a side only if no entry there has the parent.
skip_lower :
    (t : Table) (parent n : ℕ) (s : Tree)
    → (entry t n).parent < parent
    → Every (λ m. key_cmp (key t m) (key t n) ≡ Ordering.lt) s
    → children_of t parent (preorder s) ≡ []
skip_lower t parent n leaf h e = refl
skip_lower t parent n (node m l r) h e = rw (
  lt→not_eq,
  children_of-append t parent (preorder l) (preorder r),
  skip_lower t parent n l h e.1,
  skip_lower t parent n r h e.2,
)
  where
    lt→not_eq : ((entry t m).parent == parent) ≡ false
    lt→not_eq = ≢→== _ _ (λ q. omega (arith, parent_le_of_lt t m n e.0))

skip_upper :
    (t : Table) (parent n : ℕ) (s : Tree)
    → parent < (entry t n).parent
    → Every (λ m. key_cmp (key t m) (key t n) ≡ Ordering.gt) s
    → children_of t parent (preorder s) ≡ []
skip_upper t parent n leaf h e = refl
skip_upper t parent n (node m l r) h e = rw (
  gt→not_eq,
  children_of-append t parent (preorder l) (preorder r),
  skip_upper t parent n l h e.1,
  skip_upper t parent n r h e.2,
)
  where
    gt→not_eq : ((entry t m).parent == parent) ≡ false
    gt→not_eq = ≢→== _ _ (λ q. omega (arith, parent_le_of_gt t m n e.0))

-- The walk over the entries below a link, which may lead to none.
abbrev list_below : Table → ℕ → ℕ → ℕ → Option (List ℕ)
list_below t parent fuel at = if at == 0 then some [] else find_all_with_parent t parent fuel at

list_step :
    (t : Table) (parent fuel n : ℕ) (xs ys : List ℕ)
    → list_below t parent fuel (entry t n).left ≡ some xs
    → list_below t parent fuel (entry t n).right ≡ some ys
    → find_all_with_parent t parent (suc fuel) n
      ≡ some (
          if (entry t n).parent == parent
          then (n ∷ []) ++ xs ++ ys
          else if ltb (entry t n).parent parent
          then ys
          else xs)
unfolding find_all_with_parent
list_step t parent fuel n xs ys p q = elim (Bool-cases ((entry t n).parent == parent)) [
  | inl e ↦ rw (e, p, q)
  | inr e ↦ elim (Bool-cases (ltb (entry t n).parent parent)) [
    | inl f ↦ rw (e, f, q)
    | inr f ↦ rw (e, f, p)
  ]
]

-- What the cuts keep is what the parent test keeps.
cuts_keep :
    (t : Table) (parent n : ℕ) (l r : Tree)
    → IsOrdered t (node n l r)
    → (if (entry t n).parent == parent
        then (n ∷ []) ++ children_of t parent (preorder l) ++ children_of t parent (preorder r)
        else if ltb (entry t n).parent parent
        then children_of t parent (preorder r)
        else children_of t parent (preorder l))
      ≡ children_of t parent (preorder (node n l r))
cuts_keep t parent n l r o = elim (Bool-cases ((entry t n).parent == parent)) [
  | inl e ↦ rw (e, children_of-append t parent (preorder l) (preorder r))
  | inr e ↦ elim (Bool-cases (ltb (entry t n).parent parent)) [
    | inl f ↦ rw (
      e,
      f,
      children_of-append t parent (preorder l) (preorder r),
      skip_lower t parent n l (ltb→lt _ _ f) o.0,
    )
    | inr f ↦ rw (
      e,
      f,
      children_of-append t parent (preorder l) (preorder r),
      skip_upper t parent n r (ground arith) o.1,
      append-nil,
    )
  ]
]

list_below-children_of :
    (t : Table) (parent : ℕ) (s : Tree) (fuel at : ℕ)
    → Links t at s
    → IsOrdered t s
    → depth s ≤ fuel
    → list_below t parent fuel at ≡ some (children_of t parent (preorder s))
list_below-children_of t parent leaf fuel at h o d = rw h
list_below-children_of t parent (node n l r) zero at h o d = absurd (omega arith)
list_below-children_of t parent (node n l r) (suc fuel) at h o d =
    rw (h.0, ≢→== n 0 h.1)
      (list_step t parent fuel n _ _
          (list_below-children_of t parent l fuel (entry t n).left h.2 o.2 (omega arith))
          (list_below-children_of t parent r fuel (entry t n).right h.3 o.3 (omega arith))
        ∙ ap some (cuts_keep t parent n l r o))

-- The walk that READDIR makes from the root, entry 1, of an ordered search tree ends within as many
-- rounds as the tree is deep, and calls `fn` on just the entries of the tree whose parent is the
-- directory, in the order of a full walk.
pub find_all_with_parent-children_of :
    (t : Table) (s : Tree) (parent fuel : ℕ)
    → IsTable t s
    → depth s ≤ fuel
    → find_all_with_parent t parent fuel 1 ≡ some (children_of t parent (preorder s))
find_all_with_parent-children_of t s parent fuel v d =
    list_below-children_of t parent s fuel 1 v.links v.ordered d
