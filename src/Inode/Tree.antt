-- ===== src/Inode/Tree.antt =====
-- The tree that the links of the table form, and its invariant.
use Prim.Native.Nat.{Ordering, max}
use mathlib.Core.Path.{subst}
use p4fuse.Base.{ℕ, suc, ◌+◌, ◌^◌, ◌<◌, ◌≤◌, ◌≡◌, ◌≢◌, ◌⊎◌, ◌++◌, sym, inl, inr, List, [], ◌∷◌}
use p4fuse.Inode.Store.{Table, entry}
use p4fuse.Inode.Key.{key, key_cmp}

-- The shape of the tree, with the index of each entry.
pub data Tree : Type 0 where
  leaf : Tree
  node : ℕ → Tree → Tree → Tree

abbrev pub depth : Tree → ℕ
depth leaf = 0
depth (node n l r) = suc (max (depth l) (depth r))

abbrev pub size : Tree → ℕ
size leaf = 0
size (node n l r) = suc (size l + size r)

-- `link`, the index 0 for no entry, leads to the tree.
abbrev pub Links : Table → ℕ → Tree → Type 0
Links t at leaf = at ≡ 0
Links t at (node n l r) =
    (at ≡ n) × (n ≢ 0) × Links t (entry t n).left l × Links t (entry t n).right r

-- A property of every entry of the tree.
abbrev pub Every {ℓ} : (ℕ → Type ℓ) → Tree → Type ℓ
Every P leaf = Unit
Every P (node n l r) = P n × Every P l × Every P r

-- The entry `m` is in the tree.
abbrev pub In : ℕ → Tree → Type 0
In m leaf = ⊥
In m (node n l r) = (m ≡ n) ⊎ In m l ⊎ In m r

-- Smaller keys stand on the left and larger ones on the right.
abbrev pub IsOrdered : Table → Tree → Type 0
IsOrdered t leaf = Unit
IsOrdered t (node n l r) =
    Every (λ m. key_cmp (key t m) (key t n) ≡ Ordering.lt) l
    × Every (λ m. key_cmp (key t m) (key t n) ≡ Ordering.gt) r
    × IsOrdered t l
    × IsOrdered t r

-- The entry's key is one that `cmp_node` compares exactly.
pub record IsKeyed (t : Table) (n : ℕ) : Type 0 where
  pub parent : (entry t n).parent < 2 ^ 31
  pub slen : (entry t n).slen < 256

-- The entries in the order of `find_all_with_parent` without its cuts.
abbrev pub preorder : Tree → List ℕ
preorder leaf = []
preorder (node n l r) = n ∷ preorder l ++ preorder r

pub Every-In {ℓ} : (P : ℕ → Type ℓ) (s : Tree) (m : ℕ) → Every P s → In m s → P m
Every-In P leaf m h i = absurd i
Every-In P (node n l r) m h (inl e) = subst P (sym e) h.0
Every-In P (node n l r) m h (inr (inl i)) = Every-In P l m h.1 i
Every-In P (node n l r) m h (inr (inr i)) = Every-In P r m h.2 i

-- The table's links form the ordered tree `s` below the root, entry 1.
pub record IsTable (t : Table) (s : Tree) : Type 0 where
  pub links : Links t 1 s
  pub keyed : Every (IsKeyed t) s
  pub ordered : IsOrdered t s
  pub shallow : depth s ≤ 2 ^ 32
