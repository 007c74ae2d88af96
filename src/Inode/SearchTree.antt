-- ===== src/Inode/SearchTree.antt =====
-- The search of an ordered tree by key, which `find_path` is compared with.
use Prim.Native.Nat.{Ordering}
use mathlib.Core.Path.{subst}
use p4fuse.Base.{ℕ, ◌≡◌, ◌⊎◌, refl, sym, ap, ◌∙◌, inl, inr}
use p4fuse.Inode.Store.{Table}
use p4fuse.Inode.Key.{Key, key, key_cmp, key_cmp_self, eq_of_key_cmp}
use p4fuse.Inode.Search.{missing}
use p4fuse.Inode.Tree.{Tree, leaf, node, In, IsOrdered, Every-In}

-- The search of a key in the tree; `last` is the entry above.
pub search_tree : Table → Key → Tree → ℕ → ℕ
search_tree t k leaf last = missing last
search_tree t k (node n l r) last =
    let lower = search_tree t k l n in
    let upper = search_tree t k r n in
    elim (key_cmp k (key t n)) [ Ordering.lt ↦ lower | Ordering.gt ↦ upper | Ordering.eq ↦ n ]

pub search_leaf : (t : Table) (k : Key) (last : ℕ) → search_tree t k leaf last ≡ missing last
unfolding search_tree
search_leaf t k last = refl

pub search_node :
    (t : Table) (k : Key) (n : ℕ) (l r : Tree) (last : ℕ) (o : Ordering)
    → key_cmp k (key t n) ≡ o
    → search_tree t k (node n l r) last ≡ elim o [
      | Ordering.lt ↦ search_tree t k l n
      | Ordering.gt ↦ search_tree t k r n
      | Ordering.eq ↦ n
    ]
unfolding search_tree
search_node t k n l r last o e = ap (choose (search_tree t k l n) (search_tree t k r n) n) e
  where
    choose : ℕ → ℕ → ℕ → Ordering → ℕ
    choose lower upper same o = elim o [
      | Ordering.lt ↦ lower
      | Ordering.gt ↦ upper
      | Ordering.eq ↦ same
    ]

-- The search finds an entry of the tree by its key.
pub search_tree-In :
    (t : Table) (s : Tree) (m last : ℕ)
    → IsOrdered t s
    → In m s
    → search_tree t (key t m) s last ≡ m
search_tree-In t leaf m last o i = absurd i
search_tree-In t (node n l r) m last o (inl e) =
    search_node t (key t m) n l r last Ordering.eq (rw e (key_cmp_self (key t n))) ∙ sym e
search_tree-In t (node n l r) m last o (inr (inl i)) =
    search_node t (key t m) n l r last Ordering.lt (Every-In _ l m o.0 i)
    ∙ search_tree-In t l m n o.2 i
search_tree-In t (node n l r) m last o (inr (inr i)) =
    search_node t (key t m) n l r last Ordering.gt (Every-In _ r m o.1 i)
    ∙ search_tree-In t r m n o.3 i

-- A search that ends at `res` has found an entry of the tree with the key, or a missing link of
-- an entry, which is `last` if the tree is empty.
abbrev pub SearchResult : Table → Key → Tree → ℕ → ℕ → Type 0
SearchResult t k s last res =
    (In res s × (k ≡ key t res)) ⊎ ((x : ℕ) × ((x ≡ last) ⊎ In x s) × (res ≡ missing x))

lower_result :
    (t : Table) (k : Key) (n : ℕ) (l r : Tree) (last res : ℕ)
    → SearchResult t k l n res
    → SearchResult t k (node n l r) last res
lower_result t k n l r last res (inl (i, q)) = inl (inr (inl i), q)
lower_result t k n l r last res (inr (x, inl e, q)) = inr (x, inr (inl e), q)
lower_result t k n l r last res (inr (x, inr i, q)) = inr (x, inr (inr (inl i)), q)

upper_result :
    (t : Table) (k : Key) (n : ℕ) (l r : Tree) (last res : ℕ)
    → SearchResult t k r n res
    → SearchResult t k (node n l r) last res
upper_result t k n l r last res (inl (i, q)) = inl (inr (inr i), q)
upper_result t k n l r last res (inr (x, inl e, q)) = inr (x, inr (inl e), q)
upper_result t k n l r last res (inr (x, inr i, q)) = inr (x, inr (inr (inr i)), q)

pub search_tree-SearchResult :
    (t : Table) (k : Key) (s : Tree) (last : ℕ) → SearchResult t k s last (search_tree t k s last)
search_tree-SearchResult t k leaf last = inr (last, inl refl, search_leaf t k last)
search_tree-SearchResult t k (node n l r) last =
    go (key_cmp k (key t n)) refl (lower_result t k n l r last _ (search_tree-SearchResult t k l n))
      (upper_result t k n l r last _ (search_tree-SearchResult t k r n))
  where
    go :
        (o : Ordering)
        → key_cmp k (key t n) ≡ o
        → SearchResult t k (node n l r) last (search_tree t k l n)
        → SearchResult t k (node n l r) last (search_tree t k r n)
        → SearchResult t k (node n l r) last (search_tree t k (node n l r) last)
    go Ordering.lt e lo up =
        subst (SearchResult t k (node n l r) last) (sym (search_node t k n l r last Ordering.lt e))
          lo
    go Ordering.gt e lo up =
        subst (SearchResult t k (node n l r) last) (sym (search_node t k n l r last Ordering.gt e))
          up
    go Ordering.eq e lo up =
        subst (SearchResult t k (node n l r) last) (sym (search_node t k n l r last Ordering.eq e))
          (inl (inl refl, eq_of_key_cmp k (key t n) e))
