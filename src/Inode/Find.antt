-- ===== src/Inode/Find.antt =====
-- `find_path` searches the tree.
use Prim.Native.Nat.{Ordering}
use p4fuse.Base.{
  ℕ, zero, suc, ◌^◌, ◌<◌, ◌≤◌, ◌≡◌, ◌≢◌, refl, sym, ap, ◌∙◌, Bool, true, false, ≢→==, arith, Option,
  some, ◌==◌, inl, inr, if◌then◌else◌,
}
use p4fuse.Ring.{load}
use p4fuse.Inode.Store.{Ptr, Table, entry}
use p4fuse.Inode.Compare.{cmp_node, is_below}
use p4fuse.Inode.Key.{key, key_cmp, side, cmp_node-key_cmp, eq_of_key_cmp}
use p4fuse.Inode.SearchTree.{
  search_tree, search_leaf, search_node, search_tree-In, search_tree-SearchResult,
}
use p4fuse.Inode.Search.{find_loop, find_path, missing}
use p4fuse.Inode.Tree.{Tree, leaf, node, depth, Links, Every, In, IsKeyed, IsTable}

-- A three-way branch on the sign of a comparison.
pub branch {ℓ} :
    {A : Type ℓ} (c : ℕ) (o : Ordering) (same lower upper : A)
    → side c ≡ o
    → (if c == 0 then same else if is_below c then lower else upper)
      ≡ elim o [ Ordering.lt ↦ lower | Ordering.gt ↦ upper | Ordering.eq ↦ same ]
branch c Ordering.lt same lower upper h = ground arith
branch c Ordering.gt same lower upper h = ground arith
branch c Ordering.eq same lower upper h = ground arith

-- Going on to the child that the sign selects.
pub child_branch {ℓ} :
    {A : Type ℓ} (b : Bool) (left right : ℕ) (f : ℕ → A)
    → f (if b then left else right) ≡ (if b then f left else f right)
child_branch true left right f = refl
child_branch false left right f = refl

-- The same branch with the results on both sides under `some`.
some_branch :
    (o : Ordering) (a b : Option ℕ) (cur x y : ℕ)
    → a ≡ some x
    → b ≡ some y
    → elim o [ Ordering.lt ↦ a | Ordering.gt ↦ b | Ordering.eq ↦ some cur ]
      ≡ some (elim o [ Ordering.lt ↦ x | Ordering.gt ↦ y | Ordering.eq ↦ cur ])
some_branch Ordering.lt a b cur x y p q = p
some_branch Ordering.gt a b cur x y p q = q
some_branch Ordering.eq a b cur x y p q = refl

other_sides {ℓ} :
    {A : Type ℓ} (o : Ordering) (lower upper a b : A)
    → o ≢ Ordering.eq
    → ◌≡◌ {A = A}
        (elim o [ Ordering.lt ↦ lower | Ordering.gt ↦ upper | Ordering.eq ↦ a ])
        (elim o [ Ordering.lt ↦ lower | Ordering.gt ↦ upper | Ordering.eq ↦ b ])
other_sides Ordering.lt lower upper a b ne = refl
other_sides Ordering.gt lower upper a b ne = refl
other_sides Ordering.eq lower upper a b ne = absurd (ne refl)

module _ (t : Table) (parent : ℕ) (str : Ptr) (len : ℕ) (hp : parent < 2 ^ 31)
    (hl : len < 256) where
  -- What the loop does at a link of the entry `n`.
  abbrev pub go_on : ℕ → ℕ → ℕ → Option ℕ
  go_on fuel n at = if at == 0 then some (missing n) else find_loop t parent str len fuel at at

  -- One round of the loop branches on the order of the keys.
  pub find_loop_step :
      (fuel cur n : ℕ)
      → IsKeyed t n
      → find_loop t parent str len (suc fuel) cur n
        ≡ elim (key_cmp (parent, load str 0 len) (key t n)) [
          | Ordering.lt ↦ go_on fuel n (entry t n).left
          | Ordering.gt ↦ go_on fuel n (entry t n).right
          | Ordering.eq ↦ some cur
        ]
  unfolding find_loop
  find_loop_step fuel cur n k =
      ap (λ r. if c == 0 then some cur else r)
        (child_branch (is_below c) (entry t n).left (entry t n).right (go_on fuel n))
      ∙ branch c (key_cmp (parent, load str 0 len) (key t n)) (some cur)
          (go_on fuel n (entry t n).left) (go_on fuel n (entry t n).right)
          (cmp_node-key_cmp t n parent str len hp k.parent hl k.slen)
    where
      c : ℕ
      c = cmp_node t (entry t n) parent str len

  -- The value of `cur` is of no account where the entry's key is not the one that is searched.
  pub find_loop_cur :
      (fuel a b n : ℕ)
      → IsKeyed t n
      → (parent, load str 0 len) ≢ key t n
      → find_loop t parent str len (suc fuel) a n ≡ find_loop t parent str len (suc fuel) b n
  find_loop_cur fuel a b n k ne =
      find_loop_step fuel a n k
      ∙ other_sides (key_cmp (parent, load str 0 len) (key t n)) _ _ (some a) (some b)
          (λ e. ne (eq_of_key_cmp _ (key t n) e))
      ∙ sym (find_loop_step fuel b n k)

  -- Where a link leads to a tree, the rest of the walk returns what the search of the tree does.
  pub go_on-search_tree :
      (s : Tree) (fuel at last : ℕ)
      → Links t at s
      → Every (IsKeyed t) s
      → depth s ≤ fuel
      → go_on fuel last at ≡ some (search_tree t (parent, load str 0 len) s last)
  go_on-search_tree leaf fuel at last h k d = rw (h, search_leaf)
  go_on-search_tree (node n l r) zero at last h k d = absurd (omega arith)
  go_on-search_tree (node n l r) (suc fuel) at last h k d =
      rw (h.0, ≢→== n 0 h.1)
        (find_loop_step fuel n n k.0
          ∙ some_branch (key_cmp (parent, load str 0 len) (key t n)) _ _ n _ _
              (go_on-search_tree l fuel (entry t n).left n h.2 k.1 (omega arith))
              (go_on-search_tree r fuel (entry t n).right n h.3 k.2 (omega arith))
          ∙ ap some (sym (search_node t (parent, load str 0 len) n l r last _ refl)))

-- For a key that is not the root's, `find_path` is the search of the tree.
pub find_path-search_tree :
    (t : Table) (s : Tree) (parent : ℕ) (str : Ptr) (len : ℕ)
    → IsTable t s
    → parent < 2 ^ 31
    → len < 256
    → (parent, load str 0 len) ≢ key t 1
    → find_path t parent str len ≡ some (search_tree t (parent, load str 0 len) s 1)
unfolding find_path
find_path-search_tree t leaf parent str len v hp hl ne = absurd (omega (arith, v.links))
find_path-search_tree t (node n l r) parent str len v hp hl ne =
    find_loop_cur t parent str len hp hl 0xffff_ffff 0 1 1 root ne
    ∙ go_on-search_tree t parent str len hp hl (node n l r) (2 ^ 32) 1 1 v.links v.keyed v.shallow
  where
    root : IsKeyed t 1
    root = rw (v.links.0) v.keyed.0

-- LOOKUP of an entry: if the links of the table form an ordered search tree, no deeper than 2 ^ 32,
-- that holds an entry other than the root with the key, then `find_path` ends and returns its
-- index, for a parent below 2 ^ 31 and a name of at most 255 bytes.
pub find_path-In :
    (t : Table) (s : Tree) (m parent : ℕ) (str : Ptr) (len : ℕ)
    → IsTable t s
    → parent < 2 ^ 31
    → len < 256
    → In m s
    → key t m ≡ (parent, load str 0 len)
    → (parent, load str 0 len) ≢ key t 1
    → find_path t parent str len ≡ some m
find_path-In t s m parent str len v hp hl i e ne =
    find_path-search_tree t s parent str len v hp hl ne
    ∙ ap some (ap (λ k. search_tree t k s 1) (sym e) ∙ search_tree-In t s m 1 v.ordered i)

-- LOOKUP of no entry: if no entry of the ordered search tree has the key, then `find_path` ends and
-- returns the mark 1 << 32 with the index of an entry of the tree, for a parent below 2 ^ 31 and a
-- name of at most 255 bytes.
pub find_path_absent :
    (t : Table) (s : Tree) (parent : ℕ) (str : Ptr) (len : ℕ)
    → IsTable t s
    → parent < 2 ^ 31
    → len < 256
    → ((m : ℕ) → In m s → (parent, load str 0 len) ≢ key t m)
    → (x : ℕ) × In x s × (find_path t parent str len ≡ some (missing x))
find_path_absent t leaf parent str len v hp hl absent = absurd (omega (arith, v.links))
find_path_absent t (node n l r) parent str len v hp hl absent =
    elim (search_tree-SearchResult t (parent, load str 0 len) (node n l r) 1) [
      | inl (i, e) ↦ absurd (absent _ i e)
      | inr (x, inl e, q) ↦ (x, inl (e ∙ v.links.0), found ∙ ap some q)
      | inr (x, inr i, q) ↦ (x, i, found ∙ ap some q)
    ]
  where
    found :
        find_path t parent str len ≡ some (search_tree t (parent, load str 0 len) (node n l r) 1)
    found = find_path-search_tree t (node n l r) parent str len v hp hl (absent 1 (inl v.links.0))
