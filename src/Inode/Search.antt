-- ===== src/Inode/Search.antt =====
-- inode_store.cpp: `find_path` and `find_all_with_parent`, walks down the tree from entry 1.
-- A walk takes fuel for the nodes it visits; `none` means that the fuel ran out. The table has at
-- most 2 ^ 32 entries, so that is the fuel of a whole search.
use p4fuse.Base.{
  ℕ, zero, suc, ◌^◌, ◌++◌, Option, none, some, List, [], ◌∷◌, ltb, ◌==◌, bit_or, if◌then◌else◌,
}
use p4fuse.Inode.Store.{Ptr, Entry, Table, entry}
use p4fuse.Inode.Compare.{cmp_node, is_below}

-- The child that a walk goes on to.
abbrev pub child : Entry → ℕ → ℕ
child e cc = if is_below cc then e.left else e.right

-- `(1llu << 32) | (ent - table->entries)`: no entry has the key; its place is under `node`.
abbrev pub missing : ℕ → ℕ
missing node = bit_or (2 ^ 32) node

module _ (t : Table) (parent : ℕ) (str : Ptr) (len : ℕ) where
  -- The loop of `find_path`, with `ent` at the entry `node`.
  unfoldable pub find_loop : ℕ → ℕ → ℕ → Option ℕ
  find_loop zero cur node = none
  find_loop (suc fuel) cur node =
      let cc = cmp_node t (entry t node) parent str len in
      let next = child (entry t node) cc in
      let rest = find_loop fuel next next in
      if cc == 0 then some cur else if next == 0 then some (missing node) else rest

  unfoldable pub find_path : Option ℕ
  find_path = find_loop (2 ^ 32) 0 1

-- Both lists of results, if neither walk ran out of fuel.
abbrev pub both : Option (List ℕ) → Option (List ℕ) → Option (List ℕ)
both none b = none
both (some xs) none = none
both (some xs) (some ys) = some (xs ++ ys)

-- `find_all_with_parent`: the entries that `fn` is called on, in order.
module _ (t : Table) (parent : ℕ) where
  unfoldable pub find_all_with_parent : ℕ → ℕ → Option (List ℕ)
  find_all_with_parent zero node = none
  find_all_with_parent (suc fuel) node =
      let ent = entry t node in
      let lefts = if ent.left == 0 then some [] else find_all_with_parent fuel ent.left in
      let rights = if ent.right == 0 then some [] else find_all_with_parent fuel ent.right in
      if ent.parent == parent
      then both (both (some (node ∷ [])) lefts) rights
      else if ltb ent.parent parent
      then rights
      else lefts
