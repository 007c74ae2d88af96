-- ===== src/Inode/Bounds.antt =====
-- No operation of the table stores a name length of more than 8 bits.
use p4fuse.Base.{
  ℕ, zero, suc, ◌^◌, ◌<◌, ◌≡◌, refl, ◌∙◌, arith, Bool, Option, none, some, ◌==◌, ltb, if◌then◌else◌,
  Bool-cases, inl, inr, true, false,
}
use p4fuse.Inode.Store.{Ptr, Entry, Arena, Table, entry, set_entry, set_node_name}
use p4fuse.Inode.Compare.{cmp_node}
use p4fuse.Inode.Search.{child}
use p4fuse.Inode.Arena.{alloc_name}
use p4fuse.Inode.Create.{
  next_id, grow_table, free_name, put_name, place_name, label_inode, new_inode, link_new,
  insert_loop, find_or_insert_path,
}

-- Every entry's length fits its field.
abbrev pub IsSmall : Table → Type 0
IsSmall t = (n : ℕ) → (entry t n).slen < 256

abbrev pub IsSmallResult : Option (ℕ × Table) → Type 0
IsSmallResult none = Unit
IsSmallResult (some (id, t)) = IsSmall t

pub set_entry-IsSmall :
    (t : Table) (node : ℕ) (e : Entry) → IsSmall t → e.slen < 256 → IsSmall (set_entry t node e)
set_entry-IsSmall t node e s h n = ground (arith, s n)

pub set_node_name-IsSmall :
    (t : Table) (node : ℕ) (str : Ptr) (len : ℕ)
    → IsSmall t
    → IsSmall (set_node_name t node str len)
unfolding set_node_name
set_node_name-IsSmall t node str len s n = ground (arith, s n, s node)

abbrev IsSmallTable : Option Table → Type 0
IsSmallTable none = Unit
IsSmallTable (some t) = IsSmall t

put_name-IsSmall :
    (t : Table) (id : ℕ) (placed : Option (ℕ × Arena))
    → IsSmall t
    → IsSmallTable (put_name t id placed)
put_name-IsSmall t id none s = tt
put_name-IsSmall t id (some (offs, arena)) s =
    set_entry-IsSmall (record t { str_arena = arena }) id
      (record (entry t id) { name_offset = offs }) s (s id)

place_name-IsSmall : (t : Table) (id len : ℕ) → IsSmall t → IsSmallTable (place_name t id len)
unfolding place_name
place_name-IsSmall t id len s = elim (Bool-cases (ltb 8 len)) [
  | inl long ↦ rw long (put_name-IsSmall t id (alloc_name 65 t.str_arena len) s)
  | inr short ↦ rw short s
]

label_inode-IsSmall :
    (id gen len : ℕ) (t : Option Table) → IsSmallTable t → IsSmallResult (label_inode id gen len t)
label_inode-IsSmall id gen len none s = tt
label_inode-IsSmall id gen len (some t) s = set_entry-IsSmall t id _ s (omega arith)

-- Only `entries` matters, which the counters' updates leave alone.
entries-next_id : (t : Table) → (next_id t).1.entries ≡ t.entries
unfolding next_id
entries-next_id t = refl

entries-grow_table : (t : Table) (id : ℕ) → (grow_table t id).entries ≡ t.entries
unfolding grow_table
entries-grow_table t id = ground arith

entries-free_name : (t : Table) (id gen : ℕ) → (free_name t id gen).entries ≡ t.entries
unfolding free_name
entries-free_name t id gen = ground arith

-- The table on which the new entry is placed has the old entries.
pub entries_before :
    (t : Table) (id gen : ℕ) → (free_name (grow_table (next_id t).1 id) id gen).entries ≡ t.entries
entries_before t id gen = entries-free_name _ id gen ∙ entries-grow_table _ id ∙ entries-next_id t

new_inode-IsSmall : (t : Table) (len : ℕ) → IsSmall t → IsSmallResult (new_inode t len)
unfolding new_inode
new_inode-IsSmall t len s = label_inode-IsSmall id gen len _ (place_name-IsSmall _ id len before)
  where
    id : ℕ
    id = (next_id t).0

    gen : ℕ
    gen = (next_id t).1.gen

    before : IsSmall (free_name (grow_table (next_id t).1 id) id gen)
    before n = rw (entries_before t id gen) (s n)

link_new-IsSmall :
    (node cc : ℕ) (made : Option (ℕ × Table))
    → IsSmallResult made
    → IsSmallResult (link_new node cc made)
link_new-IsSmall node cc none s = tt
link_new-IsSmall node cc (some (id, t)) s = λ n. ground (arith, s n, s node)

insert_loop-IsSmall :
    (parent : ℕ) (str : Ptr) (len fuel : ℕ) (t : Table) (cur node : ℕ)
    → IsSmall t
    → IsSmallResult (insert_loop parent str len fuel t cur node)
unfolding insert_loop
insert_loop-IsSmall parent str len zero t cur node s = tt
insert_loop-IsSmall parent str len (suc fuel) t cur node s =
    choose (cmp_node t (entry t node) parent str len == 0)
      (child (entry t node) (cmp_node t (entry t node) parent str len) == 0) _ _ _ s
      (link_new-IsSmall node _ _ (new_inode-IsSmall t len s))
      (insert_loop-IsSmall parent str len fuel t _ _ s)
  where
    choose :
        (a b : Bool) (x y z : Option (ℕ × Table))
        → IsSmallResult x
        → IsSmallResult y
        → IsSmallResult z
        → IsSmallResult (if a then x else if b then y else z)
    choose true b x y z p q r = p
    choose false true x y z p q r = q
    choose false false x y z p q r = r

-- Every table that `find_or_insert_path` returns has name lengths below 256, if the table before
-- has: also one that was grown, and whatever length is asked for.
pub find_or_insert_path-IsSmall :
    (t : Table) (parent : ℕ) (str : Ptr) (len : ℕ)
    → IsSmall t
    → IsSmallResult (find_or_insert_path t parent str len)
unfolding find_or_insert_path
find_or_insert_path-IsSmall t parent str len s = insert_loop-IsSmall parent str len (2 ^ 32) t 1 1 s
