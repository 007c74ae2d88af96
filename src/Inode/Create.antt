-- ===== src/Inode/Create.antt =====
-- inode_store.cpp: `next_id`, `new_inode`, `find_or_insert_path` and `init_table`.
use p4fuse.Base.{
  ℕ, zero, suc, ◌*◌, ◌^◌, true, false, Option, none, some, pos, ltb, leb, ◌==◌, ◌&&◌, not, add32,
  u8, u16, u32, add64, if◌then◌else◌,
}
use p4fuse.Inode.Store.{Ptr, Entry, Arena, Table, entry, set_entry}
use p4fuse.Inode.Compare.{cmp_node, is_below}
use p4fuse.Inode.Search.{child}
use p4fuse.Inode.Arena.{alloc_name}

-- `RESERVED_INODES`
abbrev pub reserved_inodes : ℕ
reserved_inodes = 2

-- `next_id`: the loop runs until the counter leaves the reserved ids, at most three rounds.
abbrev pub next_lid : ℕ → ℕ → ℕ
next_lid zero id = id
next_lid (suc fuel) id =
    let lid = add32 id 1 in
    let again = next_lid fuel lid in if ltb lid reserved_inodes then again else lid

unfoldable pub next_id : Table → ℕ × Table
next_id tab =
    let lid = next_lid 3 tab.id in
    (
      lid,
      record tab { id = lid; gen = if lid == reserved_inodes then add32 tab.gen 1 else tab.gen },
    )

-- The table's file is doubled when the new id is behind its end.
unfoldable pub grow_table : Table → ℕ → Table
grow_table table id =
    if leb table.total_inodes id && not (table.total_inodes == 0)
    then record table { total_inodes = u32 (table.total_inodes * 2) }
    else table

-- A reused entry gives the bytes of its long name back (`free_fn`, which is `gc_node`, does
-- nothing).
unfoldable pub free_name : Table → ℕ → ℕ → Table
free_name table id gen =
    let ent = entry table id in
    if not (gen == 0) && ltb 8 ent.slen
    then record table {
      str_arena = record (table.str_arena) { head = add64 table.str_arena.head ent.slen };
    }
    else table

-- `ent->name_offset = offs - table->str_arena.data`
abbrev pub put_name : Table → ℕ → Option (ℕ × Arena) → Option Table
put_name table id none = none
put_name table id (some (offs, arena)) = some (
    set_entry (record table { str_arena = arena }) id
      (record (entry table id) { name_offset = offs }))

-- A name of more than 8 bytes gets a place in the arena; `none` if that never succeeds.
unfoldable pub place_name : Table → ℕ → ℕ → Option Table
place_name table id name_len =
    if ltb 8 name_len
    then put_name table id (alloc_name 65 table.str_arena name_len)
    else some table

-- `ent->gen = gen; ent->slen = name_len; return id;`
abbrev pub label_inode : ℕ → ℕ → ℕ → Option Table → Option (ℕ × Table)
label_inode id gen name_len none = none
label_inode id gen name_len (some t) =
    some (id, set_entry t id (record (entry t id) { gen = u16 gen; slen = u8 name_len }))

-- `new_inode<free_fn>(table, name_len)`
unfoldable pub new_inode : Table → ℕ → Option (ℕ × Table)
new_inode table name_len =
    let (id, t) = next_id table in
    label_inode id t.gen name_len (place_name (free_name (grow_table t id) id t.gen) id name_len)

-- `if(cc < 0) ent->left = id; else ent->right = id;`
abbrev pub link : Table → ℕ → ℕ → ℕ → Table
link t node cc id = set_entry t node (
    if is_below cc
    then record (entry t node) { left = id }
    else record (entry t node) { right = id })

-- The new entry is linked below the last one of the walk.
abbrev pub link_new : ℕ → ℕ → Option (ℕ × Table) → Option (ℕ × Table)
link_new node cc none = none
link_new node cc (some (id, t)) = some (id, link t node cc id)

module _ (parent : ℕ) (str : Ptr) (len : ℕ) where
  -- The loop of `find_or_insert_path`, with `ent` at the entry `node`.
  unfoldable pub insert_loop : ℕ → Table → ℕ → ℕ → Option (ℕ × Table)
  insert_loop zero t cur node = none
  insert_loop (suc fuel) t cur node =
      let cc = cmp_node t (entry t node) parent str len in
      let next = child (entry t node) cc in
      let rest = insert_loop fuel t next next in
      if cc == 0
      then some (cur, t)
      else if next == 0
      then link_new node cc (new_inode t len)
      else rest

-- `find_or_insert_path<gc_node>(table, parent, str, len)`
unfoldable pub find_or_insert_path : Table → ℕ → Ptr → ℕ → Option (ℕ × Table)
find_or_insert_path t parent str len = insert_loop parent str len (2 ^ 32) t 1 1

-- An entry whose bytes are all zero.
abbrev pub zero_entry : Entry
zero_entry = record {
  name_offset = 0;
  name = λ i. 0;
  parent = 0;
  slen = 0;
  b_dir = false;
  b_sym = false;
  b_black = false;
  b_list = false;
  gen = 0;
  size = 0;
  left = 0;
  right = 0;
  opened_file = pos 0;
  refcnt = 0;
}

-- What `init_table` sets of the root, entry 1: it is the directory "/" with no parent and no links.
-- All else stays as it stood in the file.
abbrev pub root_entry : Entry → Entry
root_entry ent = record ent {
  name = λ i. if i == 0 then b'/' else ent.name i;
  parent = 0;
  slen = 1;
  b_dir = true;
  gen = 0;
  left = 0;
  right = 0;
}

-- `init_table`: `held` and `chars` are what the two files hold once `ftruncate` gave them their
-- sizes, which is 0 where a file had no bytes before.
unfoldable pub init_table : (ℕ → Entry) → (ℕ → ℕ) → ℕ → ℕ → ℕ → ℕ → Table
init_table held chars id gen inodes arenasz = record {
  id = id;
  total_inodes = inodes;
  gen = gen;
  str_arena = record { bytes = chars; head = 0; cur = 0; allocsz = arenasz };
  entries = λ n. if n == 1 then root_entry (held 1) else held n;
}
