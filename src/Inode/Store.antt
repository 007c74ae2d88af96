-- ===== src/Inode/Store.antt =====
-- inode_store.cpp: `inode_entry_t`, `arena_t`, `inode_table_t` and `node_name`.
use p4fuse.Base.{ℕ, ◌+◌, ◌-◌, ◌%◌, ℤ, Bool, ltb, leb, ◌==◌, ◌&&◌, if◌then◌else◌}

-- `u8 *`: the byte at each index.
abbrev pub Ptr : Type 0
Ptr = ℕ → ℕ

-- `inode_entry_t`. Of the union, `slen` says which member is in use.
pub record Entry : Type 0 where
  pub name_offset : ℕ
  pub name : Ptr
  pub parent : ℕ
  pub slen : ℕ
  pub b_dir : Bool
  pub b_sym : Bool
  pub b_black : Bool
  pub b_list : Bool
  pub gen : ℕ
  pub size : ℕ
  pub left : ℕ
  pub right : ℕ
  pub opened_file : ℤ
  pub refcnt : ℕ

-- `arena_t`. The storage is mapped twice in a row, so an index is taken modulo `allocsz`.
pub record Arena : Type 0 where
  pub bytes : Ptr
  pub head : ℕ
  pub cur : ℕ
  pub allocsz : ℕ

-- `inode_table_t`, without the descriptors of its two backing files.
pub record Table : Type 0 where
  pub id : ℕ
  pub total_inodes : ℕ
  pub gen : ℕ
  pub str_arena : Arena
  pub entries : ℕ → Entry

-- `&table->entries[node]`
abbrev pub entry : Table → ℕ → Entry
entry t node = t.entries node

-- `node_name(table, entry)`
abbrev pub node_name : Table → Entry → Ptr
node_name t e = if leb e.slen 8 then e.name else λ i.
    t.str_arena.bytes ((e.name_offset + i) % t.str_arena.allocsz)

-- `table->entries[node] = e`
abbrev pub set_entry : Table → ℕ → Entry → Table
set_entry t node e = record t { entries = λ n. if n == node then e else t.entries n }

-- `__builtin_memcpy(dst, src, n)`, as the bytes that stand at `dst` afterwards.
abbrev pub copy_bytes : Ptr → Ptr → ℕ → Ptr
copy_bytes dst src n i = if ltb i n then src i else dst i

-- The arena's storage after `n` bytes of `src` are copied to the offset `at` of its double mapping.
abbrev pub copy_arena : Arena → ℕ → Ptr → ℕ → Ptr
copy_arena a at src n p =
    let i = (p + a.allocsz - at % a.allocsz) % a.allocsz in
    if ltb i n && ltb p a.allocsz then src i else a.bytes p

-- `__builtin_memcpy(node_name(table, ent), str, len)` for the entry `node`.
unfoldable pub set_node_name : Table → ℕ → Ptr → ℕ → Table
set_node_name t node str len =
    let e = entry t node in
    if leb e.slen 8
    then set_entry t node (record e { name = copy_bytes e.name str len })
    else record t {
      str_arena = record (t.str_arena) { bytes = copy_arena t.str_arena e.name_offset str len };
    }
