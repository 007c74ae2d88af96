-- ===== src/Older/Client.antt =====
-- diff.cpp, `MyClientUser`: a line of output enters its name at once, and later lines find the
-- entry in `node`.
use p4fuse.Base.{
  ℕ, ◌+◌, Bool, false, ◌&&◌, ◌||◌, Option, none, some, List, [], ◌∷◌, length, drop, u8, ltb, leb,
  ◌==◌, if◌then◌else◌, is_negative, codes, starts_with, ptr, scan_u64,
}
use p4fuse.Inode.{Table, entry, set_entry, set_node_name}
use p4fuse.Inode.Create.{find_or_insert_path}
use p4fuse.Client.{Session, Output, info, text, binary, is_dirs, is_files, store_size, output_text}

-- The test for an entry of this generation. The generation of an entry has 16 bits, and the
-- addition is one of an `int`.
abbrev pub is_current : Table → ℕ → Bool
is_current t node =
    leb node t.id && (entry t node).gen == t.gen || ltb t.id node && (entry t node).gen + 1 == t.gen

-- The entry's fields: also those of an entry that was found, links included.
unfoldable pub reset_entry : Table → ℕ → ℕ → Bool → Table
reset_entry t node id is_dir =
    if is_current t node
    then set_entry t node
        (record (entry t node) { b_list = false; parent = id; b_dir = is_dir; left = 0; right = 0 })
    else t

-- `this->node = node`, and the name's copy.
abbrev pub enter_line : Session → List ℕ → Option (ℕ × Table) → Option Session
enter_line s d none = none
enter_line s d (some (node, t)) = some (record s {
  user = record (s.user) { node = node };
  table =
      set_node_name (reset_entry t node s.user.id (is_dirs s.user.kind)) node (ptr d) (length d);
})

-- The first `if`: the line names a directory or a file.
unfoldable pub older_name_line : ℕ → List ℕ → Session → Option Session
older_name_line level line s =
    if is_dirs s.user.kind && level == b'1'
      || is_files s.user.kind && level == b'1' && starts_with line (codes "depotFile ")
    then (let d = drop ((if is_dirs s.user.kind then 4 else 10) + s.user.len) line in
        enter_line s d (find_or_insert_path s.table s.user.id (ptr d) (u8 (length d))))
    else some s

-- The last `if`: the size of the entry of the last name.
unfoldable pub older_size_line : ℕ → List ℕ → Session → Session
older_size_line level line s =
    if is_files s.user.kind && level == b'1' && starts_with line (codes "fileSize ")
    then store_size s (scan_u64 (drop 9 line))
    else s

-- `OutputInfo(level, data)`
unfoldable pub older_output_info : ℕ → List ℕ → Session → Option Session
older_output_info level line s =
    if is_negative s.user.err then some s else elim (older_name_line level line s) [
      | none ↦ none
      | some s' ↦ some (older_size_line level line s')
    ]

-- `OutputText` and `OutputBinary` are those of main.cpp.
unfoldable pub older_output : Output → Session → Option Session
older_output (info level line) s = older_output_info level line s
older_output (text test) s = output_text test s
older_output (binary test) s = output_text test s

unfoldable pub older_run_outputs : List Output → Session → Option Session
older_run_outputs [] s = some s
older_run_outputs (o ∷ os) s = elim (older_output o s) [
  | none ↦ none
  | some s' ↦ older_run_outputs os s'
]
