-- ===== src/Client.antt =====
-- main.cpp, `MyClientUser`: what the daemon does with the output of a Perforce command. The client
-- library calls the methods below for each line or chunk of output, in order.
pub mod Laws
pub mod Fill
pub mod Enter
pub mod Stores
pub mod View
pub mod Insert
pub mod Lookup
pub mod Refill
pub mod Keeping
pub mod Lines
pub mod Lists
pub mod Named
pub mod Given
pub mod Syncs
use p4fuse.Base.{
  ℕ, ◌+◌, ◌-◌, ℤ, Bool, true, false, ◌&&◌, ◌||◌, not, Option, none, some, List, [], ◌∷◌, length,
  leb, ltb, drop, u8, ◌==◌, if◌then◌else◌, is_negative, codes, starts_with, ptr, scan_u64,
}
use p4fuse.Buffer.{Chunk, alloc_chunk}
use p4fuse.Inode.{Ptr, Entry, Table, entry, set_entry, set_node_name}
use p4fuse.Inode.Create.{find_or_insert_path}

-- `ctype_e`
pub data CType : Type 0 where
  dirs files file change changes sync : CType

-- The members of `MyClientUser`. `name` is its buffer of 4096 bytes.
pub record ClientUser : Type 0 where
  pub kind : CType
  pub err : ℤ
  pub len : ℕ
  pub id : ℕ
  pub node : ℕ
  pub name : Ptr
  pub nameid : ℕ

-- What the methods work on: the object and the globals `table` and `cur_sz`.
pub record Session : Type 0 where
  pub user : ClientUser
  pub table : Table
  pub cur_sz : ℕ

-- A call that the client library makes: `OutputInfo(level, data)`, `OutputText(test, len)` or
-- `OutputBinary(test, len)`.
pub data Output : Type 0 where
  info : ℕ → List ℕ → Output
  text : List ℕ → Output
  binary : List ℕ → Output

abbrev pub is_dirs : CType → Bool
is_dirs CType.dirs = true
is_dirs _ = false

abbrev pub is_files : CType → Bool
is_files CType.files = true
is_files _ = false

-- A part of a method: whether the method goes on behind it, and the state then. `none` is a fault.
abbrev pub Part : Type 0
Part = Option (Bool × Session)

-- The fields that a new entry gets, in the order of the source; its name follows its length.
unfoldable pub fill_entry : Table → ℕ → ℕ → Bool → Ptr → ℕ → Table
fill_entry t node id is_dir name nameid =
    set_node_name
      (set_entry t node (record (entry t node) {
        b_list = false;
        parent = id;
        b_dir = is_dir;
        b_sym = false;
        left = 0;
        right = 0;
        slen = u8 nameid;
      }))
      node name nameid

-- The name's length is cut to the 8 bits of `slen`, and the copy is not: where the cut length says
-- that the name stands in the entry, the copy of the whole name runs over the entries behind it.
abbrev pub overruns : ℕ → Bool
overruns nameid = leb (u8 nameid) 8 && ltb 255 nameid

-- Behind the search of the name: the method returns if the entry is not the newest one. A copy that
-- overruns the entry is a fault.
abbrev pub entered : Bool → Session → Option (ℕ × Table) → Part
entered is_dir s none = none
entered is_dir s (some (node, t)) =
    if not (node == t.id)
    then some (false, record s { table = t })
    else if overruns s.user.nameid
    then none
    else some (
      true,
      record s {
        table = fill_entry t node s.user.id is_dir s.user.name s.user.nameid;
        user = record (s.user) { node = node };
      },
    )

-- The block that enters `name` below the directory `id`, if the table does not hold it yet.
unfoldable pub enter_name : Bool → Session → Part
enter_name is_dir s =
    entered is_dir s (find_or_insert_path s.table s.user.id s.user.name (u8 s.user.nameid))

-- `if(this->node == 0) { … }` of the lines about a file
abbrev pub enter_file : Session → Part
enter_file s = if s.user.node == 0 then enter_name false s else some (true, s)

-- Goes on with the next part, unless the method has returned.
infixl 5 ◌then_part◌
abbrev pub ◌then_part◌ : Part → (Session → Part) → Part
none then_part f = none
some (true, s) then_part f = f s
some (false, s) then_part f = some (false, s)

-- The test of the first `if`: the line names a directory or a file.
abbrev pub is_name : CType → ℕ → List ℕ → Bool
is_name kind level line =
    is_dirs kind && level == b'1'
    || is_files kind && level == b'1' && starts_with line (codes "depotFile ")

-- Where the directory's path starts in the line.
abbrev pub path_offset : CType → ℕ
path_offset kind = if is_dirs kind then 4 else 10

-- The copy of the name `d`, behind the `n` first bytes of the line, to the 4096 bytes of `name`: a
-- line that ends before the name, and a name that is longer, are faults.
abbrev pub with_copy : ℕ → List ℕ → List ℕ → Part → Part
with_copy n line d part = if ltb (length line) n || ltb 4096 (length d) then none else part

-- The first `if`.
unfoldable pub name_line : ℕ → List ℕ → Session → Part
name_line level line s =
    if is_name s.user.kind level line
    then (let n = path_offset s.user.kind + s.user.len in
        let d = drop n line in
        let s' = record s {
          user = record (s.user) { name = ptr d; nameid = length d; node = 0 };
        } in
        with_copy n line d (if is_dirs s.user.kind then enter_name true s' else some (true, s')))
    else some (true, s)

-- `table->entries[this->node]` with another size or symlink mark
abbrev pub set_size : Session → ℕ → Session
set_size s size = record s {
  table = set_entry s.table s.user.node (record (entry s.table s.user.node) { size = size });
}

-- `sscanf(data, "fileSize %llu", &size)` stores nothing where there is no number.
abbrev pub store_size : Session → Option ℕ → Session
store_size s none = s
store_size s (some n) = set_size s n

abbrev pub set_sym : Session → Bool → Session
set_sym s b_sym = record s {
  table = set_entry s.table s.user.node (record (entry s.table s.user.node) { b_sym = b_sym });
}

-- The second `if`: the size of a file.
unfoldable pub size_line : ℕ → List ℕ → Session → Part
size_line level line s =
    if is_files s.user.kind && level == b'1' && starts_with line (codes "fileSize ")
    then (enter_file s then_part λ s'. some (true, store_size s' (scan_u64 (drop 9 line))))
    else some (true, s)

-- The third `if`: the type of a file.
unfoldable pub type_line : ℕ → List ℕ → Session → Part
type_line level line s =
    if is_files s.user.kind && level == b'1' && starts_with line (codes "headType ")
    then (enter_file s then_part λ s'.
        some (true, set_sym s' (starts_with (drop 9 line) (codes "symlink"))))
    else some (true, s)

-- The session when a method ends, by `return` or at its end.
abbrev pub ended : Part → Option Session
ended none = none
ended (some (going, s)) = some s

-- `OutputInfo(level, data)`
unfoldable pub output_info : ℕ → List ℕ → Session → Option Session
output_info level line s =
    if is_negative s.user.err
    then some s
    else ended
        (name_line level line s then_part size_line level line then_part type_line level line)

-- A copy to the chunk; one to NULL is a fault.
abbrev pub copied : Session → Chunk → Option Session
copied s palloc = elim (palloc.res) [
  | none ↦ none
  | some at ↦ some (record s { cur_sz = palloc.cur_sz })
]

-- `OutputText` and `OutputBinary`: a copy to a NULL chunk is a fault.
unfoldable pub output_text : List ℕ → Session → Option Session
output_text test s =
    if length test == 0 then some s else copied s (alloc_chunk s.cur_sz (length test) 1)

unfoldable pub output : Output → Session → Option Session
output (info level line) s = output_info level line s
output (text test) s = output_text test s
output (binary test) s = output_text test s

-- `p4c.Run(command, &p4u)`, for the output that the server makes of the command.
unfoldable pub run_outputs : List Output → Session → Option Session
run_outputs [] s = some s
run_outputs (o ∷ os) s = elim (output o s) [ none ↦ none | some s' ↦ run_outputs os s' ]
