-- ===== src/Older/Relist.antt =====
-- diff.cpp, `OutputInfo`: a directory that is listed again.
use p4fuse.Base.{
  ℕ, ◌+◌, ◌^◌, ◌<◌, ◌≤◌, ◌≡◌, refl, ◌∙◌, inl, inr, arith, Bool, true, some, List, drop, length, ptr,
  u8, leb, ==-refl, Bool-cases,
}
use p4fuse.Ring.{load}
use p4fuse.Inode.{Ptr, Table, entry, set_node_name}
use p4fuse.Inode.Create.{find_or_insert_path}
use p4fuse.Inode.Key.{key}
use p4fuse.Inode.Tree.{Tree, In, Every-In, IsTable}
use p4fuse.Inode.Walk.{walk_on-In}
use p4fuse.Inode.Invariant.{IsEntry, IsStore, IsStore-IsTable}
use p4fuse.Client.{CType, Session}
use p4fuse.Client.View.{view, view-In}
use p4fuse.Older.Client.{is_current, reset_entry, older_name_line}

-- The name in a line about a directory.
abbrev pub line_name : Session → List ℕ → List ℕ
line_name s line = drop (4 + s.user.len) line

-- A copied name leaves the links and the other entries.
set_node_name-links :
    (t : Table) (m : ℕ) (str : Ptr) (len : ℕ)
    → ((entry (set_node_name t m str len) m).left ≡ (entry t m).left)
      × ((entry (set_node_name t m str len) m).right ≡ (entry t m).right)
unfolding set_node_name
set_node_name-links t m str len = elim (Bool-cases (leb (entry t m).slen 8)) [
  | inl e ↦ rw (e, ==-refl m) (refl, refl)
  | inr e ↦ rw e (refl, refl)
]

-- An entry of the table's generation gives up its links.
reset_entry-links :
    (t : Table) (m id : ℕ) (is_dir : Bool)
    → m ≤ t.id
    → (entry t m).gen ≡ t.gen
    → ((entry (reset_entry t m id is_dir) m).left ≡ 0)
      × ((entry (reset_entry t m id is_dir) m).right ≡ 0)
unfolding reset_entry
reset_entry-links t m id is_dir given gen = rw (current, ==-refl m) (refl, refl)
  where
    current : is_current t m ≡ true
    current = ground arith

-- A listing of the older daemon that names a directory again cuts off the entries below it in the
-- search tree: if the inode store holds the name of a line of level '1' of a listing of directories,
-- of at most 255 bytes and below a directory below 2 ^ 31, under the index `m`, and that entry has the
-- table's generation, then the method takes that entry and sets both its links to 0.
pub older_name_line-In :
    (s : Session) (tree : Tree) (line : List ℕ) (m : ℕ)
    → IsStore s.table tree
    → s.user.kind ≡ CType.dirs
    → s.user.id < 2 ^ 31
    → length (line_name s line) < 256
    → view s.table tree (s.user.id, load (ptr (line_name s line)) 0 (length (line_name s line)))
      ≡ some m
    → (entry s.table m).gen ≡ s.table.gen
    → (s' : Session) × (older_name_line b'1' line s ≡ some s')
      × (s'.user.node ≡ m)
      × ((entry s'.table m).left ≡ 0)
      × ((entry s'.table m).right ≡ 0)
unfolding older_name_line find_or_insert_path
older_name_line-In s tree line m v kind hp small held gen = (
  s',
  is_line,
  refl,
  (set_node_name-links t' m (ptr d) (length d)).0 ∙ reset.0,
  (set_node_name-links t' m (ptr d) (length d)).1 ∙ reset.1,
)
  where
    d : List ℕ
    d = line_name s line

    is_held : In m tree × (key s.table m ≡ (s.user.id, load (ptr d) 0 (length d)))
    is_held = view-In s.table (s.user.id, load (ptr d) 0 (length d)) m tree held

    is_table : IsTable s.table tree
    is_table = IsStore-IsTable s.table tree v

    found : find_or_insert_path s.table s.user.id (ptr d) (length d) ≡ some (m, s.table)
    found =
        walk_on-In s.table s.user.id (ptr d) (length d) hp small (2 ^ 32) 0 1 m tree is_held.0
          is_held.1 is_table.links is_table.keyed is_table.ordered is_table.shallow

    t' : Table
    t' = reset_entry s.table m s.user.id true

    s' : Session
    s' = record s {
      user = record (s.user) { node = m };
      table = set_node_name t' m (ptr d) (length d);
    }

    old : IsEntry s.table m
    old = Every-In (IsEntry s.table) tree m v.entries is_held.0

    reset : ((entry t' m).left ≡ 0) × ((entry t' m).right ≡ 0)
    reset = reset_entry-links s.table m s.user.id true old.given gen

    whole : u8 (length d) ≡ length d
    whole = omega arith

    is_line : older_name_line b'1' line s ≡ some s'
    is_line = rw (kind) (rw (whole, found) refl)
