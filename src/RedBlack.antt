-- ===== src/RedBlack.antt =====
-- inode.hpp and inode.cpp: the inode tree as a red-black tree, as far as it is written: the entry's
-- name, the comparison of keys and the rotation. `find_or_insert_path` and what stands around it do
-- not compile there.
pub mod Compare
pub mod Turned
pub mod Rotation
use p4fuse.Base.{
  ℕ, zero, suc, ◌+◌, ◌^◌, ℤ, Bool, Option, none, some, leb, ◌==◌, sub32, sub64, min, if◌then◌else◌,
}
use p4fuse.Inode.{Ptr}

-- `inode_entry_t` of inode.hpp; `name` is its union with `name_offset`.
pub record InodeEntry : Type 0 where
  pub name_offset : ℕ
  pub name : Ptr
  pub parent : ℕ
  pub slen : ℕ
  pub f_type : ℕ
  pub b_black : Bool
  pub state : ℕ
  pub gen : ℕ
  pub size : ℕ
  pub left : ℕ
  pub right : ℕ
  pub opened_file : ℤ
  pub refcnt : ℕ

-- `inode_table_t` of inode.hpp, with the bytes of its arena, and the slot of the root.
pub record InodeTable : Type 0 where
  pub bytes : Ptr
  pub entries : ℕ → InodeEntry
  pub root : ℕ

-- `inode_name`
abbrev pub inode_name : InodeTable → InodeEntry → Ptr
inode_name t e = if leb e.slen 8 then e.name else λ i. t.bytes (e.name_offset + i)

-- `for (u64 i = 0; i < nlen; i++)` with `n` rounds left: the value that the loop returns.
abbrev pub str_loop : Ptr → Ptr → ℕ → ℕ → Option ℕ
str_loop name str zero i = none
str_loop name str (suc n) i =
    let rest = str_loop name str n (i + 1) in
    if str i == name i then rest else some (sub64 (str i) (name i))

-- `inode_str_cmp`: the pattern of its `s64` result. The parents are of 32 bits without a sign, and so
-- is their difference.
unfoldable pub inode_str_cmp : InodeTable → InodeEntry → Ptr → ℕ → ℕ → ℕ
inode_str_cmp t e str len parent =
    if parent == e.parent
    then elim (str_loop (inode_name t e) str (min len e.slen) 0) [
      | some c ↦ c
      | none ↦ sub64 len e.slen
    ]
    else sub32 parent e.parent

-- `u32 *`: a link of the tree.
pub data Slot : Type 0 where
  at_root : Slot
  left_of right_of : ℕ → Slot

abbrev pub read_slot : InodeTable → Slot → ℕ
read_slot t at_root = t.root
read_slot t (left_of n) = (t.entries n).left
read_slot t (right_of n) = (t.entries n).right

abbrev pub set_inode : InodeTable → ℕ → InodeEntry → InodeTable
set_inode t n e = record t { entries = λ m. if m == n then e else t.entries m }

abbrev pub write_slot : InodeTable → Slot → ℕ → InodeTable
write_slot t at_root id = record t { root = id }
write_slot t (left_of n) id = set_inode t n (record (t.entries n) { left = id })
write_slot t (right_of n) id = set_inode t n (record (t.entries n) { right = id })

-- `do_rotation(table, par_slot, dir)`
unfoldable pub do_rotation : InodeTable → Slot → Bool → InodeTable
do_rotation t par_slot dir =
    let par = read_slot t par_slot in
    let ch_slot = if dir then left_of par else right_of par in
    let ch = read_slot t ch_slot in
    let gc_slot = if dir then right_of ch else left_of ch in
    let gc = read_slot t gc_slot in
    write_slot (write_slot (write_slot t par_slot ch) gc_slot par) ch_slot gc
