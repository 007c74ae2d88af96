-- ===== src/Client/Fill.antt =====
-- The fields and the name that a new entry gets.
use native.Mathlib.Nat.{mod-eq_of_lt}
use mathlib.Core.Path.{subst}
use p4fuse.Base.{
  ℕ, ◌+◌, ◌%◌, ◌<◌, ◌≤◌, ◌≡◌, ◌≢◌, refl, sym, ap, ◌∙◌, inl, inr, arith, Bool, true, false, leb,
  ==-refl, u8, Bool-cases,
}
use p4fuse.Ring.{load}
use p4fuse.Inode.{
  Ptr, Table, Entry, entry, set_entry, set_node_name, node_name, copy_bytes, copy_arena,
}
use p4fuse.Inode.Created.{entry-set_other, entry-set_same}
use p4fuse.Inode.Labels.{load-ext, copy_arena-below, copy_arena-inside}
use p4fuse.Client.{fill_entry}

-- The entry `id` has the name, the parent and no children; the bytes below `top` are not changed.
pub record Filled (t : Table) (id parent : ℕ) (str : Ptr) (len top : ℕ) (t' : Table) : Type 0 where
  pub newest : t'.id ≡ t.id
  pub others : (m : ℕ) → m ≢ id → entry t' m ≡ entry t m
  pub parent_is : (entry t' id).parent ≡ parent
  pub slen : (entry t' id).slen ≡ len
  pub left : (entry t' id).left ≡ 0
  pub right : (entry t' id).right ≡ 0
  pub name_offset : (entry t' id).name_offset ≡ (entry t id).name_offset
  pub name : load (node_name t' (entry t' id)) 0 len ≡ load str 0 len
  pub allocsz : t'.str_arena.allocsz ≡ t.str_arena.allocsz
  pub head : t'.str_arena.head ≡ t.str_arena.head
  pub cur : t'.str_arena.cur ≡ t.str_arena.cur
  pub bytes : (i : ℕ) → i < top → t'.str_arena.bytes i ≡ t.str_arena.bytes i

module _ (t : Table) (id parent : ℕ) (is_dir : Bool) (str : Ptr) (len top : ℕ) (small : len < 256)
    (place : 8 < len
      → (top ≤ (entry t id).name_offset)
        × ((entry t id).name_offset + len ≤ t.str_arena.allocsz)) where
  abbrev pub fields : Entry
  fields = record (entry t id) {
    b_list = false;
    parent = parent;
    b_dir = is_dir;
    b_sym = false;
    left = 0;
    right = 0;
    slen = u8 len;
  }

  abbrev pub short_entry : Entry
  short_entry = record fields { name = copy_bytes fields.name str len }

  -- The two ways in which the name is stored.
  abbrev pub short_table : Table
  short_table = set_entry (set_entry t id fields) id short_entry

  abbrev pub long_table : Table
  long_table = record (set_entry t id fields) {
    str_arena = record (t.str_arena) {
      bytes = copy_arena t.str_arena (entry t id).name_offset str len;
    };
  }

  full_length : u8 len ≡ len
  full_length = omega arith

  pub is_short : leb len 8 ≡ true → fill_entry t id parent is_dir str len ≡ short_table
  unfolding fill_entry set_node_name
  is_short h = rw (==-refl id, full_length, h) refl

  pub is_long : leb len 8 ≡ false → fill_entry t id parent is_dir str len ≡ long_table
  unfolding fill_entry set_node_name
  is_long h = rw (==-refl id, full_length, h) refl

  -- The entry in each of them.
  pub short_own : entry short_table id ≡ short_entry
  short_own = entry-set_same (set_entry t id fields) id short_entry

  pub long_own : entry long_table id ≡ fields
  long_own = entry-set_same t id fields

  short-Filled : leb len 8 ≡ true → Filled t id parent str len top short_table
  short-Filled h = record {
    newest = refl;
    others = λ m n.
        entry-set_other (set_entry t id fields) id short_entry m n
        ∙ entry-set_other t id fields m n;
    parent_is = ap (λ e. e.parent) short_own;
    slen = ap (λ e. e.slen) short_own ∙ full_length;
    left = ap (λ e. e.left) short_own;
    right = ap (λ e. e.right) short_own;
    name_offset = ap (λ e. e.name_offset) short_own;
    name =
        subst (λ e. load (node_name short_table e) 0 len ≡ load str 0 len) (sym short_own) copied;
    allocsz = refl;
    head = refl;
    cur = refl;
    bytes = λ i k. refl;
  }
    where
      copied : load (node_name short_table short_entry) 0 len ≡ load str 0 len
      copied =
          rw (full_length, h)
            (load-ext (copy_bytes fields.name str len) str 0 len (λ i k m. ground arith))

  long-Filled : leb len 8 ≡ false → Filled t id parent str len top long_table
  long-Filled h = record {
    newest = refl;
    others = λ m n. entry-set_other t id fields m n;
    parent_is = ap (λ e. e.parent) long_own;
    slen = ap (λ e. e.slen) long_own ∙ full_length;
    left = ap (λ e. e.left) long_own;
    right = ap (λ e. e.right) long_own;
    name_offset = ap (λ e. e.name_offset) long_own;
    name = subst (λ e. load (node_name long_table e) 0 len ≡ load str 0 len) (sym long_own) copied;
    allocsz = refl;
    head = refl;
    cur = refl;
    bytes = λ i k.
        copy_arena-below t.str_arena off str len i (omega (arith, bounds.0))
          (omega (arith, bounds.1, long_name)) bounds.1;
  }
    where
      long_name : 8 < len
      long_name = ground arith

      off : ℕ
      off = (entry t id).name_offset

      bounds : (top ≤ off) × (off + len ≤ t.str_arena.allocsz)
      bounds = place long_name

      read :
          (i : ℕ)
          → i < len
          → copy_arena t.str_arena off str len ((off + i) % t.str_arena.allocsz) ≡ str i
      read i k =
          ap (copy_arena t.str_arena off str len)
            (mod-eq_of_lt {n = off + i} {m = t.str_arena.allocsz} (omega (arith, bounds.1)))
          ∙ copy_arena-inside t.str_arena off str len i k bounds.1

      copied : load (node_name long_table fields) 0 len ≡ load str 0 len
      copied = rw (full_length, h) (load-ext _ str 0 len (λ i k m. read i (omega arith)))

  -- Both ways fill the entry.
  pub fill_entry-Filled : Filled t id parent str len top (fill_entry t id parent is_dir str len)
  fill_entry-Filled = elim (Bool-cases (leb len 8)) [
    | inl h ↦ subst (Filled t id parent str len top) (sym (is_short h)) (short-Filled h)
    | inr h ↦ subst (Filled t id parent str len top) (sym (is_long h)) (long-Filled h)
  ]
