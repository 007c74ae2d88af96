-- ===== src/Client/Enter.antt =====
-- A name that is entered: the search, the new entry, its link and its fields, one after the other.
use Prim.Native.Nat.{Ordering}
use p4fuse.Base.{
  ℕ, ◌+◌, ◌<◌, ◌≤◌, ◌≡◌, ◌≢◌, refl, sym, ap, ◌∙◌, arith, Bool, true, false, if◌then◌else◌,
}
use p4fuse.Ring.{load}
use p4fuse.Inode.{Ptr, Table, Entry, entry, node_name}
use p4fuse.Inode.Compare.{is_below}
use p4fuse.Inode.Create.{link}
use p4fuse.Inode.Key.{side}
use p4fuse.Inode.Names.{IsArena}
use p4fuse.Inode.Created.{Created, entry-set_other, entry-set_same}
use p4fuse.Inode.Labels.{SameLabel, IsBelow, SameBytes}
use p4fuse.Client.{fill_entry}
use p4fuse.Client.Fill.{Filled, fill_entry-Filled}

-- What a sign says of the order.
pub below_of_lower : (c : ℕ) → side c ≡ Ordering.lt → is_below c ≡ true
below_of_lower c h = ground arith

pub not_below_of_upper : (c : ℕ) → side c ≡ Ordering.gt → is_below c ≡ false
not_below_of_upper c h = ground arith

-- The entry above the new one, with its new link.
unfoldable pub linked_entry : (b : Bool) (e : Entry) (id : ℕ) → Entry
linked_entry b e id = if b then record e { left = id } else record e { right = id }

pub SameLabel-linked : (b : Bool) (e : Entry) (id : ℕ) → SameLabel e (linked_entry b e id)
unfolding linked_entry
SameLabel-linked true e id = record { parent = refl; slen = refl; name = refl; name_offset = refl }
SameLabel-linked false e id = record { parent = refl; slen = refl; name = refl; name_offset = refl }

-- The table `t3` is `t` with a new entry `id` that is linked below `x`.
pub record Grown (t : Table) (id x : ℕ) (below : Bool) (parent : ℕ) (str : Ptr) (len : ℕ)
    (t3 : Table) : Type 0 where
  pub newest : t3.id ≡ id
  pub others : (m : ℕ) → m ≢ x → m ≢ id → entry t3 m ≡ entry t m
  pub above : entry t3 x ≡ linked_entry below (entry t x) id
  pub own_parent : (entry t3 id).parent ≡ parent
  pub own_slen : (entry t3 id).slen ≡ len
  pub own_left : (entry t3 id).left ≡ 0
  pub own_right : (entry t3 id).right ≡ 0
  pub own_name : load (node_name t3 (entry t3 id)) 0 len ≡ load str 0 len
  pub own_below : IsBelow (entry t3 id) t3.str_arena.cur
  pub arena : IsArena t3.str_arena
  pub cur : t.str_arena.cur ≤ t3.str_arena.cur
  pub top : t3.str_arena.cur ≤ t.str_arena.cur + len
  pub bytes : SameBytes t.str_arena t3.str_arena t.str_arena.cur

module _ (t : Table) (id x c parent : ℕ) (is_dir : Bool) (str : Ptr) (len : ℕ) (small : len < 256)
    (v : IsArena t.str_arena) (apart : x ≢ id) where
  -- `new_inode`, the link and the fields make such a table.
  pub fill_entry-Grown :
      (t1 : Table)
      → Created t id len t1
      → Grown t id x
          (is_below c)
          parent
          str
          len
          (fill_entry (link t1 x c id) id parent is_dir str len)
  unfolding linked_entry
  fill_entry-Grown t1 m =
      grown _ (fill_entry-Filled t2 id parent is_dir str len t.str_arena.cur small place)
    where
      t2 : Table
      t2 = link t1 x c id

      own : entry t2 id ≡ entry t1 id
      own = entry-set_other t1 x _ id (λ e. apart (sym e))

      place :
          8 < len
          → (t.str_arena.cur ≤ (entry t2 id).name_offset)
            × ((entry t2 id).name_offset + len ≤ t2.str_arena.allocsz)
      place h = rw own ((m.place h).0, omega (arith, (m.place h).1, m.arena.cur))

      grown :
          (t3 : Table)
          → Filled t2 id parent str len t.str_arena.cur t3
          → Grown t id x (is_below c) parent str len t3
      grown t3 f = record {
        newest = f.newest ∙ m.newest;
        others = λ n nx ni. f.others n ni ∙ entry-set_other t1 x _ n nx ∙ m.others n ni;
        above =
            f.others x apart
            ∙ entry-set_same t1 x _
            ∙ ap (λ e. linked_entry (is_below c) e id) (m.others x apart);
        own_parent = f.parent_is;
        own_slen = f.slen;
        own_left = f.left;
        own_right = f.right;
        own_name = f.name;
        own_below = λ h. rw (f.name_offset, own, f.slen, f.cur) ((m.place (rw f.slen at h)).1);
        arena = record {
          order = m.arena.order;
          allocsz = f.allocsz ∙ m.arena.allocsz;
          least = rw f.allocsz m.arena.least;
          most = rw f.allocsz m.arena.most;
          head = f.head ∙ m.arena.head;
          cur = rw (f.cur, f.allocsz) m.arena.cur;
        };
        cur = rw f.cur m.cur;
        top = rw f.cur m.top;
        bytes = record {
          old_top = omega (arith, v.cur);
          new_top = omega (arith, m.cur, m.arena.cur, f.allocsz);
          bytes = λ i k. f.bytes i k ∙ ap (λ b. b i) m.bytes;
        };
      }
