-- ===== src/Inode/Invariant.antt =====
-- The invariant of the inode store.
use p4fuse.Base.{ℕ, ◌≡◌, refl, ≢→==, ◌*◌, ◌^◌, ◌<◌, ◌≤◌, arith}
use p4fuse.Inode.Store.{Entry, Table, entry}
use p4fuse.Inode.Create.{init_table}
use p4fuse.Inode.Tree.{Tree, leaf, node, depth, size, Links, Every, IsOrdered, IsKeyed, IsTable}
use p4fuse.Inode.Names.{IsArena}
use p4fuse.Inode.Labels.{IsBelow}

-- What holds of every entry of the tree: its key is one that is compared exactly, its index was
-- given out, and a long name stands in the used part of the arena.
pub record IsEntry (t : Table) (n : ℕ) : Type 0 where
  pub keyed : IsKeyed t n
  pub given : n ≤ t.id
  pub below : IsBelow (entry t n) t.str_arena.cur

-- The links of the table form the ordered search tree `s` of the entries that were given out, and
-- the names of these stand in the arena.
pub record IsStore (t : Table) (s : Tree) : Type 0 where
  pub links : Links t 1 s
  pub entries : Every (IsEntry t) s
  pub ordered : IsOrdered t s
  pub counted : size s ≤ t.id
  pub ids : t.id < 2 ^ 32
  pub arena : IsArena t.str_arena
  -- every entry has used at most 255 bytes of the arena
  pub used : t.str_arena.cur ≤ t.id * 255
  -- an entry that was not given out has no long name
  pub unused : (n : ℕ) → t.id < n → (entry t n).slen ≤ 8
  -- nothing is below the newest entry
  pub last : ((entry t t.id).left ≡ 0) × ((entry t t.id).right ≡ 0)

pub depth-le-size : (s : Tree) → depth s ≤ size s
depth-le-size leaf = omega arith
depth-le-size (node n l r) = ground (arith, depth-le-size l, depth-le-size r)

pub Every-map : {P Q : ℕ → Type 0} → ((n : ℕ) → P n → Q n) → (s : Tree) → Every P s → Every Q s
Every-map f leaf h = tt
Every-map f (node n l r) h = (f n h.0, Every-map f l h.1, Every-map f r h.2)

-- A store is a table that the searches are proved for.
pub IsStore-IsTable : (t : Table) (s : Tree) → IsStore t s → IsTable t s
IsStore-IsTable t s v = record {
  links = v.links;
  keyed = Every-map (λ n e. e.keyed) s v.entries;
  ordered = v.ordered;
  shallow = omega (arith, v.counted, v.ids, depth-le-size s);
}

-- The table that `init_table` makes with its default arguments of files whose entries behind the
-- root have no long name, as in new ones, is an inode store, which holds the root alone.
pub init_table-IsStore :
    (held : ℕ → Entry) (chars : ℕ → ℕ) (gen inodes : ℕ)
    → ((n : ℕ) → 1 < n → (held n).slen ≤ 8)
    → IsStore (init_table held chars 1 gen inodes (2 ^ 16)) (node 1 leaf leaf)
unfolding init_table
init_table-IsStore held chars gen inodes short = record {
  links = omega arith;
  entries = (
    record {
      keyed = record { parent = omega arith; slen = omega arith };
      given = omega arith;
      below = λ h. omega (arith, h);
    },
    tt,
    tt,
  );
  ordered = (tt, tt, tt, tt);
  counted = omega arith;
  ids = omega arith;
  arena = record {
    order = 16;
    allocsz = refl;
    least = omega arith;
    most = omega arith;
    head = refl;
    cur = omega arith;
  };
  used = omega arith;
  unused = λ n h. rw (≢→== n 1 (λ e. omega (arith, e, h))) (short n h);
  last = (refl, refl);
}
