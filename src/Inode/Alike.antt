-- ===== src/Inode/Alike.antt =====
-- Changes of a table that the searches do not see.
use mathlib.Core.Path.{subst}
use p4fuse.Base.{ℕ, ◌≡◌, refl, sym, inl, inr, arith, ◌==◌, ==-refl, ==→≡, Bool-cases}
use p4fuse.Inode.Store.{Table, Entry, entry, set_entry}
use p4fuse.Inode.Key.{key}
use p4fuse.Inode.Tree.{Tree, leaf, node, Links}
use p4fuse.Inode.Insertion.{SameKeys, IsOrdered-SameKeys}
use p4fuse.Inode.Names.{IsArena}
use p4fuse.Inode.Labels.{SameLabel, SameBytes, key-SameLabel}
use p4fuse.Inode.Invariant.{IsEntry, IsStore, Every-map}

-- The same names, parents and links, and the same used part of the arena.
pub record Alike (t t' : Table) : Type 0 where
  pub id : t'.id ≡ t.id
  pub labels : (m : ℕ) → SameLabel (entry t m) (entry t' m)
  pub left : (m : ℕ) → (entry t' m).left ≡ (entry t m).left
  pub right : (m : ℕ) → (entry t' m).right ≡ (entry t m).right
  pub arena : IsArena t'.str_arena
  pub cur : t'.str_arena.cur ≡ t.str_arena.cur
  pub bytes : SameBytes t.str_arena t'.str_arena t.str_arena.cur

module _ (t t' : Table) (a : Alike t t') where
  Links-Alike : (at : ℕ) (s : Tree) → Links t at s → Links t' at s
  Links-Alike at leaf h = h
  Links-Alike at (node n l r) h = (
    h.0,
    h.1,
    rw (a.left n) (Links-Alike (entry t n).left l h.2),
    rw (a.right n) (Links-Alike (entry t n).right r h.3),
  )

  key-Alike : (m : ℕ) → IsEntry t m → key t' m ≡ key t m
  key-Alike m e = key-SameLabel t t' m t.str_arena.cur (a.labels m) e.below a.bytes

  IsEntry-Alike : (m : ℕ) → IsEntry t m → IsEntry t' m
  IsEntry-Alike m e = record {
    keyed = record { parent = rw same.parent e.keyed.parent; slen = rw same.slen e.keyed.slen };
    given = rw (a.id) e.given;
    below = λ h. rw (same.name_offset, same.slen, a.cur) (e.below (rw same.slen at h));
  }
    where
      same : SameLabel (entry t m) (entry t' m)
      same = a.labels m

  pub SameKeys-Alike : (s : Tree) → IsStore t s → SameKeys t t' s
  SameKeys-Alike s v = Every-map key-Alike s v.entries

  pub IsStore-Alike : (s : Tree) → IsStore t s → IsStore t' s
  IsStore-Alike s v = record {
    links = Links-Alike 1 s v.links;
    entries = Every-map IsEntry-Alike s v.entries;
    ordered = IsOrdered-SameKeys t t' s (SameKeys-Alike s v) v.ordered;
    counted = rw a.id v.counted;
    ids = rw a.id v.ids;
    arena = a.arena;
    used = rw (a.id, a.cur) v.used;
    unused = λ n h. rw ((a.labels n).slen) (v.unused n (rw a.id at h));
    last = rw (a.id, a.left t.id, a.right t.id) v.last;
  }

-- An entry with another size, mark or file.
pub set_entry-Alike :
    (t : Table) (n : ℕ) (e : Entry)
    → IsArena t.str_arena
    → SameLabel (entry t n) e
    → e.left ≡ (entry t n).left
    → e.right ≡ (entry t n).right
    → Alike t (set_entry t n e)
set_entry-Alike t n e v label left right = record {
  id = refl;
  labels = λ m. (all m).0;
  left = λ m. (all m).1;
  right = λ m. (all m).2;
  arena = v;
  cur = refl;
  bytes = record {
    old_top = omega (arith, v.cur);
    new_top = omega (arith, v.cur);
    bytes = λ i h. refl;
  };
}
  where
    all :
        (m : ℕ)
        → SameLabel (entry t m) (entry (set_entry t n e) m)
          × ((entry (set_entry t n e) m).left ≡ (entry t m).left)
          × ((entry (set_entry t n e) m).right ≡ (entry t m).right)
    all m = elim (Bool-cases (m == n)) [
      | inl q ↦
          subst
            (λ y.
              SameLabel (entry t y) (entry (set_entry t n e) y)
              × ((entry (set_entry t n e) y).left ≡ (entry t y).left)
              × ((entry (set_entry t n e) y).right ≡ (entry t y).right))
            (sym (==→≡ m n q)) (rw (==-refl n) (label, left, right))
      | inr q ↦
          rw q (record { parent = refl; slen = refl; name = refl; name_offset = refl }, refl, refl)
    ]
