-- ===== src/Client/Stores.antt =====
-- A table that has grown by an entry at the place of its key is a store again.
use Prim.Native.Nat.{Ordering}
use mathlib.Core.Path.{subst}
use p4fuse.Base.{
  ℕ, ◌+◌, ◌^◌, ◌<◌, ◌≡◌, ◌≢◌, refl, sym, ap, ◌∙◌, inl, inr, arith, Bool, true, false, ◌==◌, ==-refl,
  ==→≡, if◌then◌else◌, Bool-cases,
}
use p4fuse.Ring.{load}
use p4fuse.Inode.{Ptr, Table, entry, node_name}
use p4fuse.Inode.Key.{key, key_cmp}
use p4fuse.Inode.Tree.{Tree, node, Every-In}
use p4fuse.Inode.Insertion.{
  Insertion, Insertion-Every, Insertion-size, SameKeys, Insertion-IsOrdered,
}
use p4fuse.Inode.Relink.{Relinked, Insertion-Links, above_node}
use p4fuse.Inode.Labels.{SameLabel, key-SameLabel}
use p4fuse.Inode.Invariant.{IsEntry, IsStore, Every-map}
use p4fuse.Client.Enter.{Grown, linked_entry, SameLabel-linked}

module _ (t : Table) (n : ℕ) (l r s' : Tree) (v : IsStore t (node n l r)) (high : t.id + 1 < 2 ^ 32)
    (x parent : ℕ) (below : Bool) (str : Ptr) (len : ℕ) (hp : parent < 2 ^ 31) (small : len < 256)
    (t3 : Table) (g : Grown t (t.id + 1) x below parent str len t3)
    (i : Insertion t (parent, load str 0 len) (t.id + 1) 0 (node n l r) s' x) where
  not_new : (m : ℕ) → IsEntry t m → m ≢ t.id + 1
  not_new m e q = omega (arith, e.given)

  pub above_is_old : IsEntry t x
  above_is_old = Every-In (IsEntry t) (node n l r) x v.entries (above_node i)

  label : (m : ℕ) → m ≢ t.id + 1 → SameLabel (entry t m) (entry t3 m)
  label m ne = elim (Bool-cases (m == x)) [
    | inl e ↦
        subst (λ y. SameLabel (entry t y) (entry t3 y)) (sym (==→≡ m x e))
          (subst (SameLabel (entry t x)) (sym g.above)
            (SameLabel-linked below (entry t x) (t.id + 1)))
    | inr e ↦
        subst (SameLabel (entry t m)) (sym (g.others m (λ q. cc (e, q, ==-refl m)) ne))
          (record { parent = refl; slen = refl; name = refl; name_offset = refl })
  ]

  old_key : (m : ℕ) → IsEntry t m → key t3 m ≡ key t m
  old_key m e = key-SameLabel t t3 m t.str_arena.cur (label m (not_new m e)) e.below g.bytes

  pub own_key : key t3 (t.id + 1) ≡ (parent, load str 0 len)
  own_key = λ j.
      (g.own_parent j, (ap (load (node_name t3 (entry t3 (t.id + 1))) 0) g.own_slen ∙ g.own_name) j)

  pub keys : SameKeys t t3 (node n l r)
  keys = Every-map old_key (node n l r) v.entries

  old-IsEntry : (m : ℕ) → IsEntry t m → IsEntry t3 m
  old-IsEntry m e = record {
    keyed = record { parent = rw (same.parent) e.keyed.parent; slen = rw (same.slen) e.keyed.slen };
    given = omega (arith, e.given, g.newest);
    below =
        λ h. rw (same.name_offset, same.slen) (omega (arith, e.below (rw same.slen at h), g.cur));
  }
    where
      same : SameLabel (entry t m) (entry t3 m)
      same = label m (not_new m e)

  own-IsEntry : IsEntry t3 (t.id + 1)
  own-IsEntry = record {
    keyed = record { parent = rw g.own_parent hp; slen = rw g.own_slen small };
    given = omega (arith, g.newest);
    below = g.own_below;
  }

  links_of : Relinked t t3 x (t.id + 1) below
  unfolding linked_entry
  links_of = record {
    others = λ m a b. (ap (λ e. e.left) (g.others m a b), ap (λ e. e.right) (g.others m a b));
    left = ap (λ e. e.left) g.above ∙ left_of below;
    right = ap (λ e. e.right) g.above ∙ right_of below;
    new_left = g.own_left;
    new_right = g.own_right;
  }
    where
      left_of :
          (b : Bool)
          → (linked_entry b (entry t x) (t.id + 1)).left
            ≡ (if b then t.id + 1 else (entry t x).left)
      left_of true = refl
      left_of false = refl

      right_of :
          (b : Bool)
          → (linked_entry b (entry t x) (t.id + 1)).right
            ≡ (if b then (entry t x).right else t.id + 1)
      right_of true = refl
      right_of false = refl

  pub Grown-IsStore :
      (key_cmp (parent, load str 0 len) (key t x) ≡ Ordering.lt → below ≡ true)
      → (key_cmp (parent, load str 0 len) (key t x) ≡ Ordering.gt → below ≡ false)
      → IsStore t3 s'
  Grown-IsStore is_lower is_upper = record {
    links =
        Insertion-Links t t3 (parent, load str 0 len) (t.id + 1) (λ e. omega (arith, e)) x below
          links_of is_lower is_upper 1 i (Every-map not_new (node n l r) v.entries) v.ordered
          v.links;
    entries =
        Insertion-Every (IsEntry t3) i own-IsEntry (Every-map old-IsEntry (node n l r) v.entries);
    ordered = Insertion-IsOrdered t t3 i own_key keys v.ordered;
    counted = omega (arith, Insertion-size i, v.counted, g.newest);
    ids = omega (arith, high, g.newest);
    arena = g.arena;
    used = omega (arith, g.top, v.used, g.newest, small);
    unused = λ m h.
        rw ((label m (λ q. omega (arith, q, h, g.newest))).slen)
          (v.unused m (omega (arith, h, g.newest)));
    last = rw g.newest (g.own_left, g.own_right);
  }
