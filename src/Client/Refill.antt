-- ===== src/Client/Refill.antt =====
-- A name that is entered again under the newest index.
use native.Mathlib.Nat.{mod-eq_of_lt}
use mathlib.Core.Path.{subst}
use p4fuse.Base.{
  ℕ, ◌+◌, ◌%◌, ◌<◌, ◌≤◌, ◌≡◌, refl, sym, ap, ◌∙◌, inl, inr, arith, Bool, true, false, leb, ◌==◌,
  ==-refl, ==→≡, Bool-cases,
}
use p4fuse.Ring.{load}
use p4fuse.Inode.{Ptr, Table, entry, node_name}
use p4fuse.Inode.Copies.{load-length, load-bytes, copy_bytes-same, copy_arena-same}
use p4fuse.Inode.Key.{key}
use p4fuse.Inode.Names.{IsArena}
use p4fuse.Inode.Labels.{SameLabel}
use p4fuse.Inode.Invariant.{IsEntry}
use p4fuse.Inode.Alike.{Alike}
use p4fuse.Client.{fill_entry}
use p4fuse.Client.Fill.{Filled, fill_entry-Filled, is_short, is_long, short_own, long_own}

module _ (t : Table) (m parent : ℕ) (is_dir : Bool) (str : Ptr) (len : ℕ) (small : len < 256)
    (v : IsArena t.str_arena) (e : IsEntry t m) (same : key t m ≡ (parent, load str 0 len))
    (left : (entry t m).left ≡ 0) (right : (entry t m).right ≡ 0) where
  same_length : (entry t m).slen ≡ len
  same_length =
      load-length (node_name t (entry t m)) str 0 (entry t m).slen len (ap (λ k. k.1) same)

  same_bytes : (i : ℕ) → i < len → node_name t (entry t m) i ≡ str i
  same_bytes i h =
      load-bytes (node_name t (entry t m)) str 0 len
        (ap (load (node_name t (entry t m)) 0) (sym same_length) ∙ ap (λ k. k.1) same) i
        (omega arith) (omega arith)

  end : 8 < len → (entry t m).name_offset + len ≤ t.str_arena.cur
  end h = rw same_length at (e.below (rw same_length h))

  place :
      8 < len
      → (0 ≤ (entry t m).name_offset) × ((entry t m).name_offset + len ≤ t.str_arena.allocsz)
  place h = (omega arith, omega (arith, end h, v.cur))

  abbrev pub after : Table
  after = fill_entry t m parent is_dir str len

  filled : Filled t m parent str len 0 after
  filled = fill_entry-Filled t m parent is_dir str len 0 small place

  -- Neither the short name nor the arena changes.
  names :
      ((entry after m).name ≡ (entry t m).name)
      × ((p : ℕ) → p < t.str_arena.cur → after.str_arena.bytes p ≡ t.str_arena.bytes p)
  names = elim (Bool-cases (leb len 8)) [
    | inl h ↦ (
      ap (λ x. (entry x m).name) (is_short t m parent is_dir str len 0 small place h)
          ∙ ap (λ x. x.name) (short_own t m parent is_dir str len 0 small place)
          ∙ copy_bytes-same (entry t m).name str len (λ i k. short_bytes h i k),
      λ p k. ap (λ x. x.str_arena.bytes p) (is_short t m parent is_dir str len 0 small place h),
    )
    | inr h ↦ (
      ap (λ x. (entry x m).name) (is_long t m parent is_dir str len 0 small place h)
          ∙ ap (λ x. x.name) (long_own t m parent is_dir str len 0 small place),
      λ p k.
          ap (λ x. x.str_arena.bytes p) (is_long t m parent is_dir str len 0 small place h)
          ∙ copy_arena-same t.str_arena (entry t m).name_offset str len ((place (is_over h)).1)
              (omega (arith, (place (is_over h)).1, is_over h)) (long_bytes h) p
              (omega (arith, v.cur)),
    )
  ]
    where
      is_over : leb len 8 ≡ false → 8 < len
      is_over h = ground arith

      short_bytes : leb len 8 ≡ true → (i : ℕ) → i < len → (entry t m).name i ≡ str i
      short_bytes h i k = rw (same_length, h) at (same_bytes i k)

      long_bytes :
          leb len 8 ≡ false
          → (i : ℕ) → i < len
          → t.str_arena.bytes ((entry t m).name_offset + i) ≡ str i
      long_bytes h i k = rw (same_length, h, in_arena) at (same_bytes i k)
        where
          in_arena :
              ((entry t m).name_offset + i) % t.str_arena.allocsz ≡ (entry t m).name_offset + i
          in_arena = mod-eq_of_lt (omega (arith, (place (is_over h)).1))

  label : (n : ℕ) → SameLabel (entry t n) (entry after n)
  label n = elim (Bool-cases (n == m)) [
    | inl q ↦
        subst (λ y. SameLabel (entry t y) (entry after y)) (sym (==→≡ n m q))
          (record {
            parent = filled.parent_is ∙ sym (ap (λ k. k.0) same);
            slen = filled.slen ∙ sym same_length;
            name = names.0;
            name_offset = filled.name_offset;
          })
    | inr q ↦
        subst (SameLabel (entry t n)) (sym (filled.others n (λ f. cc (q, f, ==-refl n))))
          (record { parent = refl; slen = refl; name = refl; name_offset = refl })
  ]

  links :
      (n : ℕ)
      → ((entry after n).left ≡ (entry t n).left) × ((entry after n).right ≡ (entry t n).right)
  links n = elim (Bool-cases (n == m)) [
    | inl q ↦
        subst
          (λ y.
            ((entry after y).left ≡ (entry t y).left) × ((entry after y).right ≡ (entry t y).right))
          (sym (==→≡ n m q)) (filled.left ∙ sym left, filled.right ∙ sym right)
    | inr q ↦ (
      ap (λ x. x.left) (filled.others n (λ f. cc (q, f, ==-refl n))),
      ap (λ x. x.right) (filled.others n (λ f. cc (q, f, ==-refl n))),
    )
  ]

  pub fill_entry-Alike : Alike t after
  fill_entry-Alike = record {
    id = filled.newest;
    labels = label;
    left = λ n. (links n).0;
    right = λ n. (links n).1;
    arena = record {
      order = v.order;
      allocsz = filled.allocsz ∙ v.allocsz;
      least = rw filled.allocsz v.least;
      most = rw filled.allocsz v.most;
      head = filled.head ∙ v.head;
      cur = rw (filled.cur, filled.allocsz) v.cur;
    };
    cur = filled.cur;
    bytes = record {
      old_top = omega (arith, v.cur);
      new_top = rw filled.allocsz (omega (arith, v.cur));
      bytes = names.1;
    };
  }
