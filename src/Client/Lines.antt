-- ===== src/Client/Lines.antt =====
-- What one line of a listing keeps of the table.
use mathlib.Core.Path.{subst}
use p4fuse.Base.{
  sym, ◌≤◌, le→ltb, ℕ, ◌+◌, ◌^◌, ◌<◌, ◌≡◌, refl, inl, inr, arith, Bool, true, false, Option, some,
  none, List, length, drop, ◌==◌, ◌&&◌, if◌then◌else◌, Bool-cases, ptr, scan_u64, starts_with,
  codes,
}
use p4fuse.Inode.{Entry, entry, set_entry}
use p4fuse.Inode.Key.{Key}
use p4fuse.Inode.Labels.{SameLabel}
use p4fuse.Inode.Alike.{set_entry-Alike}
use p4fuse.Client.{
  CType, is_name, path_offset, with_copy, ClientUser, Session, Part, Output, info, is_dirs,
  is_files, enter_name, enter_file, name_line, size_line, type_line, store_size, set_sym,
  ◌then_part◌,
}
use p4fuse.Client.Keeping.{
  Keeping, KeepingPart, Keeping-le, Keeping-Alike, then_part-KeepingPart, enter_name-KeepingPart,
}

-- The name behind the first `n` bytes of a line: the line has these bytes, and the name at most 255.
abbrev pub HasName : Bool → ℕ → List ℕ → Type 0
HasName true n line = (n ≤ length line) × (length (drop n line) < 256)
HasName false n line = Unit

-- A line of a listing: if it gives a name, it reaches the end of the directory's path of `len` bytes,
-- and the name behind that has at most 255 bytes.
abbrev pub IsLine : CType → ℕ → Output → Type 0
IsLine kind len (info level line) = HasName (is_name kind level line) (path_offset kind + len) line
IsLine kind len _ = ⊥

-- The copy of such a name is no fault.
pub copied_name :
    (n : ℕ) (line : List ℕ) (p : Part) → HasName true n line → with_copy n line (drop n line) p ≡ p
copied_name n line p h =
    rw (le→ltb (length line) n h.0, le→ltb 4096 (length (drop n line)) (omega (arith, h.1))) refl

-- The session with the name that a line gives.
abbrev pub with_name : Session → List ℕ → Session
with_name s d = record s { user = record (s.user) { name = ptr d; nameid = length d; node = 0 } }

module _ (k : Key) (m : ℕ) (u : ClientUser) (bound : ℕ) (room : bound + 1 < 2 ^ 32) where
  if_KeepingPart :
      (b : Bool) (p q : Part)
      → KeepingPart k m u (bound + 1) p
      → KeepingPart k m u (bound + 1) q
      → KeepingPart k m u (bound + 1) (if b then p else q)
  if_KeepingPart true p q h g = h
  if_KeepingPart false p q h g = g

  -- The name of a line, kept in the object.
  pub named :
      (s : Session) (d : List ℕ)
      → length d < 256
      → Keeping k m u bound s
      → Keeping k m u bound
          (record s { user = record (s.user) { name = ptr d; nameid = length d; node = 0 } })
  named s d h g = record {
    tree = g.tree;
    store = g.store;
    held = g.held;
    parent = g.parent;
    name = h;
    line = g.line;
    dir = g.dir;
    kind = g.kind;
    err = g.err;
    ids = g.ids;
  }

  same : (s : Session) → Keeping k m u bound s → KeepingPart k m u (bound + 1) (some (true, s))
  same s g = (true, s, refl, Keeping-le k m u (omega arith) g)

  named_line :
      (s : Session) (d : List ℕ) (b : Bool)
      → length d < 256
      → Keeping k m u bound s
      → KeepingPart k m u
          (bound + 1)
          (if b then enter_name true (with_name s d) else some (true, with_name s d))
  named_line s d true h g =
      enter_name-KeepingPart k m u bound (with_name s d) true (named s d h g) room
  named_line s d false h g = same (with_name s d) (named s d h g)

  pub name_line-KeepingPart :
      (s : Session) (level : ℕ) (line : List ℕ)
      → IsLine u.kind u.len (info level line)
      → Keeping k m u bound s
      → KeepingPart k m u (bound + 1) (name_line level line s)
  unfolding name_line
  name_line-KeepingPart s level line h g =
      go (is_name s.user.kind level line) (rw (g.kind, g.line) h)
    where
      n : ℕ
      n = path_offset s.user.kind + s.user.len

      d : List ℕ
      d = drop n line

      inner : Part
      inner =
          if is_dirs s.user.kind
          then enter_name true (with_name s d)
          else some (true, with_name s d)

      go :
          (b : Bool)
          → HasName b n line
          → KeepingPart k m u (bound + 1) (if b then with_copy n line d inner else some (true, s))
      go true h =
          subst (KeepingPart k m u (bound + 1)) (sym (copied_name n line inner h))
            (named_line s d (is_dirs s.user.kind) h.1 g)
      go false h = same s g

  enter_file-KeepingPart :
      (s : Session) → Keeping k m u bound s → KeepingPart k m u (bound + 1) (enter_file s)
  enter_file-KeepingPart s g = elim (Bool-cases (s.user.node == 0)) [
    | inl e ↦ rw e (enter_name-KeepingPart k m u bound s false g room)
    | inr e ↦ rw e (same s g)
  ]

  -- An entry with another size or mark.
  with_entry :
      (s : Session) (n : ℕ) (e : Entry)
      → SameLabel (entry s.table n) e
      → e.left ≡ (entry s.table n).left
      → e.right ≡ (entry s.table n).right
      → Keeping k m u (bound + 1) s
      → KeepingPart k m u (bound + 1) (some (true, record s { table = set_entry s.table n e }))
  with_entry s n e label left right g = (
    true,
    record s { table = set_entry s.table n e },
    refl,
    Keeping-Alike k m u (set_entry s.table n e) s.user.node
        (set_entry-Alike s.table n e g.store.arena label left right) g,
  )

  -- What follows the entering of a file.
  pub then_size :
      (s : Session) (n : Option ℕ)
      → KeepingPart k m u (bound + 1) (enter_file s)
      → KeepingPart k m u (bound + 1) (enter_file s then_part λ s'. some (true, store_size s' n))
  then_size s n p =
      then_part-KeepingPart k m u (enter_file s) (λ s'. some (true, store_size s' n)) (omega arith)
        p (λ s' g'. stored s' g' n)
    where
      stored :
          (s' : Session)
          → Keeping k m u (bound + 1) s'
          → (n : Option ℕ) → KeepingPart k m u (bound + 1) (some (true, store_size s' n))
      stored s' g' none = (true, s', refl, g')
      stored s' g' (some n) =
          with_entry s' s'.user.node _
            (record { parent = refl; slen = refl; name = refl; name_offset = refl }) refl refl g'

  pub then_type :
      (s : Session) (b : Bool)
      → KeepingPart k m u (bound + 1) (enter_file s)
      → KeepingPart k m u (bound + 1) (enter_file s then_part λ s'. some (true, set_sym s' b))
  then_type s b p =
      then_part-KeepingPart k m u (enter_file s) (λ s'. some (true, set_sym s' b)) (omega arith) p
        (λ s' g'.
          with_entry s' s'.user.node _
            (record { parent = refl; slen = refl; name = refl; name_offset = refl }) refl refl g')

  pub size_line-KeepingPart :
      (s : Session) (level : ℕ) (line : List ℕ)
      → Keeping k m u bound s
      → KeepingPart k m u (bound + 1) (size_line level line s)
  unfolding size_line
  size_line-KeepingPart s level line g =
      if_KeepingPart (is_files s.user.kind && level == b'1' && starts_with line (codes "fileSize "))
        _ _ (then_size s (scan_u64 (drop 9 line)) (enter_file-KeepingPart s g)) (same s g)

  pub type_line-KeepingPart :
      (s : Session) (level : ℕ) (line : List ℕ)
      → Keeping k m u bound s
      → KeepingPart k m u (bound + 1) (type_line level line s)
  unfolding type_line
  type_line-KeepingPart s level line g =
      if_KeepingPart (is_files s.user.kind && level == b'1' && starts_with line (codes "headType "))
        _ _ (then_type s (starts_with (drop 9 line) (codes "symlink")) (enter_file-KeepingPart s g))
        (same s g)
