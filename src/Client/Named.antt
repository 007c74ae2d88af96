-- ===== src/Client/Named.antt =====
-- The names that a listing gives are in the table behind it.
use mathlib.Core.Path.{subst}
use p4fuse.Base.{
  ℕ, zero, suc, ◌+◌, ◌^◌, ◌<◌, ◌≤◌, ◌≡◌, ◌⊎◌, refl, sym, ap, ◌∙◌, inl, inr, arith, Bool, true,
  false, Option, some, none, List, [], ◌∷◌, length, drop, ptr, starts_with, codes, is_negative,
  ◌==◌, scan_u64, le→ltb,
}
use p4fuse.Ring.{load}
use p4fuse.Inode.Key.{Key}
use p4fuse.Client.{
  CType, ClientUser, Session, Part, enter_name, enter_file, ◌then_part◌, name_line, size_line,
  type_line, set_sym, set_sym, output_info, store_size,
}
use p4fuse.Client.View.{view, insert_same}
use p4fuse.Client.Insert.{user_key, Entered, enter_name-Entered}
use p4fuse.Client.Keeping.{Keeping, KeepingPart, Keeping-le, enter_held}
use p4fuse.Client.Lines.{HasName, copied_name, with_name, named, then_size, then_type}
use p4fuse.Client.Lists.{with_size, with_type, whole_line}

-- A name that is copied is the name.
load-shift : (b : ℕ) (s : List ℕ) (at n : ℕ) → load (ptr (b ∷ s)) (at + 1) n ≡ load (ptr s) at n
load-shift b s at zero = refl
load-shift b s at (suc n) =
    ap (λ c. c ∷ load (ptr (b ∷ s)) (at + 1 + 1) n) (ap (ptr (b ∷ s)) {y = suc at} (omega arith))
    ∙ ap (λ r. ptr s at ∷ r) (load-shift b s (at + 1) n)

pub load-ptr : (s : List ℕ) → load (ptr s) 0 (length s) ≡ s
load-ptr [] = refl
load-ptr (b ∷ s) = ap (λ r. b ∷ r) (load-shift b s 0 (length s) ∙ load-ptr s)

module _ (k : Key) (m : ℕ) (u : ClientUser) (bound : ℕ) (s : Session) (is_dir : Bool)
    (g : Keeping k m u bound s) (room : bound + 1 < 2 ^ 32) where
  -- Behind `enter_name`, whichever way it goes, the table holds the client's key.
  pub enter_name-user_key : (n : ℕ) × KeepingPart (user_key s) n u (bound + 1) (enter_name is_dir s)
  enter_name-user_key = go (view s.table g.tree (user_key s)) refl
    where
      fresh :
          view s.table g.tree (user_key s) ≡ none
          → (n : ℕ) × KeepingPart (user_key s) n u (bound + 1) (enter_name is_dir s)
      fresh absent = (
        s.table.id + 1,
        (
          true,
          e.session,
          e.result,
          record {
            tree = e.after;
            store = e.store;
            held =
                e.holds (user_key s)
                ∙ insert_same (user_key s) (s.table.id + 1) (view s.table g.tree);
            parent = rw e.user g.parent;
            name = rw e.user g.name;
            line = rw e.user g.line;
            dir = rw e.user g.dir;
            kind = rw e.user g.kind;
            err = rw e.user g.err;
            ids = omega (arith, e.newest, g.ids);
          },
        ),
      )
        where
          e : Entered is_dir s g.tree
          e =
              enter_name-Entered is_dir s g.parent g.name (omega (arith, g.ids)) g.tree g.store
                absent

      go :
          (o : Option ℕ)
          → view s.table g.tree (user_key s) ≡ o
          → (n : ℕ) × KeepingPart (user_key s) n u (bound + 1) (enter_name is_dir s)
      go none h = fresh h
      go (some n) h = (
        n,
        enter_held (user_key s) n u bound s is_dir
            (record {
              tree = g.tree;
              store = g.store;
              held = h;
              parent = g.parent;
              name = g.name;
              line = g.line;
              dir = g.dir;
              kind = g.kind;
              err = g.err;
              ids = g.ids;
            })
            room n h,
      )

-- A line does not start with two words that differ in their first bytes.
starts-apart :
    (l cs ds : List ℕ) (c d : ℕ)
    → (c == d) ≡ false
    → starts_with l (c ∷ cs) ≡ true
    → starts_with l (d ∷ ds) ≡ false
starts-apart [] cs ds c d h e = cc
starts-apart (b ∷ l) cs ds c d h e = ground arith

module _ (k : Key) (m : ℕ) (u : ClientUser) (bound : ℕ) (s : Session) (g : Keeping k m u bound s)
    (room : bound + 3 < 2 ^ 32) (going : is_negative u.err ≡ false) where
  -- A name that is entered is held.
  entered_name :
      (d : List ℕ) (is_dir : Bool)
      → length d < 256
      → (n : ℕ) × KeepingPart (u.id, d) n u (bound + 1) (enter_name is_dir (with_name s d))
  entered_name d is_dir h =
      subst (λ q. (n : ℕ) × KeepingPart q n u (bound + 1) (enter_name is_dir (with_name s d)))
        same_key
        (enter_name-user_key k m u bound (with_name s d) is_dir
          (named k m u bound (omega arith) s d h g) (omega arith))
    where
      same_key : user_key (with_name s d) ≡ (u.id, d)
      same_key = ap (λ i. (i, load (ptr d) 0 (length d))) g.dir ∙ ap (λ c. (u.id, c)) (load-ptr d)

  -- A line about a directory takes its name to the table.
  pub dir_line-Keeping :
      (line : List ℕ)
      → u.kind ≡ CType.dirs
      → HasName true (4 + u.len) line
      → (n : ℕ) × ((s' : Session) × (output_info b'1' line s ≡ some s')
          × Keeping (u.id, drop (4 + u.len) line) n u (bound + 3) s')
  unfolding name_line
  dir_line-Keeping line dirs has = (
    entered.0,
    whole_line key' entered.0 u bound s b'1' line room (rw g.err going) (
        with_type key' entered.0 u bound s b'1' line room (
          with_size key' entered.0 u bound s b'1' line room
            (subst (λ p. KeepingPart key' entered.0 u (bound + 1) p) (sym by_name) entered.1))),
  )
    where
      key' : Key
      key' = (u.id, drop (4 + u.len) line)

      entered :
          (n : ℕ) × KeepingPart key' n u
            (bound + 1)
            (enter_name true (with_name s (drop (4 + u.len) line)))
      entered = entered_name (drop (4 + u.len) line) true has.1

      by_name : name_line b'1' line s ≡ enter_name true (with_name s (drop (4 + u.len) line))
      by_name = rw (g.kind, dirs, g.line) (copied_name (4 + u.len) line _ has)

  -- A line about a file keeps its name in the object.
  pub file_line :
      (line : List ℕ)
      → u.kind ≡ CType.files
      → starts_with line (codes "depotFile ") ≡ true
      → HasName true (10 + u.len) line
      → output_info b'1' line s ≡ some (with_name s (drop (10 + u.len) line))
  unfolding output_info name_line size_line type_line
  file_line line files first has =
      rw
        (
          g.err,
          going,
          g.kind,
          files,
          first,
          g.line,
          le→ltb (length line) (10 + u.len) has.0,
          le→ltb 4096 (length (drop (10 + u.len) line)) (omega (arith, has.1)),
          no_size,
          no_type,
        )
        refl
    where
      no_size : starts_with line (codes "fileSize ") ≡ false
      no_size = starts-apart line (codes "epotFile ") (codes "ileSize ") _ _ refl first

      no_type : starts_with line (codes "headType ") ≡ false
      no_type = starts-apart line (codes "epotFile ") (codes "eadType ") _ _ refl first

  -- The line behind it, with the size or the type of the file, takes the name to the table.
  pub next_line-Keeping :
      (d line : List ℕ)
      → u.kind ≡ CType.files
      → length d < 256
      → (starts_with line (codes "fileSize ") ≡ true)
        ⊎ (starts_with line (codes "headType ") ≡ true)
      → (n : ℕ) × ((s' : Session) × (output_info b'1' line (with_name s d) ≡ some s')
          × Keeping (u.id, d) n u (bound + 3) s')
  unfolding name_line size_line type_line
  next_line-Keeping d line files short which = (
    n,
    whole_line key' n u bound s1 b'1' line room (rw g.err going)
        (elim which [ inl h ↦ by_size h | inr h ↦ by_type h ]),
  )
    where
      key' : Key
      key' = (u.id, d)

      s1 : Session
      s1 = with_name s d

      entered : (n : ℕ) × KeepingPart key' n u (bound + 1) (enter_name false s1)
      entered = entered_name d false short

      n : ℕ
      n = entered.0

      later :
          (p q : Part)
          → p ≡ q
          → {c : ℕ} → bound + 1 ≤ c
          → KeepingPart key' n u (bound + 1) q
          → KeepingPart key' n u c p
      later p q e h (b, s', e', g') = (b, s', e ∙ e', Keeping-le key' n u h g')

      by_size :
          starts_with line (codes "fileSize ") ≡ true
          → KeepingPart key' n u
              (bound + 3)
              (name_line b'1' line s1 then_part size_line b'1' line then_part type_line b'1' line)
      by_size h = with_type key' n u bound s1 b'1' line room (
          later _
            (enter_file s1 then_part λ s'. some (true, store_size s' (scan_u64 (drop 9 line))))
            (rw (g.kind, files, no_name, h) refl) (omega arith)
            (then_size key' n u bound (omega arith) s1 (scan_u64 (drop 9 line)) entered.1))
        where
          no_name : starts_with line (codes "depotFile ") ≡ false
          no_name = starts-apart line (codes "ileSize ") (codes "epotFile ") _ _ refl h

      by_type :
          starts_with line (codes "headType ") ≡ true
          → KeepingPart key' n u
              (bound + 3)
              (name_line b'1' line s1 then_part size_line b'1' line then_part type_line b'1' line)
      by_type h =
          later _
            (enter_file s1 then_part λ s'.
              some (true, set_sym s' (starts_with (drop 9 line) (codes "symlink"))))
            (rw (g.kind, files, no_name, no_size, h) refl) (omega arith)
            (then_type key' n u bound (omega arith) s1 (starts_with (drop 9 line) (codes "symlink"))
              entered.1)
        where
          no_name : starts_with line (codes "depotFile ") ≡ false
          no_name = starts-apart line (codes "eadType ") (codes "epotFile ") _ _ refl h

          no_size : starts_with line (codes "fileSize ") ≡ false
          no_size = starts-apart line (codes "eadType ") (codes "ileSize ") _ _ refl h
