-- ===== src/Client/Keeping.antt =====
-- What the callbacks keep of the table while a directory is listed.
use p4fuse.Base.{
  ℕ, ◌+◌, ◌^◌, ◌<◌, ◌≤◌, ◌≡◌, refl, ap, ◌∙◌, inl, inr, arith, Bool, true, false, Option, some, none,
  ◌==◌, ==→≡, ==-refl, Bool-cases,
}
use p4fuse.Inode.{Table, entry}
use p4fuse.Inode.Key.{Key, key}
use p4fuse.Inode.Tree.{Tree, In, Every-In}
use p4fuse.Inode.Invariant.{IsEntry, IsStore}
use p4fuse.Inode.Alike.{Alike, IsStore-Alike, SameKeys-Alike}
use p4fuse.Client.{ClientUser, Session, Part, fill_entry, enter_name, ◌then_part◌}
use p4fuse.Client.View.{view, view-In, view-SameKeys, insert_other}
use p4fuse.Client.Insert.{
  user_key, fits, Entered, enter_name-Entered, enter_name-view, enter_name-entered,
}
use p4fuse.Client.Refill.{fill_entry-Alike}

module _ (k : Key) (m : ℕ) (u : ClientUser) where
  -- The table is an inode store that holds the key under the index, at most `bound` indices are given
  -- out, the client's directory and name can be searched, and its object still has the fields of `u`
  -- that a listing keeps.
  pub record Keeping (bound : ℕ) (s : Session) : Type 0 where
    pub tree : Tree
    pub store : IsStore s.table tree
    pub held : view s.table tree k ≡ some m
    pub parent : s.user.id < 2 ^ 31
    pub name : s.user.nameid < 256
    pub line : s.user.len ≡ u.len
    pub dir : s.user.id ≡ u.id
    pub kind : s.user.kind ≡ u.kind
    pub err : s.user.err ≡ u.err
    pub ids : s.table.id ≤ bound

  -- A part of a method that ends in such a session.
  abbrev pub KeepingPart : ℕ → Part → Type 0
  KeepingPart bound p = (going : Bool) × (s' : Session) × (p ≡ some (going, s')) × Keeping bound s'

  -- A later bound.
  pub Keeping-le : {a b : ℕ} {s : Session} → a ≤ b → Keeping a s → Keeping b s
  Keeping-le h g = record {
    tree = g.tree;
    store = g.store;
    held = g.held;
    parent = g.parent;
    name = g.name;
    line = g.line;
    dir = g.dir;
    kind = g.kind;
    err = g.err;
    ids = omega (arith, g.ids);
  }

  -- A change that the searches do not see.
  pub Keeping-Alike :
      {b : ℕ} {s : Session} (t : Table) (n : ℕ)
      → Alike s.table t
      → Keeping b s
      → Keeping b (record s { table = t; user = record (s.user) { node = n } })
  Keeping-Alike {s = s} t n a g = record {
    tree = g.tree;
    store = IsStore-Alike s.table t a g.tree g.store;
    held = view-SameKeys s.table t g.tree k (SameKeys-Alike s.table t a g.tree g.store) ∙ g.held;
    parent = g.parent;
    name = g.name;
    line = g.line;
    dir = g.dir;
    kind = g.kind;
    err = g.err;
    ids = rw a.id g.ids;
  }

  pub then_part-KeepingPart :
      {b c : ℕ} (p : Part) (f : Session → Part)
      → b ≤ c
      → KeepingPart b p
      → ((s' : Session) → Keeping b s' → KeepingPart c (f s'))
      → KeepingPart c (p then_part f)
  then_part-KeepingPart p f h (true, s', e, g) next = rw e (next s' g)
  then_part-KeepingPart p f h (false, s', e, g) next =
      (false, s', ap (λ q. q then_part f) e, Keeping-le h g)

  -- A name that is absent, one that is the newest, and any other.
  module _ (bound : ℕ) (s : Session) (is_dir : Bool) (g : Keeping bound s)
      (room : bound + 1 < 2 ^ 32) where
    enter_absent :
        view s.table g.tree (user_key s) ≡ none → KeepingPart (bound + 1) (enter_name is_dir s)
    enter_absent absent = (
      true,
      e.session,
      e.result,
      record {
        tree = e.after;
        store = e.store;
        held =
            e.holds k
            ∙ insert_other (user_key s) k (s.table.id + 1) m (view s.table g.tree) absent g.held;
        parent = rw e.user g.parent;
        name = rw e.user g.name;
        line = rw e.user g.line;
        dir = rw e.user g.dir;
        kind = rw e.user g.kind;
        err = rw e.user g.err;
        ids = omega (arith, e.newest, g.ids);
      },
    )
      where
        e : Entered is_dir s g.tree
        e = enter_name-Entered is_dir s g.parent g.name (omega (arith, g.ids)) g.tree g.store absent

    pub enter_held :
        (n : ℕ)
        → view s.table g.tree (user_key s) ≡ some n
        → KeepingPart (bound + 1) (enter_name is_dir s)
    enter_held n h = elim (Bool-cases (n == s.table.id)) [
      | inl newest ↦ (
        true,
        record s {
          table = fill_entry s.table n s.user.id is_dir s.user.name s.user.nameid;
          user = record (s.user) { node = n };
        },
        enter_name-entered is_dir s g.tree n g.store g.parent g.name h
            ∙ rw (newest, fits s.user.nameid g.name) refl,
        Keeping-le (omega arith) (
            Keeping-Alike _ n
              (fill_entry-Alike s.table n s.user.id is_dir s.user.name s.user.nameid g.name
                g.store.arena (Every-In (IsEntry s.table) g.tree n g.store.entries is_held.0)
                is_held.1
                (ap (λ y. (entry s.table y).left) (==→≡ n s.table.id newest) ∙ g.store.last.0)
                (ap (λ y. (entry s.table y).right) (==→≡ n s.table.id newest) ∙ g.store.last.1))
              g),
      )
      | inr other ↦ (
        false,
        s,
        enter_name-view is_dir s g.tree n g.store g.parent g.name h (λ q. cc (other, q, ==-refl n)),
        Keeping-le (omega arith) g,
      )
    ]
      where
        is_held : In n g.tree × (key s.table n ≡ user_key s)
        is_held = view-In s.table (user_key s) n g.tree h

    pub enter_name-KeepingPart : KeepingPart (bound + 1) (enter_name is_dir s)
    enter_name-KeepingPart = go (view s.table g.tree (user_key s)) refl
      where
        go :
            (o : Option ℕ)
            → view s.table g.tree (user_key s) ≡ o
            → KeepingPart (bound + 1) (enter_name is_dir s)
        go none h = enter_absent h
        go (some n) h = enter_held n h
