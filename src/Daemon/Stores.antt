-- ===== src/Daemon/Stores.antt =====
-- The listing of a directory by FUSE_READDIR or FUSE_LOOKUP keeps the inode store.
use p4fuse.Base.{
  ℕ, ◌+◌, ◌*◌, ◌^◌, ◌<◌, ◌≡◌, refl, ap, ◌∙◌, arith, Option, some, none, List, length, All, ◌⊎◌, inl,
  inr, is_negative, false,
}
use p4fuse.Inode.Key.{Key}
use p4fuse.Inode.Tree.{Tree}
use p4fuse.Inode.Invariant.{IsStore}
use p4fuse.Inode.Alike.{set_entry-Alike}
use p4fuse.Client.{CType, ClientUser, Session, run_outputs}
use p4fuse.Client.View.{view}
use p4fuse.Client.Keeping.{Keeping, Keeping-Alike}
use p4fuse.Client.Lines.{IsLine}
use p4fuse.Client.Given.{GivesDir, GivesFile, Holding, run_outputs-GivesDir, run_outputs-GivesFile}
use p4fuse.Client.Lists.{run_outputs-Keeping}
use p4fuse.Daemon.State.{Host, Command, Daemon, session, with_session}
use p4fuse.Daemon.Open.{mark_listed}
use p4fuse.Daemon.Dirs.{run_one, with_kind, pattern_of, list_directory}

module _ (host : Host) (k : Key) (m : ℕ) (u : ClientUser) where
  -- One command, on a daemon whose session keeps the key.
  run_one-Keeping :
      (command : Command) (d : Daemon) (bound : ℕ)
      → bound + 3 * length (host.run command) < 2 ^ 32
      → All (IsLine u.kind u.len) (host.run command)
      → Keeping k m u bound (session d)
      → (d' : Daemon) × (run_one host command d ≡ some d')
        × Keeping k m u (bound + 3 * length (host.run command)) (session d')
  run_one-Keeping command d bound room lines g =
      go (run_outputs-Keeping k m u bound (host.run command) (session d) room lines g)
    where
      with_result : Option Session → Option Daemon
      with_result r = elim r [ none ↦ none | some s ↦ some (with_session d s) ]

      go :
          (s' : Session) × (run_outputs (host.run command) (session d) ≡ some s')
            × Keeping k m u (bound + 3 * length (host.run command)) s'
          → (d' : Daemon) × (run_one host command d ≡ some d')
            × Keeping k m u (bound + 3 * length (host.run command)) (session d')
      go (s', e, g') = (with_session d s', ap with_result e, g')

  -- Another kind of listing.
  with_kind-Keeping :
      (d : Daemon) (kind : CType) (bound : ℕ)
      → Keeping k m u bound (session d)
      → Keeping k m (record u { kind = kind }) bound (session (with_kind d kind))
  with_kind-Keeping d kind bound g = record {
    tree = g.tree;
    store = g.store;
    held = g.held;
    parent = g.parent;
    name = g.name;
    line = g.line;
    dir = g.dir;
    kind = refl;
    err = g.err;
    ids = g.ids;
  }

  -- The directory is marked.
  mark_listed-Keeping :
      (d : Daemon) (node bound : ℕ)
      → Keeping k m u bound (session d)
      → Keeping k m u bound (session (mark_listed d node))
  mark_listed-Keeping d node bound g =
      Keeping-Alike k m u _ d.user.node
        (set_entry-Alike d.table node _ g.store.arena
          (record { parent = refl; slen = refl; name = refl; name_offset = refl }) refl refl)
        g

-- A listing is its two commands and the mark.
pub list_directory-mark_listed :
    (host : Host) (d d1 d2 : Daemon) (node : ℕ) (path : List ℕ)
    → run_one host (Command.dirs (pattern_of path)) d ≡ some d1
    → run_one host (Command.fstat (pattern_of path)) (with_kind d1 CType.files) ≡ some d2
    → list_directory host d node path ≡ some (mark_listed d2 node)
unfolding list_directory
list_directory-mark_listed host d d1 d2 node path e1 e2 = ap listed e1 ∙ ap marked e2
  where
    marked : Option Daemon → Option Daemon
    marked r = elim r [ none ↦ none | some d2 ↦ some (mark_listed d2 node) ]

    listed : Option Daemon → Option Daemon
    listed r = elim r [
      | none ↦ none
      | some d1 ↦ marked (run_one host (Command.fstat (pattern_of path)) (with_kind d1 CType.files))
    ]

module _ (host : Host) (u : ClientUser) (d : Daemon) (node bound : ℕ) (path : List ℕ)
    (room : bound
        + 3 * length (host.run (Command.dirs (pattern_of path)))
        + 3 * length (host.run (Command.fstat (pattern_of path)))
      < 2 ^ 32)
    (dirs : All (IsLine u.kind u.len) (host.run (Command.dirs (pattern_of path))))
    (files : All (IsLine CType.files u.len) (host.run (Command.fstat (pattern_of path)))) where
  abbrev u2 : ClientUser
  u2 = record u { kind = CType.files }

  abbrev b1 : ℕ
  b1 = bound + 3 * length (host.run (Command.dirs (pattern_of path)))

  abbrev b2 : ℕ
  b2 = b1 + 3 * length (host.run (Command.fstat (pattern_of path)))

  -- A listing that ends with the key in the table.
  abbrev pub Listed : Key → ℕ → Type 0
  Listed k m =
      (d' : Daemon) × (list_directory host d node path ≡ some d') × Keeping k m u2 b2 (session d')

  marked :
      (k : Key) (m : ℕ) (d1 d2 : Daemon)
      → run_one host (Command.dirs (pattern_of path)) d ≡ some d1
      → run_one host (Command.fstat (pattern_of path)) (with_kind d1 CType.files) ≡ some d2
      → Keeping k m u2 b2 (session d2)
      → Listed k m
  marked k m d1 d2 e1 e2 g = (
    mark_listed d2 node,
    list_directory-mark_listed host d d1 d2 node path e1 e2,
    mark_listed-Keeping host k m u2 d2 node b2 g,
  )

  -- The second command, behind a first one that ends with the key in the table.
  second :
      (k : Key) (m : ℕ)
      → (d1 : Daemon) × (run_one host (Command.dirs (pattern_of path)) d ≡ some d1)
        × Keeping k m u b1 (session d1)
      → Listed k m
  second k m (d1, e1, g1) = go (
      run_one-Keeping host k m u2 (Command.fstat (pattern_of path)) (with_kind d1 CType.files) b1
        room files (with_kind-Keeping host k m u d1 CType.files b1 g1))
    where
      go :
          (d2 : Daemon) × (run_one host (Command.fstat (pattern_of path)) (with_kind d1 CType.files)
              ≡ some d2)
            × Keeping k m u2 b2 (session d2)
          → Listed k m
      go (d2, e2, g2) = marked k m d1 d2 e1 e2 g2

  pub list_directory-Keeping : (k : Key) (m : ℕ) → Keeping k m u bound (session d) → Listed k m
  list_directory-Keeping k m g =
      second k m
        (run_one-Keeping host k m u (Command.dirs (pattern_of path)) d bound (omega arith) dirs g)

  module _ (going : is_negative u.err ≡ false) (is_dirs : u.kind ≡ CType.dirs) (name : List ℕ) where
    -- One command that gives the name.
    run_one-Holding :
        (command : Command) (u' : ClientUser) (d : Daemon) (b : ℕ)
        → Holding u' b name (run_outputs (host.run command) (session d))
        → (n : ℕ) × ((d' : Daemon) × (run_one host command d ≡ some d')
            × Keeping (u'.id, name) n u' b (session d'))
    run_one-Holding command u' d b (n, s', e, g) = (n, (with_session d s', ap with_result e, g))
      where
        with_result : Option Session → Option Daemon
        with_result r = elim r [ none ↦ none | some s ↦ some (with_session d s) ]

    -- A listing puts the names that it gives into the table.
    pub list_directory-Gives :
        (k : Key) (m : ℕ)
        → GivesDir u.len name (host.run (Command.dirs (pattern_of path)))
          ⊎ GivesFile u.len name (host.run (Command.fstat (pattern_of path)))
        → Keeping k m u bound (session d)
        → (n : ℕ) × Listed (u.id, name) n
    list_directory-Gives k m (inl h) g = go (
        run_one-Holding (Command.dirs (pattern_of path)) u d b1 (
          run_outputs-GivesDir u going k m bound name _ (session d) is_dirs (omega arith) dirs h g))
      where
        go :
            (n : ℕ) × ((d1 : Daemon) × (run_one host (Command.dirs (pattern_of path)) d ≡ some d1)
                × Keeping (u.id, name) n u b1 (session d1))
            → (n : ℕ) × Listed (u.id, name) n
        go (n, p) = (n, second (u.id, name) n p)
    list_directory-Gives k m (inr h) g =
        go
          (run_one-Keeping host k m u (Command.dirs (pattern_of path)) d bound (omega arith) dirs g)
      where
        go :
            (d1 : Daemon) × (run_one host (Command.dirs (pattern_of path)) d ≡ some d1)
              × Keeping k m u b1 (session d1)
            → (n : ℕ) × Listed (u.id, name) n
        go (d1, e1, g1) = last (
            run_one-Holding (Command.fstat (pattern_of path)) u2 (with_kind d1 CType.files) b2 (
              run_outputs-GivesFile u2 going k m b1 name _ (session (with_kind d1 CType.files)) refl
                room files h (with_kind-Keeping host k m u d1 CType.files b1 g1)))
          where
            last :
                (n : ℕ) × ((d2 : Daemon) × (run_one host
                        (Command.fstat (pattern_of path))
                        (with_kind d1 CType.files)
                      ≡ some d2)
                    × Keeping (u.id, name) n u2 b2 (session d2))
                → (n : ℕ) × Listed (u.id, name) n
            last (n, (d2, e2, g2)) = (n, marked (u.id, name) n d1 d2 e1 e2 g2)

-- The listing of a directory keeps the inode store: if the table is an inode store that holds a key
-- under the index `m`, the directory is below 2 ^ 31, the server answers both commands with lines,
-- of which each that gives a name reaches the end of the directory's path and has at most 255 bytes
-- behind it, and three indices are free for each line, then
-- `list_directory` ends without a fault, and the table is an inode store that holds the key under
-- `m`.
pub list_directory-IsStore :
    (host : Host) (d : Daemon) (node : ℕ) (path : List ℕ) (tree : Tree) (k : Key) (m : ℕ)
    → IsStore d.table tree
    → view d.table tree k ≡ some m
    → d.user.id < 2 ^ 31
    → d.user.nameid < 256
    → All (IsLine d.user.kind d.user.len) (host.run (Command.dirs (pattern_of path)))
    → All (IsLine CType.files d.user.len) (host.run (Command.fstat (pattern_of path)))
    → d.table.id
        + 3 * length (host.run (Command.dirs (pattern_of path)))
        + 3 * length (host.run (Command.fstat (pattern_of path)))
      < 2 ^ 32
    → (d' : Daemon) × (tree' : Tree) × (list_directory host d node path ≡ some d')
      × IsStore d'.table tree'
      × (view d'.table tree' k ≡ some m)
list_directory-IsStore host d node path tree k m v held hp small dirs files room = go (
    list_directory-Keeping host d.user d node d.table.id path room dirs files k m (record {
      tree = tree;
      store = v;
      held = held;
      parent = hp;
      name = small;
      line = refl;
      dir = refl;
      kind = refl;
      err = refl;
      ids = omega arith;
    }))
  where
    go :
        Listed host d.user d node d.table.id path room dirs files k m
        → (d' : Daemon) × (tree' : Tree) × (list_directory host d node path ≡ some d')
          × IsStore d'.table tree'
          × (view d'.table tree' k ≡ some m)
    go (d', e, g) = (d', g.tree, e, g.store, g.held)
