-- ===== src/Client/Lookup.antt =====
-- FUSE_LOOKUP behind the entering of a name.
use p4fuse.Base.{ℕ, ◌+◌, ◌^◌, ◌<◌, ◌≡◌, ◌≢◌, ◌∙◌, Bool, true, some, none}
use p4fuse.Ring.{load}
use p4fuse.Inode.{Ptr, Table}
use p4fuse.Inode.Find.{find_path-In}
use p4fuse.Inode.Search.{find_path}
use p4fuse.Inode.Key.{key}
use p4fuse.Inode.Tree.{Tree, In}
use p4fuse.Inode.Invariant.{IsStore, IsStore-IsTable}
use p4fuse.Client.{Session, enter_name}
use p4fuse.Client.View.{view, view-In, insert_same, insert_other}
use p4fuse.Client.Insert.{user_key, Entered, enter_name-Entered}

-- LOOKUP finds what the map holds: if the table is an inode store that holds the key under `m`, the
-- parent is below 2 ^ 31, the name has at most 255 bytes, and the key is not that of the root, then
-- `find_path` returns `m`.
pub find_path-view :
    (t : Table) (tree : Tree) (parent : ℕ) (str : Ptr) (len m : ℕ)
    → IsStore t tree
    → parent < 2 ^ 31
    → len < 256
    → view t tree (parent, load str 0 len) ≡ some m
    → (parent, load str 0 len) ≢ key t 1
    → find_path t parent str len ≡ some m
find_path-view t tree parent str len m v hp small h other =
    find_path-In t tree m parent str len (IsStore-IsTable t tree v) hp small held.0 held.1 other
  where
    held : In m tree × (key t m ≡ (parent, load str 0 len))
    held = view-In t (parent, load str 0 len) m tree h

-- LOOKUP behind the entering of a name: if the inode store does not hold the client's name, under the
-- conditions of `enter_name-insert`, but holds another key, of a parent below 2 ^ 31 and a name of at
-- most 255 bytes and not the root's, under the index `m`, then `find_path` finds the new name under
-- the new index, and the other one under `m` as before.
pub enter_name-find_path :
    (is_dir : Bool) (s : Session) (tree : Tree)
    → IsStore s.table tree
    → s.user.id < 2 ^ 31
    → s.user.nameid < 256
    → s.table.id + 1 < 2 ^ 32
    → view s.table tree (user_key s) ≡ none
    → (parent : ℕ) (str : Ptr) (len m : ℕ) → parent < 2 ^ 31
    → len < 256
    → view s.table tree (parent, load str 0 len) ≡ some m
    → (parent, load str 0 len) ≢ key s.table 1
    → (s' : Session) × (enter_name is_dir s ≡ some (true, s'))
      × (find_path s'.table s.user.id s.user.name s.user.nameid ≡ some (s.table.id + 1))
      × (find_path s'.table parent str len ≡ some m)
enter_name-find_path is_dir s tree v hp small high absent parent str len m hp2 small2 held other = (
  e.session,
  e.result,
  find_path-view e.session.table e.after s.user.id s.user.name s.user.nameid (s.table.id + 1)
      e.store hp small
      (e.holds (user_key s) ∙ insert_same (user_key s) (s.table.id + 1) (view s.table tree))
      (rw e.root e.not_root),
  find_path-view e.session.table e.after parent str len m e.store hp2 small2
      (e.holds (parent, load str 0 len)
        ∙ insert_other (user_key s) (parent, load str 0 len) (s.table.id + 1) m (view s.table tree)
            absent held)
      (rw e.root other),
)
  where
    e : Entered is_dir s tree
    e = enter_name-Entered is_dir s hp small high tree v absent
