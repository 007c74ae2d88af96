-- ===== src/Client/Insert.antt =====
-- `enter_name` on a table that does not hold the name, and on one that does.
use mathlib.Core.Path.{subst}
use p4fuse.Base.{
  ℕ, ◌+◌, ◌^◌, ◌<◌, ◌≡◌, ◌≢◌, refl, sym, ap, ◌∙◌, arith, Bool, true, false, some, none, ==-refl,
  ≢→==, u8,
}
use p4fuse.Ring.{load}
use p4fuse.Inode.{Table, entry}
use p4fuse.Inode.Compare.{cmp_node, is_below}
use p4fuse.Inode.Create.{new_inode, link, link_new, find_or_insert_path}
use p4fuse.Inode.Key.{Key, key, key_cmp, side, cmp_node-key_cmp}
use p4fuse.Inode.Tree.{Tree, leaf, node, In, IsTable, Every-In}
use p4fuse.Inode.Insertion.{Insertion, IsAbsent, IsAbsent-Insertion}
use p4fuse.Inode.Relink.{above_node}
use p4fuse.Inode.Walk.{walk_on-Insertion, walk_on-In}
use p4fuse.Inode.Created.{Created, new_inode-Created}
use p4fuse.Inode.Invariant.{IsEntry, IsStore, IsStore-IsTable}
use p4fuse.Client.{Session, fill_entry, overruns, entered, enter_name}
use p4fuse.Client.Enter.{Grown, fill_entry-Grown, below_of_lower, not_below_of_upper}
use p4fuse.Client.Stores.{Grown-IsStore, keys, own_key}
use p4fuse.Client.View.{view, insert, Insertion-view, view-IsAbsent, view-In}

-- The key that the client's object asks for.
abbrev pub user_key : Session → Key
user_key s = (s.user.id, load s.user.name 0 s.user.nameid)

-- A name of at most 255 bytes fits.
pub fits : (len : ℕ) → len < 256 → overruns len ≡ false
fits len h = ground arith

-- The name is entered: the method goes on with the new entry `id`, in a store that holds one name
-- more.
pub record Entered (is_dir : Bool) (s : Session) (tree : Tree) : Type 0 where
  pub session : Session
  pub after : Tree
  pub result : enter_name is_dir s ≡ some (true, session)
  pub user : session.user ≡ record (s.user) { node = s.table.id + 1 }
  pub newest : session.table.id ≡ s.table.id + 1
  pub store : IsStore session.table after
  pub holds :
      (k : Key)
      → view session.table after k ≡ insert (user_key s) (s.table.id + 1) (view s.table tree) k
  pub root : key session.table 1 ≡ key s.table 1
  pub not_root : user_key s ≢ key s.table 1

module _ (is_dir : Bool) (s : Session) (hp : s.user.id < 2 ^ 31) (small : s.user.nameid < 256)
    (high : s.table.id + 1 < 2 ^ 32) where
  abbrev table : Table
  table = s.table

  abbrev new_id : ℕ
  new_id = s.table.id + 1

  whole_name : u8 s.user.nameid ≡ s.user.nameid
  whole_name = omega arith

  -- From the place of the key to the new store.
  at_place :
      (n x : ℕ) (l r s' : Tree) (t1 : Table)
      → (v : IsStore s.table (node n l r)) → IsAbsent s.table (user_key s) (node n l r)
      → Insertion s.table (user_key s) (s.table.id + 1) 0 (node n l r) s' x
      → new_inode s.table s.user.nameid ≡ some (s.table.id + 1, t1)
      → Created s.table (s.table.id + 1) s.user.nameid t1
      → Entered is_dir s (node n l r)
  unfolding enter_name find_or_insert_path
  at_place n x l r s' t1 v absent i made m = record {
    session = record s { table = t3; user = record (s.user) { node = new_id } };
    after = s';
    result =
        ap (λ k. entered is_dir s (find_or_insert_path table s.user.id s.user.name k)) whole_name
        ∙ ap (entered is_dir s) walk
        ∙ goes_on;
    user = refl;
    newest = g.newest;
    store =
        Grown-IsStore table n l r s' v high x s.user.id (is_below c) s.user.name s.user.nameid hp
          small t3 g i (λ e. below_of_lower c (sign ∙ e)) (λ e. not_below_of_upper c (sign ∙ e));
    holds = λ k.
        Insertion-view table t3 k i
          (own_key table n l r s' v high x s.user.id (is_below c) s.user.name s.user.nameid hp small
            t3 g i)
          (keys table n l r s' v high x s.user.id (is_below c) s.user.name s.user.nameid hp small t3
            g i)
          absent;
    root =
        subst (λ y. key t3 y ≡ key table y) (sym v.links.0)
          ((keys table n l r s' v high x s.user.id (is_below c) s.user.name s.user.nameid hp small
            t3 g i).0);
    not_root = λ e. absent.0 (e ∙ ap (key table) v.links.0);
  }
    where
      c : ℕ
      c = cmp_node table (entry table x) s.user.id s.user.name s.user.nameid

      t3 : Table
      t3 = fill_entry (link t1 x c new_id) new_id s.user.id is_dir s.user.name s.user.nameid

      old : IsEntry table x
      old = Every-In (IsEntry table) (node n l r) x v.entries (above_node i)

      sign : side c ≡ key_cmp (user_key s) (key table x)
      sign =
          cmp_node-key_cmp table x s.user.id s.user.name s.user.nameid hp old.keyed.parent small
            old.keyed.slen

      g : Grown table new_id x (is_below c) s.user.id s.user.name s.user.nameid t3
      g =
          fill_entry-Grown table new_id x c s.user.id is_dir s.user.name s.user.nameid small v.arena
            (λ e. omega (arith, e, old.given)) t1 m

      walk :
          find_or_insert_path table s.user.id s.user.name s.user.nameid
          ≡ some (new_id, link t1 x c new_id)
      walk =
          walk_on-Insertion table s.user.id s.user.name s.user.nameid hp small (2 ^ 32) 0 1 x new_id
            (node n l r) s' i v.links ((IsStore-IsTable table (node n l r) v).keyed)
            ((IsStore-IsTable table (node n l r) v).shallow)
          ∙ ap (link_new x c) made

      goes_on :
          entered is_dir s (some (new_id, link t1 x c new_id))
          ≡ some (true, record s { table = t3; user = record (s.user) { node = new_id } })
      goes_on = rw (m.newest, ==-refl new_id, fits s.user.nameid small) refl

  -- An absent name is entered.
  pub enter_name-Entered :
      (tree : Tree)
      → IsStore s.table tree
      → view s.table tree (user_key s) ≡ none
      → Entered is_dir s tree
  enter_name-Entered leaf v h = absurd (omega (arith, v.links))
  enter_name-Entered (node n l r) v h =
      go (IsAbsent-Insertion table (user_key s) new_id 0 (node n l r) absent) (
        new_inode-Created table s.user.nameid (omega (arith, v.counted)) high
          (v.unused new_id (omega arith)) small v.arena (omega (arith, v.used, v.ids, small)))
    where
      absent : IsAbsent table (user_key s) (node n l r)
      absent = view-IsAbsent table (user_key s) (node n l r) h

      go :
          (s' : Tree) × (x : ℕ) × Insertion table (user_key s) new_id 0 (node n l r) s' x
          → (t1 : Table) × (new_inode table s.user.nameid ≡ some (new_id, t1))
            × Created table new_id s.user.nameid t1
          → Entered is_dir s (node n l r)
      go (s', x, i) (t1, made, m) = at_place n x l r s' t1 v absent i made m

-- Entering a name inserts it: if the inode store holds no entry with the client's directory and
-- name, the directory below 2 ^ 31 and the name at most 255 bytes, and an index is left, then the
-- method goes on with the index behind the newest one, the table is an inode store again, and the
-- map from keys to indices has the new key and the old ones, and no other.
pub enter_name-insert :
    (is_dir : Bool) (s : Session) (tree : Tree)
    → IsStore s.table tree
    → s.user.id < 2 ^ 31
    → s.user.nameid < 256
    → s.table.id + 1 < 2 ^ 32
    → view s.table tree (user_key s) ≡ none
    → (s' : Session) × (tree' : Tree) × (enter_name is_dir s ≡ some (true, s'))
      × (s'.user.node ≡ s.table.id + 1)
      × IsStore s'.table tree'
      × (view s'.table tree' ≡ insert (user_key s) (s.table.id + 1) (view s.table tree))
enter_name-insert is_dir s tree v hp small high h =
    (e.session, e.after, e.result, ap (λ u. u.node) e.user, e.store, λ i k. e.holds k i)
  where
    e : Entered is_dir s tree
    e = enter_name-Entered is_dir s hp small high tree v h

-- The search of a name that the inode store holds.
pub enter_name-entered :
    (is_dir : Bool) (s : Session) (tree : Tree) (m : ℕ)
    → IsStore s.table tree
    → s.user.id < 2 ^ 31
    → s.user.nameid < 256
    → view s.table tree (user_key s) ≡ some m
    → enter_name is_dir s ≡ entered is_dir s (some (m, s.table))
unfolding enter_name find_or_insert_path
enter_name-entered is_dir s tree m v hp small h =
    ap (λ k. entered is_dir s (find_or_insert_path s.table s.user.id s.user.name k)) whole
    ∙ ap (entered is_dir s) walk
  where
    whole : u8 s.user.nameid ≡ s.user.nameid
    whole = omega arith

    held : In m tree × (key s.table m ≡ user_key s)
    held = view-In s.table (user_key s) m tree h

    is_table : IsTable s.table tree
    is_table = IsStore-IsTable s.table tree v

    walk : find_or_insert_path s.table s.user.id s.user.name s.user.nameid ≡ some (m, s.table)
    walk =
        walk_on-In s.table s.user.id s.user.name s.user.nameid hp small (2 ^ 32) 0 1 m tree held.0
          held.1 is_table.links is_table.keyed is_table.ordered is_table.shallow

-- A name that is not entered again: if the inode store holds the client's directory and name, the
-- directory below 2 ^ 31 and the name at most 255 bytes, under another index than the newest one, then
-- the method returns and changes nothing.
pub enter_name-view :
    (is_dir : Bool) (s : Session) (tree : Tree) (m : ℕ)
    → IsStore s.table tree
    → s.user.id < 2 ^ 31
    → s.user.nameid < 256
    → view s.table tree (user_key s) ≡ some m
    → m ≢ s.table.id
    → enter_name is_dir s ≡ some (false, s)
enter_name-view is_dir s tree m v hp small h old =
    enter_name-entered is_dir s tree m v hp small h ∙ rw (≢→== m s.table.id old) refl
