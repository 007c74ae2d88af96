-- ===== src/Daemon/Listed.antt =====
-- FUSE_LOOKUP of a name that only the server knows: the directory is listed, and the name is found.
use p4fuse.Base.{
  ℕ, ◌+◌, ◌*◌, ◌^◌, ◌<◌, ◌≤◌, ◌≡◌, ◌≢◌, ◌⊎◌, refl, sym, ap, ◌∙◌, arith, pos, true, some, none, List,
  u32, length, All, ptr,
}
use p4fuse.Buffer.{buf_sz}
use p4fuse.Wire.Request.{InHeader}
use p4fuse.Inode.{entry}
use p4fuse.Inode.Path.{build_path}
use p4fuse.Inode.Search.{find_path, missing}
use p4fuse.Inode.Find.{find_path_absent}
use p4fuse.Inode.Key.{Key, key}
use p4fuse.Inode.Tree.{Tree, node, leaf, In, Every-In}
use p4fuse.Inode.Invariant.{IsEntry, IsStore, IsStore-IsTable}
use p4fuse.Client.{CType}
use p4fuse.Client.View.{view, view-In, view_absent, view_top}
use p4fuse.Client.Lookup.{find_path-view}
use p4fuse.Client.Keeping.{Keeping}
use p4fuse.Client.Lines.{IsLine}
use p4fuse.Client.Given.{GivesDir, GivesFile}
use p4fuse.Daemon.State.{Host, Command, Daemon, Body, reply, session}
use p4fuse.Daemon.Dirs.{
  lookup_attr, is_missing, lookup_reply, name_len, lookup_name, is_unlisted, lookup_listing,
  lookup_rest, do_lookup, pattern_of, with_directory, list_directory,
}
use p4fuse.Daemon.Lookups.{
  name_bytes_of, key_of, with_entry_chunk, not_missing_lem, missing_lem, searched, same_unlisted,
  placed,
}
use p4fuse.Daemon.Stores.{Listed, list_directory-Keeping, list_directory-Gives}

-- The root is held under 1.
root_held : {t : _} (s : Tree) → IsStore t s → view t s (key t 1) ≡ some 1
root_held {t} leaf v = absurd (omega (arith, v.links))
root_held {t} (node n l r) v =
    ap (λ k. view t (node n l r) (key t k)) (v.links.0) ∙ view_top t n l r ∙ ap some (sym v.links.0)

-- The reply with an index below 2 ^ 32.
known_reply :
    (d : Daemon) (hdr : InHeader) (at m : ℕ)
    → m < 2 ^ 32
    → lookup_reply d hdr at m
      ≡ reply d hdr at 144 (pos 0) (
          Body.entry (record {
            nodeid = m;
            generation = (entry d.table m).gen;
            entry_valid = 0;
            attr_valid = 0;
            entry_valid_nsec = 0;
            attr_valid_nsec = 0;
            attr = lookup_attr (entry d.table m) m;
          }))
unfolding lookup_reply
known_reply d hdr at m h = rw (not_missing_lem m h) refl

module _ (host : Host) (d : Daemon) (hdr : InHeader) (tree : Tree) (v : IsStore d.table tree)
    (fits : d.cur_sz + 144 ≤ buf_sz) (small : u32 hdr.nodeid < 2 ^ 31) where
  -- FUSE_LOOKUP where the directory is listed.
  listed_reply :
      (path : List ℕ) (d' : Daemon) (m : ℕ)
      → view d.table tree (key_of d hdr) ≡ none
      → is_unlisted d hdr.nodeid ≡ true
      → build_path d.table hdr.nodeid ≡ some path
      → list_directory host
          (with_directory (with_entry_chunk d) hdr.nodeid (length path))
          hdr.nodeid
          path
        ≡ some d'
      → find_path d'.table (u32 hdr.nodeid) (ptr (name_bytes_of d hdr)) (name_len hdr) ≡ some m
      → do_lookup host d hdr ≡ lookup_reply d' hdr d.cur_sz m
  unfolding lookup_rest lookup_listing
  listed_reply path d' m absent unlisted climb listing again = go (
      find_path_absent d.table tree (u32 hdr.nodeid) (ptr (name_bytes_of d hdr)) (name_len hdr)
        (IsStore-IsTable d.table tree v) small (omega arith)
        (view_absent d.table (key_of d hdr) tree absent))
    where
      go :
          (x : ℕ) × In x tree
            × (find_path d.table (u32 hdr.nodeid) (ptr (name_bytes_of d hdr)) (name_len hdr)
                ≡ some (missing x))
          → do_lookup host d hdr ≡ lookup_reply d' hdr d.cur_sz m
      go (x, i, e) =
          placed host d hdr tree (IsStore-IsTable d.table tree v) fits small
          ∙ rw (found, lookup_rest, lookup_listing)
              (rw (is_missing_x, open_dir) (rw (climb, listing, found_again) refl))
        where
          open_dir : is_unlisted (with_entry_chunk d) hdr.nodeid ≡ true
          open_dir = same_unlisted d hdr.nodeid ∙ unlisted

          found : lookup_name (with_entry_chunk d) hdr (name_bytes_of d hdr) ≡ some (missing x)
          found = searched (with_entry_chunk d) hdr (name_bytes_of d hdr) (missing x) e

          found_again : lookup_name d' hdr (name_bytes_of d hdr) ≡ some m
          found_again = searched d' hdr (name_bytes_of d hdr) m again

          is_missing_x : is_missing (missing x) ≡ true
          is_missing_x =
              missing_lem x
                (omega (arith, v.ids, (Every-In (IsEntry d.table) tree x v.entries i).given))

  module _ (path : List ℕ) (low : d.user.nameid < 256)
      (absent : view d.table tree (key_of d hdr) ≡ none)
      (unlisted : is_unlisted d hdr.nodeid ≡ true)
      (climb : build_path d.table hdr.nodeid ≡ some path)
      (dirs : All (IsLine CType.dirs (length path)) (host.run (Command.dirs (pattern_of path))))
      (files : All (IsLine CType.files (length path)) (host.run (Command.fstat (pattern_of path))))
      (room : d.table.id
          + 3 * length (host.run (Command.dirs (pattern_of path)))
          + 3 * length (host.run (Command.fstat (pattern_of path)))
        < 2 ^ 32) where
    abbrev asking : Daemon
    asking = with_directory (with_entry_chunk d) hdr.nodeid (length path)

    abbrev ListedAs : Key → ℕ → Type 0
    ListedAs = Listed host asking.user asking hdr.nodeid d.table.id path room dirs files

    -- The root keeps its key.
    before : Keeping (key d.table 1) 1 asking.user d.table.id (session asking)
    before = record {
      tree = tree;
      store = v;
      held = root_held tree v;
      parent = small;
      name = low;
      line = refl;
      dir = refl;
      kind = refl;
      err = refl;
      ids = omega arith;
    }

    root_after : ListedAs (key d.table 1) 1
    root_after =
        list_directory-Keeping host asking.user asking hdr.nodeid d.table.id path room dirs files
          (key d.table 1) 1 before

    -- The listing and the second search.
    found_in :
        (m : ℕ)
        → ListedAs (key_of d hdr) m
        → ListedAs (key d.table 1) 1
        → (d' : Daemon) × (tree' : Tree) × (list_directory host asking hdr.nodeid path ≡ some d')
          × IsStore d'.table tree'
          × (view d'.table tree' (key_of d hdr) ≡ some m)
          × (do_lookup host d hdr ≡ lookup_reply d' hdr d.cur_sz m)
          × (m < 2 ^ 32)
    found_in m (d', e, g) (d'', e'', g'') = (
      d',
      g.tree,
      e,
      g.store,
      g.held,
      listed_reply path d' m absent unlisted climb e found,
      below,
    )
      where
        same : d'' ≡ d'
        same = cc

        root_key : key d'.table 1 ≡ key d.table 1
        root_key =
            ap (λ q. key q.table 1) (sym same)
            ∙ (view-In d''.table (key d.table 1) 1 g''.tree g''.held).1

        other : key_of d hdr ≢ key d'.table 1
        other h =
            view_absent d.table (key_of d hdr) tree absent 1
              (view-In d.table (key d.table 1) 1 tree (root_held tree v)).0 (h ∙ root_key)

        found :
            find_path d'.table (u32 hdr.nodeid) (ptr (name_bytes_of d hdr)) (name_len hdr) ≡ some m
        found =
            find_path-view d'.table g.tree (u32 hdr.nodeid) (ptr (name_bytes_of d hdr))
              (name_len hdr) m g.store small (omega arith) g.held other

        below : m < 2 ^ 32
        below = omega (
          arith,
          g.store.ids,
          (Every-In (IsEntry d'.table) g.tree m g.store.entries
              (view-In d'.table (key_of d hdr) m g.tree g.held).0).given,
        )

    -- FUSE_LOOKUP of a name that only the server knows. In a daemon whose table is an inode
    -- store, with room for the reply and a client name of at most 255 bytes, let a request ask
    -- for a name that the table does not hold, in a directory below 2 ^ 31 that is not listed yet
    -- and whose path `build_path` gives. If the server answers both commands of the listing with
    -- lines, of which each that gives a name reaches the end of the directory's path and has at most
    -- 255 bytes behind it, and three indices are free for each line, and if
    -- `p4 dirs` gives a line with the name, or `p4 fstat` a line with the name of this file and
    -- right behind it one with its size or its type, then the listing ends without a fault in an
    -- inode store that holds the name under an index, and the reply has no error, this index, and
    -- the generation and the attributes of its entry.
    pub do_lookup-listed :
        GivesDir (length path) (key_of d hdr).1 (host.run (Command.dirs (pattern_of path)))
          ⊎ GivesFile (length path) (key_of d hdr).1 (host.run (Command.fstat (pattern_of path)))
        → (m : ℕ) × (d' : Daemon) × (tree' : Tree) × (list_directory host asking hdr.nodeid path
            ≡ some d')
          × IsStore d'.table tree'
          × (view d'.table tree' (key_of d hdr) ≡ some m)
          × (do_lookup host d hdr
              ≡ reply d' hdr d.cur_sz 144 (pos 0) (
                  Body.entry (record {
                    nodeid = m;
                    generation = (entry d'.table m).gen;
                    entry_valid = 0;
                    attr_valid = 0;
                    entry_valid_nsec = 0;
                    attr_valid_nsec = 0;
                    attr = lookup_attr (entry d'.table m) m;
                  })))
    do_lookup-listed given =
        (named.0, f.0, f.1, f.2, f.3, f.4, f.5 ∙ known_reply f.0 hdr d.cur_sz named.0 f.6)
      where
        named : (m : ℕ) × ListedAs (key_of d hdr) m
        named =
            list_directory-Gives host asking.user asking hdr.nodeid d.table.id path room dirs files
              refl refl (key_of d hdr).1 (key d.table 1) 1 given before

        f :
            (d' : Daemon) × (tree' : Tree) × (list_directory host asking hdr.nodeid path ≡ some d')
            × IsStore d'.table tree'
            × (view d'.table tree' (key_of d hdr) ≡ some (named.0))
            × (do_lookup host d hdr ≡ lookup_reply d' hdr d.cur_sz (named.0))
            × (named.0 < 2 ^ 32)
        f = found_in (named.0) (named.1) root_after
