-- ===== src/Daemon/Holds.antt =====
-- The cases of `process_commands` that answer about one entry: each keeps the inode store.
use p4fuse.Base.{ℕ, ◌<◌, ◌≤◌, ◌≡◌, refl, ◌∙◌, Option, none, some, sub64}
use p4fuse.Buffer.{alloc_chunk}
use p4fuse.Wire.Request.{InHeader}
use p4fuse.Inode.{Entry, Table, entry, set_entry}
use p4fuse.Inode.Key.{Key}
use p4fuse.Inode.Tree.{Tree}
use p4fuse.Inode.Invariant.{IsStore}
use p4fuse.Inode.Labels.{SameLabel}
use p4fuse.Inode.Alike.{Alike, set_entry-Alike, IsStore-Alike, SameKeys-Alike}
use p4fuse.Client.View.{view, view-SameKeys}
use p4fuse.Daemon.State.{
  Host, Daemon, Outcome, next, wait, full, exit, fault, diverged, place, prologue, with_chunk,
}
use p4fuse.Daemon.Init.{do_init}
use p4fuse.Daemon.Files.{
  do_getattr, do_nosys, do_lseek, do_flush, do_access, do_statfs, do_release, do_read, do_ignore,
  release_entry, statfs_reply,
}

module _ (k : Key) (m : ℕ) (bound : ℕ) where
  -- The table is an inode store that holds the key under the index, at most `bound` indices are given
  -- out, and the length of the client's name, which the next listing starts from, fits 8 bits.
  pub record Holds (t : Table) (nameid : ℕ) : Type 0 where
    pub tree : Tree
    pub store : IsStore t tree
    pub held : view t tree k ≡ some m
    pub name : nameid < 256
    pub ids : t.id ≤ bound

  -- The daemon holds the key, wherever its turn ends.
  abbrev pub HoldsOutcome : Outcome → Type 0
  HoldsOutcome (next d) = Holds d.table d.user.nameid
  HoldsOutcome (wait d) = Holds d.table d.user.nameid
  HoldsOutcome (full d) = Holds d.table d.user.nameid
  HoldsOutcome exit = Unit
  HoldsOutcome fault = Unit
  HoldsOutcome diverged = Unit

  -- An entry changes, but not its label and its links.
  pub set_entry-Holds :
      (t : Table) (nameid n : ℕ) (e : Entry)
      → SameLabel (entry t n) e
      → e.left ≡ (entry t n).left
      → e.right ≡ (entry t n).right
      → Holds t nameid
      → Holds (set_entry t n e) nameid
  set_entry-Holds t nameid n e label left right h = record {
    tree = h.tree;
    store = IsStore-Alike t (set_entry t n e) alike h.tree h.store;
    held =
        view-SameKeys t (set_entry t n e) h.tree k
          (SameKeys-Alike t (set_entry t n e) alike h.tree h.store)
        ∙ h.held;
    name = h.name;
    ids = rw alike.id h.ids;
  }
    where
      alike : Alike t (set_entry t n e)
      alike = set_entry-Alike t n e h.store.arena label left right

  pub place-HoldsOutcome :
      (d : Daemon) (size align : ℕ) (f : ℕ → Daemon → Outcome)
      → ((at c : ℕ) → HoldsOutcome (f at (record d { cur_sz = c })))
      → Holds d.table d.user.nameid
      → HoldsOutcome (with_chunk d (place d size align) f)
  unfolding place
  place-HoldsOutcome d size align f go h = chosen (alloc_chunk d.cur_sz size align).res
    where
      c : ℕ
      c = (alloc_chunk d.cur_sz size align).cur_sz

      chosen :
          (r : Option ℕ)
          → HoldsOutcome (
              with_chunk d
                (elim r [ none ↦ none | some at ↦ some (at, record d { cur_sz = c }) ])
                f)
      chosen none = h
      chosen (some at) = go at c

  module _ (d : Daemon) (hdr : InHeader) (h : Holds d.table d.user.nameid) where
    pub prologue-HoldsOutcome :
        (size : ℕ) (f : ℕ → Daemon → Outcome)
        → ((at c : ℕ) → HoldsOutcome (f at (record d { cur_sz = c })))
        → HoldsOutcome (with_chunk d (prologue d size) f)
    unfolding prologue
    prologue-HoldsOutcome size f go = place-HoldsOutcome d _ 1 f go h

    pub do_init-HoldsOutcome : (host : Host) → HoldsOutcome (do_init host d hdr)
    unfolding do_init
    do_init-HoldsOutcome host = prologue-HoldsOutcome 64 _ (λ at c. h)

    pub do_getattr-HoldsOutcome : HoldsOutcome (do_getattr d hdr)
    unfolding do_getattr
    do_getattr-HoldsOutcome = prologue-HoldsOutcome 104 _ (λ at c. h)

    pub do_nosys-HoldsOutcome : HoldsOutcome (do_nosys d hdr)
    unfolding do_nosys
    do_nosys-HoldsOutcome = place-HoldsOutcome d 16 1 _ (λ at c. h) h

    pub do_lseek-HoldsOutcome : (host : Host) → HoldsOutcome (do_lseek host d hdr)
    unfolding do_lseek
    do_lseek-HoldsOutcome host = prologue-HoldsOutcome 8 _ (λ at c. h)

    pub do_flush-HoldsOutcome : (host : Host) → HoldsOutcome (do_flush host d hdr)
    unfolding do_flush
    do_flush-HoldsOutcome host = prologue-HoldsOutcome 1 _ (λ at c. h)

    pub do_access-HoldsOutcome : HoldsOutcome (do_access d hdr)
    unfolding do_access
    do_access-HoldsOutcome = prologue-HoldsOutcome 1 _ (λ at c. h)

    pub do_ignore-HoldsOutcome : HoldsOutcome (do_ignore d hdr)
    unfolding do_ignore
    do_ignore-HoldsOutcome = h

    pub do_release-HoldsOutcome : HoldsOutcome (do_release d hdr)
    unfolding do_release release_entry
    do_release-HoldsOutcome = prologue-HoldsOutcome 1 _ (λ at c.
        set_entry-Holds d.table d.user.nameid _ _
          (record { parent = refl; slen = refl; name = refl; name_offset = refl }) refl refl h)

    pub do_read-HoldsOutcome : (host : Host) → HoldsOutcome (do_read host d hdr)
    unfolding do_read
    do_read-HoldsOutcome host =
        prologue-HoldsOutcome 1 _
          (λ at c. place-HoldsOutcome (record d { cur_sz = sub64 c 1 }) _ 1 _ (λ at c. h) h)

    pub do_statfs-HoldsOutcome : HoldsOutcome (do_statfs d hdr)
    unfolding do_statfs statfs_reply
    do_statfs-HoldsOutcome =
        chosen (alloc_chunk d.cur_sz 16 1).res
          (alloc_chunk (alloc_chunk d.cur_sz 16 1).cur_sz 80 1).res
      where
        c : ℕ
        c = (alloc_chunk (alloc_chunk d.cur_sz 16 1).cur_sz 80 1).cur_sz

        chosen :
            (r q : Option ℕ)
            → HoldsOutcome (
                statfs_reply d hdr
                  (record { res = r; cur_sz = c })
                  (record { res = q; cur_sz = c }))
        chosen none q = h
        chosen (some at) none = tt
        chosen (some at) (some body) = h
