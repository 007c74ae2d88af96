-- ===== src/Daemon/Listers.antt =====
-- FUSE_READDIR and FUSE_LOOKUP keep the inode store, whatever they list.
use p4fuse.Base.{
  ℕ, ◌+◌, ◌*◌, ◌^◌, ◌<◌, ◌≤◌, ◌≡◌, refl, inl, inr, ◌⊎◌, arith, Option, none, some, List, length,
  u32, sub64, ◌&&◌, Bool-cases, All,
}
use p4fuse.Wire.Request.{InHeader, ReadIn}
use p4fuse.Inode.{entry}
use p4fuse.Inode.Path.{build_path}
use p4fuse.Inode.Key.{Key}
use p4fuse.Client.{CType}
use p4fuse.Client.Keeping.{Keeping}
use p4fuse.Client.Lines.{IsLine}
use p4fuse.Daemon.State.{Host, Command, Daemon, Outcome, fault, diverged, session}
use p4fuse.Daemon.Dirs.{
  with_directory, pattern_of, list_directory, send_entries, readdir_reply, do_readdir, is_missing,
  lookup_reply, lookup_name, is_unlisted, lookup_listing, lookup_rest, do_lookup,
}
use p4fuse.Daemon.Holds.{Holds, HoldsOutcome, prologue-HoldsOutcome}
use p4fuse.Daemon.Sends.{send_entries-HoldsOutcome}
use p4fuse.Daemon.Paths.{path-HoldsOutcome}
use p4fuse.Daemon.Stores.{Listed, list_directory-Keeping}

-- The server answers the commands of a listing with lines, at most `most` of them, of which each
-- that gives a name reaches the end of the directory's path and has at most 255 bytes behind it.
pub record IsServer (most : ℕ) (host : Host) : Type 0 where
  pub dirs :
      (path : List ℕ)
      → All (IsLine CType.dirs (length path)) (host.run (Command.dirs (pattern_of path)))
  pub files :
      (path : List ℕ)
      → All (IsLine CType.files (length path)) (host.run (Command.fstat (pattern_of path)))
  pub few_dirs : (path : List ℕ) → length (host.run (Command.dirs (pattern_of path))) ≤ most
  pub few_files : (path : List ℕ) → length (host.run (Command.fstat (pattern_of path))) ≤ most

pub Holds-≤ :
    (k : Key) (m : ℕ) {a b t nameid : _} → a ≤ b → Holds k m a t nameid → Holds k m b t nameid
Holds-≤ k m le h = record {
  tree = h.tree;
  store = h.store;
  held = h.held;
  name = h.name;
  ids = omega (arith, h.ids, le);
}

module _ (k : Key) (m most bound : ℕ) (room : bound + 6 * most < 2 ^ 32) (host : Host)
    (s : IsServer most host) where
  abbrev after : ℕ
  after = bound + 6 * most

  -- A listing.
  list_directory-Holds :
      (d : Daemon) (node : ℕ) (path : List ℕ)
      → u32 node < 2 ^ 31
      → Holds k m bound d.table d.user.nameid
      → (d' : Daemon) × (list_directory host (with_directory d node (length path)) node path
          ≡ some d')
        × Holds k m after d'.table d'.user.nameid
  list_directory-Holds d node path low h = go (
      list_directory-Keeping host d1.user d1 node bound path room1 (s.dirs path) (s.files path) k m
        before)
    where
      room1 :
          bound
            + 3 * length (host.run (Command.dirs (pattern_of path)))
            + 3 * length (host.run (Command.fstat (pattern_of path)))
          < 2 ^ 32
      room1 = omega (arith, s.few_dirs path, s.few_files path)

      d1 : Daemon
      d1 = with_directory d node (length path)

      before : Keeping k m d1.user bound (session d1)
      before = record {
        tree = h.tree;
        store = h.store;
        held = h.held;
        parent = low;
        name = h.name;
        line = refl;
        dir = refl;
        kind = refl;
        err = refl;
        ids = h.ids;
      }

      go :
          Listed host d1.user d1 node bound path room1 (s.dirs path) (s.files path) k m
          → (d' : Daemon) × (list_directory host d1 node path ≡ some d')
            × Holds k m after d'.table d'.user.nameid
      go (d', e, g) = (
        d',
        e,
        record {
          tree = g.tree;
          store = g.store;
          held = g.held;
          name = g.name;
          ids = omega (arith, g.ids, s.few_dirs path, s.few_files path);
        },
      )

  pub do_readdir-HoldsOutcome :
      (d : Daemon) (hdr : InHeader)
      → u32 hdr.nodeid < 2 ^ 31
      → Holds k m bound d.table d.user.nameid
      → HoldsOutcome k m after (do_readdir host d hdr)
  unfolding do_readdir readdir_reply
  do_readdir-HoldsOutcome d hdr low h =
      prologue-HoldsOutcome k m after d hdr (Holds-≤ k m (omega arith) h) 24 _ (λ at c.
        path-HoldsOutcome k m after (build_path d.table hdr.nodeid) _ (λ path.
          elim (Bool-cases (entry d.table hdr.nodeid).b_list) [
            | inl e ↦ rw e (
                send_entries-HoldsOutcome k m after hdr
                  (with_directory (record d { cur_sz = sub64 c 24 }) hdr.nodeid (length path)) at _
                  (Holds-≤ k m (omega arith) h))
            | inr e ↦ rw e (
                listed (record d { cur_sz = sub64 c 24 }) at path _
                  (list_directory-Holds (record d { cur_sz = sub64 c 24 }) hdr.nodeid path low h))
          ]))
    where
      listed :
          (d1 : Daemon) (at : ℕ) (path : List ℕ) (read_in : ReadIn)
          → (d' : Daemon) × (list_directory host
                (with_directory d1 hdr.nodeid (length path))
                hdr.nodeid
                path
              ≡ some d')
            × Holds k m after d'.table d'.user.nameid
          → HoldsOutcome k m after
              (elim (list_directory host
                (with_directory d1 hdr.nodeid (length path))
                hdr.nodeid
                path) [ none ↦ fault | some d2 ↦ send_entries d2 hdr read_in at ])
      listed d1 at path read_in (d', e, g) =
          rw e (send_entries-HoldsOutcome k m after hdr d' at _ g)

  lookup_reply-HoldsOutcome :
      (d : Daemon) (hdr : InHeader) (at n : ℕ)
      → Holds k m after d.table d.user.nameid
      → HoldsOutcome k m after (lookup_reply d hdr at n)
  unfolding lookup_reply
  lookup_reply-HoldsOutcome d hdr at n h = elim (Bool-cases (is_missing n)) [
    | inl e ↦ rw e h
    | inr e ↦ rw e h
  ]

  -- The end of FUSE_LOOKUP.
  search_again :
      (d : Daemon) (hdr : InHeader) (at : ℕ) (buf : List ℕ)
      → Holds k m after d.table d.user.nameid
      → HoldsOutcome k m after
          (elim (lookup_name d hdr buf) [ none ↦ diverged | some n' ↦ lookup_reply d hdr at n' ])
  search_again d hdr at buf h = go (lookup_name d hdr buf)
    where
      go :
          (r : Option ℕ)
          → HoldsOutcome k m after (elim r [ none ↦ diverged | some n' ↦ lookup_reply d hdr at n' ])
      go none = tt
      go (some n') = lookup_reply-HoldsOutcome d hdr at n' h

  -- What the listing of FUSE_LOOKUP may end in.
  abbrev HoldsListing : Outcome ⊎ Daemon → Type 0
  HoldsListing (inl o) = HoldsOutcome k m after o
  HoldsListing (inr d) = Holds k m after d.table d.user.nameid

  lookup_listing-HoldsListing :
      (d : Daemon) (hdr : InHeader) (n : ℕ)
      → u32 hdr.nodeid < 2 ^ 31
      → Holds k m bound d.table d.user.nameid
      → HoldsListing (lookup_listing host d hdr n)
  unfolding lookup_listing
  lookup_listing-HoldsListing d hdr n low h =
      elim (Bool-cases (is_missing n && is_unlisted d hdr.nodeid)) [
        | inl e ↦ rw e (path (build_path d.table hdr.nodeid))
        | inr e ↦ rw e (Holds-≤ k m (omega arith) h)
      ]
    where
      listed :
          (path : List ℕ)
          → (d' : Daemon) × (list_directory host
                (with_directory d hdr.nodeid (length path))
                hdr.nodeid
                path
              ≡ some d')
            × Holds k m after d'.table d'.user.nameid
          → HoldsListing
              (elim (list_directory host
                (with_directory d hdr.nodeid (length path))
                hdr.nodeid
                path) [ none ↦ inl fault | some d' ↦ inr d' ])
      listed path (d', e, g) = rw e g

      path :
          (p : Option (List ℕ))
          → HoldsListing (elim p [
            | none ↦ inl diverged
            | some path ↦
                elim (list_directory host
                  (with_directory d hdr.nodeid (length path))
                  hdr.nodeid
                  path) [ none ↦ inl fault | some d' ↦ inr d' ]
          ])
      path none = tt
      path (some p) = listed p (list_directory-Holds d hdr.nodeid p low h)

  pub do_lookup-HoldsOutcome :
      (d : Daemon) (hdr : InHeader)
      → u32 hdr.nodeid < 2 ^ 31
      → Holds k m bound d.table d.user.nameid
      → HoldsOutcome k m after (do_lookup host d hdr)
  unfolding do_lookup lookup_rest
  do_lookup-HoldsOutcome d hdr low h =
      prologue-HoldsOutcome k m after d hdr (Holds-≤ k m (omega arith) h) 128 _
        (λ at c. first (record d { cur_sz = c }) at _ h (lookup_name _ hdr _))
    where
      rest :
          (d1 : Daemon) (at : ℕ) (buf : List ℕ) (r : Outcome ⊎ Daemon)
          → HoldsListing r
          → HoldsOutcome k m after (elim r [
            | inl o ↦ o
            | inr d2 ↦ elim (lookup_name d2 hdr buf) [
              | none ↦ diverged
              | some n' ↦ lookup_reply d2 hdr at n'
            ]
          ])
      rest d1 at buf (inl o) g = g
      rest d1 at buf (inr d2) g = search_again d2 hdr at buf g

      first :
          (d1 : Daemon) (at : ℕ) (buf : List ℕ)
          → Holds k m bound d1.table d1.user.nameid
          → (r : Option ℕ)
          → HoldsOutcome k m after (elim r [
            | none ↦ diverged
            | some n ↦ elim (lookup_listing host d1 hdr n) [
              | inl o ↦ o
              | inr d2 ↦ elim (lookup_name d2 hdr buf) [
                | none ↦ diverged
                | some n' ↦ lookup_reply d2 hdr at n'
              ]
            ]
          ])
      first d1 at buf g none = tt
      first d1 at buf g (some n) =
          rest d1 at buf (lookup_listing host d1 hdr n) (lookup_listing-HoldsListing d1 hdr n low g)
