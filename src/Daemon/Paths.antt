-- ===== src/Daemon/Paths.antt =====
-- The cases of `process_commands` that ask the server: each keeps the inode store.
use p4fuse.Base.{
  ℕ, zero, suc, ◌-◌, ◌*◌, refl, inl, inr, Option, none, some, List, length, take, u64, to_u64, ◌==◌,
  Bool-cases,
}
use p4fuse.Buffer.{alloc_chunk}
use p4fuse.Wire.Request.{InHeader}
use p4fuse.Inode.{entry}
use p4fuse.Inode.Path.{build_path}
use p4fuse.Inode.Key.{Key}
use p4fuse.Client.{CType, Session}
use p4fuse.Client.Syncs.{SameResult, run_outputs-SameResult}
use p4fuse.Daemon.State.{
  Host, Command, Daemon, Outcome, fault, diverged, session, with_session, place, Placed,
}
use p4fuse.Daemon.Open.{
  mark_listed, sync_file, Link, link_loop, link_reply, readlink_reply, do_readlink, open_entry,
  do_open,
}
use p4fuse.Daemon.Holds.{
  Holds, HoldsOutcome, set_entry-Holds, place-HoldsOutcome, prologue-HoldsOutcome,
}

module _ (k : Key) (m : ℕ) (bound : ℕ) where
  -- A case that goes on from a path.
  pub path-HoldsOutcome :
      (p : Option (List ℕ)) (f : List ℕ → Outcome)
      → ((path : List ℕ) → HoldsOutcome k m bound (f path))
      → HoldsOutcome k m bound (elim p [ none ↦ diverged | some path ↦ f path ])
  path-HoldsOutcome none f go = tt
  path-HoldsOutcome (some path) f go = go path

  pub mark_listed-Holds :
      (d : Daemon) (node : ℕ)
      → Holds k m bound d.table d.user.nameid
      → Holds k m bound (mark_listed d node).table d.user.nameid
  mark_listed-Holds d node h =
      set_entry-Holds k m bound d.table d.user.nameid node _
        (record { parent = refl; slen = refl; name = refl; name_offset = refl }) refl refl h

  -- A case that goes on from the synced file.
  sync_file-HoldsOutcome :
      (host : Host) (d : Daemon) (node : ℕ) (path : List ℕ) (f : Daemon → Outcome)
      → Holds k m bound d.table d.user.nameid
      → ((d' : Daemon) → Holds k m bound d'.table d'.user.nameid → HoldsOutcome k m bound (f d'))
      → HoldsOutcome k m bound (elim (sync_file host d node path) [ none ↦ fault | some d' ↦ f d' ])
  unfolding sync_file
  sync_file-HoldsOutcome host d node path f h go = elim (Bool-cases (entry d.table node).b_list) [
    | inl e ↦ rw e (go d h)
    | inr e ↦ rw e (ran _ (run_outputs-SameResult (host.run (Command.sync path)) (session d2) refl))
  ]
    where
      d2 : Daemon
      d2 = record (mark_listed d node) { user = record (d.user) { kind = CType.sync } }

      with_result : Option Session → Option Daemon
      with_result r = elim r [ none ↦ none | some s ↦ some (with_session d2 s) ]

      ran :
          (r : Option Session)
          → SameResult (session d2) r
          → HoldsOutcome k m bound (elim (with_result r) [ none ↦ fault | some d' ↦ f d' ])
      ran none e = tt
      ran (some s) e = go (with_session d2 s) (rw (e.0, e.1) (mark_listed-Holds d node h))

  module _ (host : Host) (d : Daemon) (hdr : InHeader)
      (h : Holds k m bound d.table d.user.nameid) where
    pub do_open-HoldsOutcome : HoldsOutcome k m bound (do_open host d hdr)
    unfolding do_open open_entry
    do_open-HoldsOutcome = prologue-HoldsOutcome k m bound d hdr h 16 _ (λ at c.
        path-HoldsOutcome (build_path d.table hdr.nodeid) _ (λ path.
          sync_file-HoldsOutcome host (record d { cur_sz = c }) hdr.nodeid
            (take (length path - 1) path) _ h
            (λ d2 h2.
              set_entry-Holds k m bound d2.table d2.user.nameid hdr.nodeid _
                (record { parent = refl; slen = refl; name = refl; name_offset = refl }) refl refl
                h2)))

    -- The loop on the link's text takes chunks only.
    link_reply-HoldsOutcome :
        (path : List ℕ) (outh : Option ℕ) (buf fuel msz : ℕ) (b : Daemon)
        → Holds k m bound b.table b.user.nameid
        → HoldsOutcome k m bound (link_reply hdr outh buf (link_loop host path fuel msz b))
    unfolding link_loop link_reply place
    link_reply-HoldsOutcome path outh buf zero msz b g = tt
    link_reply-HoldsOutcome path outh buf (suc fuel) msz b g =
        elim (Bool-cases (to_u64 (host.read_link path msz).0 == msz)) [
          | inl e ↦ rw e (
              chosen (alloc_chunk b.cur_sz msz 1).res (
                link_reply-HoldsOutcome path outh buf fuel (u64 (msz * 2))
                  (record b { cur_sz = top }) g))
          | inr e ↦ rw e (end outh)
        ]
      where
        top : ℕ
        top = (alloc_chunk b.cur_sz msz 1).cur_sz

        put : Option ℕ → Placed
        put r = elim r [ none ↦ none | some at ↦ some (at, record b { cur_sz = top }) ]

        chosen :
            (r : Option ℕ)
            → HoldsOutcome k m bound (
                link_reply hdr outh buf
                  (link_loop host path fuel (u64 (msz * 2)) (record b { cur_sz = top })))
            → HoldsOutcome k m bound (
                link_reply hdr outh buf (elim (put r) [
                  | none ↦ Link.no_room b
                  | some (at, d') ↦ link_loop host path fuel (u64 (msz * 2)) d'
                ]))
        chosen none rest = g
        chosen (some at) rest = rest

        end :
            (outh : Option ℕ)
            → HoldsOutcome k m bound (
                link_reply hdr outh buf
                  (Link.read (host.read_link path msz).0 (host.read_link path msz).1 b))
        end none = tt
        end (some at) = g

    readlink_rest :
        (outh : Option ℕ) (d1 : Daemon)
        → Holds k m bound d1.table d1.user.nameid
        → HoldsOutcome k m bound (readlink_reply host hdr outh d1)
    unfolding readlink_reply
    readlink_rest outh d1 g = path-HoldsOutcome (build_path d1.table hdr.nodeid) _ (λ path.
        sync_file-HoldsOutcome host d1 hdr.nodeid (take (length path - 1) path) _ g (λ d2 g2.
          place-HoldsOutcome k m bound d2 128 1 _
            (λ at c. link_reply-HoldsOutcome _ outh at 64 128 (record d2 { cur_sz = c }) g2) g2))

    pub do_readlink-HoldsOutcome : HoldsOutcome k m bound (do_readlink host d hdr)
    unfolding do_readlink place
    do_readlink-HoldsOutcome = chosen (alloc_chunk d.cur_sz 16 1).res
      where
        top : ℕ
        top = (alloc_chunk d.cur_sz 16 1).cur_sz

        put : Option ℕ → Placed
        put r = elim r [ none ↦ none | some at ↦ some (at, record d { cur_sz = top }) ]

        chosen :
            (r : Option ℕ)
            → HoldsOutcome k m bound (elim (put r) [
              | none ↦ readlink_reply host hdr none d
              | some (at, d') ↦ readlink_reply host hdr (some at) d'
            ])
        chosen none = readlink_rest none d h
        chosen (some at) = readlink_rest (some at) (record d { cur_sz = top }) h
