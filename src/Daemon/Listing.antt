-- ===== src/Daemon/Listing.antt =====
-- FUSE_READDIR and FUSE_LOOKUP answer their requests.
use p4fuse.Base.{
  ℕ, ◌+◌, ◌^◌, ◌≤◌, ◌≡◌, ◌⊎◌, inl, inr, refl, arith, pos, Option, none, some, List, [], ◌∷◌, length,
  u32, add64, sub64, ◌&&◌, Bool-cases, min,
}
use p4fuse.Buffer.{buf_sz, Chunk, align_up, alloc_chunk}
use p4fuse.Buffer.Laws.{alloc_chunk_lem}
use p4fuse.Ring.{copyin_wrap}
use p4fuse.Wire.Request.{InHeader, ReadIn}
use p4fuse.Wire.Reply.{Dirent}
use p4fuse.Inode.{entry}
use p4fuse.Inode.Path.{build_path}
use p4fuse.Inode.Search.{find_all_with_parent}
use p4fuse.Inode.Bounds.{IsSmall}
use p4fuse.Client.{CType, ClientUser}
use p4fuse.Daemon.State.{
  Host, Command, Daemon, Outcome, next, wait, full, exit, fault, diverged, in_header_size,
  out_header_size, place, reply, Body,
}
use p4fuse.Daemon.Answer.{
  Grows, Grows-refl, Grows-trans, Grows-back, Grows-top, Answers, reply-Answers, prologue-Answers,
}
use p4fuse.Daemon.Runs.{
  IsHost, GrowsResult, faulted, grown, run_one-GrowsResult, after_user, after_grown,
  mark_listed-Grows, Answers-result, Answers-path,
}
use p4fuse.Daemon.Dirs.{
  run_one, with_kind, with_directory, pattern_of, list_directory, alloc_dirs, alloc_all,
  send_entries, readdir_reply, do_readdir, is_missing, lookup_reply, lookup_name, is_unlisted,
  lookup_listing, lookup_rest, do_lookup, name_space, filled,
}

then_result :
    (d : Daemon) (r : Option Daemon) (f : Daemon → Option Daemon)
    → GrowsResult d r
    → ((d' : Daemon) → Grows d d' → GrowsResult d' (f d'))
    → GrowsResult d (elim r [ none ↦ none | some d' ↦ f d' ])
then_result d none f g go = faulted
then_result d (some d1) f (grown d2 g) go = after_grown g (go d2 g)

list_directory-GrowsResult :
    (host : Host) (d : Daemon) (node : ℕ) (path : List ℕ)
    → IsHost host
    → d.cur_sz ≤ buf_sz
    → GrowsResult d (list_directory host d node path)
unfolding list_directory
list_directory-GrowsResult host d node path k h =
    then_result d (run_one host (Command.dirs (pattern_of path)) d) _
      (run_one-GrowsResult host _ d k h)
      (λ d1 g1.
        then_result d1 (run_one host (Command.fstat (pattern_of path)) (with_kind d1 CType.files)) _
          (after_user (run_one-GrowsResult host _ (with_kind d1 CType.files) k g1.room))
          (λ d2 g2. grown _ (mark_listed-Grows d2 node g2.room)))

placed_some :
    (d : Daemon) (c : Chunk) (at : ℕ)
    → c.res ≡ some at
    → ◌≡◌ {A = Option (ℕ × Daemon)}
        (elim (c.res) [ none ↦ none | some at ↦ some (at, record d { cur_sz = c.cur_sz }) ])
        (some (at, record d { cur_sz = c.cur_sz }))
placed_some d c at e = rw e refl

placed_none :
    (d : Daemon) (c : Chunk)
    → c.res ≡ none
    → ◌≡◌ {A = Option (ℕ × Daemon)}
        (elim (c.res) [ none ↦ none | some at ↦ some (at, record d { cur_sz = c.cur_sz }) ])
        none
placed_none d c e = rw e refl

place-GrowsResult :
    (d : Daemon) (size : ℕ)
    → d.cur_sz ≤ buf_sz
    → size ≤ 2 ^ 62
    → (place d size 8 ≡ none)
      ⊎ ((d' : Daemon) × (place d size 8 ≡ some (align_up d.cur_sz 8, d')) × Grows d d')
unfolding place
place-GrowsResult d size h k = elim (alloc_chunk_lem 3 (omega arith) d.cur_sz size h k) [
  | inl f ↦ inr (
    _,
    placed_some d (alloc_chunk d.cur_sz size 8) _ f.returns,
    Grows-top d _ (omega (arith, f.above, f.top)) (omega (arith, f.inside, f.top)),
  )
  | inr r ↦ inl (placed_none d (alloc_chunk d.cur_sz size 8) r.null)
]

abbrev GrowsEntries : Daemon → Option (List (ℕ × Dirent) × Daemon) → Type 0
GrowsEntries d none = Unit
GrowsEntries d (some (es, d')) = Grows d d'

alloc_all-GrowsEntries :
    (prev : ℕ) (d : Daemon) (nodes : List ℕ)
    → d.cur_sz ≤ buf_sz
    → IsSmall d.table
    → GrowsEntries d (alloc_all prev d nodes)
unfolding alloc_all alloc_dirs
alloc_all-GrowsEntries prev d [] h s = Grows-refl h
alloc_all-GrowsEntries prev d (node ∷ nodes) h s =
    elim (place-GrowsResult d (24 + (entry d.table node).slen) h (omega (arith, s node))) [
      | inl e ↦ rw (e, GrowsEntries) tt
      | inr (d1, e, g) ↦
          rw (e, GrowsEntries)
            (more _ g (alloc_all prev d1 nodes)
              (alloc_all-GrowsEntries prev d1 nodes g.room (g.small s)))
    ]
  where
    more :
        {d1 : Daemon} (x : ℕ × Dirent)
        → Grows d d1
        → (r : Option (List (ℕ × Dirent) × Daemon)) → GrowsEntries d1 r
        → GrowsEntries d (elim r [ none ↦ none | some (es, d2) ↦ some (x ∷ es, d2) ])
    more x g none k = tt
    more x g (some (es, d2)) k = Grows-trans g k

-- The listing of FUSE_LOOKUP ends the turn, or grows.
data ListedResult (d : Daemon) : Outcome ⊎ Daemon → Type 0 where
  fails : ListedResult d (inl fault)
  never : ListedResult d (inl diverged)
  listed : (d' : Daemon) → Grows d d' → ListedResult d (inr d')

lookup_listing-ListedResult :
    (host : Host) (d : Daemon) (hdr : InHeader) (n : ℕ)
    → IsHost host
    → d.cur_sz ≤ buf_sz
    → ListedResult d (lookup_listing host d hdr n)
unfolding lookup_listing
lookup_listing-ListedResult host d hdr n k h =
    elim (Bool-cases (is_missing n && is_unlisted d hdr.nodeid)) [
      | inl e ↦ rw e (path (build_path d.table hdr.nodeid))
      | inr e ↦ rw e (listed d (Grows-refl h))
    ]
  where
    ran :
        (r : Option Daemon)
        → GrowsResult d r
        → ListedResult d (elim r [ none ↦ inl fault | some d' ↦ inr d' ])
    ran none g = fails
    ran (some d1) (grown d2 g) = listed d2 g

    path :
        (p : Option (List ℕ))
        → ListedResult d (elim p [
          | none ↦ inl diverged
          | some path ↦
              elim (list_directory host
                (with_directory d hdr.nodeid (length path))
                hdr.nodeid
                path) [ none ↦ inl fault | some d' ↦ inr d' ]
        ])
    path none = never
    path (some p) = ran _ (after_user (list_directory-GrowsResult host _ hdr.nodeid p k h))

module _ (d : Daemon) (hdr : InHeader) (room : d.cur_sz ≤ buf_sz) (small : IsSmall d.table) where
  send_entries-Answers :
      (d1 : Daemon) (read_in : ReadIn)
      → Grows d d1
      → d.cur_sz + out_header_size ≤ d1.cur_sz
      → Answers d hdr (send_entries d1 hdr read_in d.cur_sz)
  unfolding send_entries
  send_entries-Answers d1 read_in g h =
      walk (find_all_with_parent d1.table (u32 hdr.nodeid) (2 ^ 32) 1)
    where
      fill :
          (r : Option (List (ℕ × Dirent) × Daemon)) (len : Daemon → ℕ)
          → GrowsEntries d1 r
          → Answers d hdr (elim r [
            | none ↦ fault
            | some (es, d2) ↦
                reply d2 hdr d.cur_sz (len d2) (pos 0) (Body.dirents read_in.offset es)
          ])
      fill none len k = tt
      fill (some (es, d2)) len k =
          reply-Answers d hdr d2 d.cur_sz _ _ _ (Grows-trans g k) (omega arith)
            (omega (arith, k.above))

      walk :
          (nodes : Option (List ℕ))
          → Answers d hdr (elim nodes [
            | none ↦ diverged
            | some ns ↦ elim (alloc_all d1.cur_sz d1 ns) [
              | none ↦ fault
              | some (es, d2) ↦
                  reply d2 hdr d.cur_sz
                    (u32 (
                      out_header_size
                      + min (sub64 (filled d2.cur_sz d1.cur_sz) read_in.offset) read_in.size))
                    (pos 0)
                    (Body.dirents read_in.offset es)
            ]
          ])
      walk none = tt
      walk (some ns) =
          fill (alloc_all d1.cur_sz d1 ns) _
            (alloc_all-GrowsEntries d1.cur_sz d1 ns g.room (g.small small))

  -- FUSE_READDIR on the daemon with the chunk of the header only.
  list_rest :
      (host : Host)
      → IsHost host
      → (d2 : Daemon) (read_in : ReadIn) → Grows d d2
      → d.cur_sz + out_header_size ≤ d2.cur_sz
      → Answers d hdr (readdir_reply host d2 hdr read_in d.cur_sz)
  unfolding readdir_reply
  list_rest host k d2 read_in g h = Answers-path d hdr (build_path d2.table hdr.nodeid) _ (λ path.
      elim (Bool-cases (entry d2.table hdr.nodeid).b_list) [
        | inl e ↦ rw e (send_entries-Answers _ read_in (user g) h)
        | inr e ↦ rw e (
            Answers-result d d2 hdr
              (list_directory host (with_directory d2 hdr.nodeid (length path)) hdr.nodeid path) _
              (after_user (list_directory-GrowsResult host _ hdr.nodeid path k g.room))
              (λ d4 g4.
                send_entries-Answers d4 read_in (Grows-trans g g4) (omega (arith, g4.above))))
      ])
    where
      user : {d2 : Daemon} {u : ClientUser} → Grows d d2 → Grows d (record d2 { user = u })
      user g = record {
        cur = g.cur;
        head = g.head;
        read_buf = g.read_buf;
        flight = g.flight;
        num_rqs = g.num_rqs;
        above = g.above;
        room = g.room;
        small = g.small;
      }

  pub do_readdir-Answers : (host : Host) → IsHost host → Answers d hdr (do_readdir host d hdr)
  unfolding do_readdir
  do_readdir-Answers host k = prologue-Answers d hdr 24 _ room (omega arith) (λ d1 g e.
      list_rest host k (record d1 { cur_sz = sub64 d1.cur_sz 24 }) _
        (Grows-back 24 g (omega (arith, e))) (omega (arith, e, g.room)))

  lookup_reply-Answers :
      (d1 : Daemon) (n : ℕ)
      → Grows d d1
      → d.cur_sz + out_header_size ≤ d1.cur_sz
      → Answers d hdr (lookup_reply d1 hdr d.cur_sz n)
  unfolding lookup_reply
  lookup_reply-Answers d1 n g h = elim (Bool-cases (is_missing n)) [
    | inl e ↦ rw e (reply-Answers d hdr d1 d.cur_sz _ _ _ g (omega arith) h)
    | inr e ↦ rw e (reply-Answers d hdr d1 d.cur_sz _ _ _ g (omega arith) h)
  ]

  -- The end of FUSE_LOOKUP on what the listing gives.
  listed_rest :
      (d1 : Daemon) (buf : List ℕ) (r : Outcome ⊎ Daemon)
      → Grows d d1
      → d.cur_sz + out_header_size ≤ d1.cur_sz
      → ListedResult d1 r
      → Answers d hdr (elim r [
        | inl o ↦ o
        | inr d2 ↦ elim (lookup_name d2 hdr buf) [
          | none ↦ diverged
          | some n' ↦ lookup_reply d2 hdr d.cur_sz n'
        ]
      ])
  listed_rest d1 buf (inl fault) g h fails = tt
  listed_rest d1 buf (inl diverged) g h never = tt
  listed_rest d1 buf (inl (next o)) g h a = elim a [ ]
  listed_rest d1 buf (inl (wait o)) g h a = elim a [ ]
  listed_rest d1 buf (inl (full o)) g h a = elim a [ ]
  listed_rest d1 buf (inl exit) g h a = elim a [ ]
  listed_rest d1 buf (inr d2) g h (listed d3 g2) = search (lookup_name d3 hdr buf)
    where
      search :
          (r : Option ℕ)
          → Answers d hdr (elim r [ none ↦ diverged | some n' ↦ lookup_reply d3 hdr d.cur_sz n' ])
      search none = tt
      search (some n') = lookup_reply-Answers d3 n' (Grows-trans g g2) (omega (arith, g2.above))

  pub do_lookup-Answers : (host : Host) → IsHost host → Answers d hdr (do_lookup host d hdr)
  unfolding do_lookup lookup_rest
  do_lookup-Answers host k = prologue-Answers d hdr 128 _ room (omega arith) (λ d1 g e.
      first d1 g e (copyin_wrap d1.read_buf (name_space hdr) (add64 d1.cur in_header_size)))
    where
      first :
          (d1 : Daemon)
          → Grows d d1
          → d1.cur_sz ≡ d.cur_sz + (out_header_size + 128)
          → (buf : List ℕ) → Answers d hdr (lookup_rest host d1 hdr d.cur_sz buf)
      first d1 g e buf = search (lookup_name d1 hdr buf)
        where
          search :
              (r : Option ℕ)
              → Answers d hdr (elim r [
                | none ↦ diverged
                | some n ↦ elim (lookup_listing host d1 hdr n) [
                  | inl o ↦ o
                  | inr d2 ↦ elim (lookup_name d2 hdr buf) [
                    | none ↦ diverged
                    | some n' ↦ lookup_reply d2 hdr d.cur_sz n'
                  ]
                ]
              ])
          search none = tt
          search (some n) =
              listed_rest d1 buf (lookup_listing host d1 hdr n) g (omega (arith, e))
                (lookup_listing-ListedResult host d1 hdr n k g.room)
