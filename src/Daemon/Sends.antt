-- ===== src/Daemon/Sends.antt =====
-- The end of FUSE_READDIR keeps the inode store.
use p4fuse.Base.{
  ℕ, ◌+◌, ◌^◌, ◌≡◌, refl, inl, inr, ◌⊎◌, Option, none, some, List, [], ◌∷◌, u32, sub64, min, pos,
}
use p4fuse.Buffer.{alloc_chunk}
use p4fuse.Wire.Request.{InHeader, ReadIn}
use p4fuse.Wire.Reply.{Dirent}
use p4fuse.Inode.{entry}
use p4fuse.Inode.Search.{find_all_with_parent}
use p4fuse.Inode.Key.{Key}
use p4fuse.Daemon.State.{Daemon, fault, diverged, place, Placed, reply, Body, out_header_size}
use p4fuse.Daemon.Dirs.{alloc_dirs, alloc_all, send_entries, filled}
use p4fuse.Daemon.Holds.{Holds, HoldsOutcome}

-- The entries of a directory take chunks only.
abbrev SameEntries : Daemon → Option (List (ℕ × Dirent) × Daemon) → Type 0
SameEntries d none = Unit
SameEntries d (some (es, d')) = (d'.table ≡ d.table) × (d'.user ≡ d.user)

-- A chunk moves the top of the buffer only.
place_moves :
    (d : Daemon) (size align : ℕ)
    → (place d size align ≡ none)
      ⊎ ((at : ℕ) × (c : ℕ) × (place d size align ≡ some (at, record d { cur_sz = c })))
unfolding place
place_moves d size align = go (alloc_chunk d.cur_sz size align).res
  where
    c : ℕ
    c = (alloc_chunk d.cur_sz size align).cur_sz

    put : Option ℕ → Placed
    put r = elim r [ none ↦ none | some at ↦ some (at, record d { cur_sz = c }) ]

    go :
        (r : Option ℕ)
        → (put r ≡ none) ⊎ ((at : ℕ) × (c : ℕ) × (put r ≡ some (at, record d { cur_sz = c })))
    go none = inl refl
    go (some at) = inr (at, c, refl)

alloc_all-SameEntries :
    (prev : ℕ) (d : Daemon) (nodes : List ℕ) → SameEntries d (alloc_all prev d nodes)
unfolding alloc_all alloc_dirs
alloc_all-SameEntries prev d [] = (refl, refl)
alloc_all-SameEntries prev d (node ∷ nodes) =
    elim (place_moves d (24 + (entry d.table node).slen) 8) [
      | inl e ↦ rw (e, SameEntries) tt
      | inr (at, c, e) ↦
          rw (e, SameEntries)
            (more c _ (alloc_all prev (record d { cur_sz = c }) nodes)
              (alloc_all-SameEntries prev (record d { cur_sz = c }) nodes))
    ]
  where
    more :
        (c : ℕ) (x : ℕ × Dirent) (r : Option (List (ℕ × Dirent) × Daemon))
        → SameEntries (record d { cur_sz = c }) r
        → SameEntries d (elim r [ none ↦ none | some (es, d2) ↦ some (x ∷ es, d2) ])
    more c x none e = tt
    more c x (some (es, d2)) e = e

pub send_entries-HoldsOutcome :
    (k : Key) (m bound : ℕ) (hdr : InHeader) (d : Daemon) (at : ℕ) (read_in : ReadIn)
    → Holds k m bound d.table d.user.nameid
    → HoldsOutcome k m bound (send_entries d hdr read_in at)
unfolding send_entries
send_entries-HoldsOutcome k m bound hdr d at read_in h =
    walk (find_all_with_parent d.table (u32 hdr.nodeid) (2 ^ 32) 1)
  where
    fill :
        (r : Option (List (ℕ × Dirent) × Daemon)) (len : Daemon → ℕ)
        → SameEntries d r
        → HoldsOutcome k m bound (elim r [
          | none ↦ fault
          | some (es, d2) ↦ reply d2 hdr at (len d2) (pos 0) (Body.dirents read_in.offset es)
        ])
    fill none len e = tt
    fill (some (es, d2)) len e = rw (e.0, e.1) h

    walk :
        (nodes : Option (List ℕ))
        → HoldsOutcome k m bound (elim nodes [
          | none ↦ diverged
          | some ns ↦ elim (alloc_all d.cur_sz d ns) [
            | none ↦ fault
            | some (es, d2) ↦
                reply d2 hdr at
                  (u32 (
                    out_header_size
                    + min (sub64 (filled d2.cur_sz d.cur_sz) read_in.offset) read_in.size))
                  (pos 0)
                  (Body.dirents read_in.offset es)
          ]
        ])
    walk none = tt
    walk (some ns) = fill (alloc_all d.cur_sz d ns) _ (alloc_all-SameEntries d.cur_sz d ns)
