-- ===== src/Daemon/Lookups.antt =====
-- FUSE_LOOKUP on a table whose links form a search tree.
use p4fuse.Base.Bits.{bit_or-fields}
use p4fuse.Base.{
  ℕ, ◌+◌, ◌-◌, ◌^◌, ◌<◌, ◌≤◌, ◌≡◌, ◌≢◌, refl, sym, ◌∙◌, arith, pos, negsuc, true, false, some, List,
  u32, add64, ptr,
}
use p4fuse.Buffer.{buf_sz}
use p4fuse.Ring.{copyin_wrap, load}
use p4fuse.Wire.Request.{InHeader}
use p4fuse.Inode.{entry}
use p4fuse.Inode.Search.{find_path, missing}
use p4fuse.Inode.Key.{Key, key}
use p4fuse.Inode.Tree.{Tree, In, IsTable}
use p4fuse.Inode.Find.{find_path-In, find_path_absent}
use p4fuse.Daemon.State.{Host, Daemon, Body, reply, in_header_size, prologue}
use p4fuse.Daemon.Answer.{place_fits}
use p4fuse.Daemon.Dirs.{
  lookup_attr, is_missing, lookup_reply, name_space, name_len, lookup_name, is_unlisted,
  lookup_listing, lookup_rest, do_lookup,
}

-- The name that FUSE_LOOKUP reads behind the header, and the key that it searches.
abbrev pub name_bytes_of : Daemon → InHeader → List ℕ
name_bytes_of d hdr = copyin_wrap d.read_buf (name_space hdr) (add64 d.cur in_header_size)

abbrev pub key_of : Daemon → InHeader → Key
key_of d hdr = (u32 hdr.nodeid, load (ptr (name_bytes_of d hdr)) 0 (name_len hdr))

-- The daemon with the chunk for a reply of FUSE_LOOKUP.
abbrev pub with_entry_chunk : Daemon → Daemon
with_entry_chunk d = record d { cur_sz = d.cur_sz + 144 }

pub not_missing_lem : (m : ℕ) → m < 2 ^ 32 → is_missing m ≡ false
unfolding is_missing
not_missing_lem m h = ground arith

pub missing_lem : (x : ℕ) → x < 2 ^ 32 → is_missing (missing x) ≡ true
unfolding is_missing
missing_lem x h = ground (arith, bit_or-fields 32 1 x h)

pub same_unlisted :
    (d : Daemon) (node : ℕ) → is_unlisted (with_entry_chunk d) node ≡ is_unlisted d node
unfolding is_unlisted
same_unlisted d node = refl

pub searched :
    (d : Daemon) (hdr : InHeader) (buf : List ℕ) (r : ℕ)
    → find_path d.table (u32 hdr.nodeid) (ptr buf) (name_len hdr) ≡ some r
    → lookup_name d hdr buf ≡ some r
unfolding lookup_name
searched d hdr buf r e = e

module _ (host : Host) (d : Daemon) (hdr : InHeader) (s : Tree) (v : IsTable d.table s)
    (fits : d.cur_sz + 144 ≤ buf_sz) (small : u32 hdr.nodeid < 2 ^ 31) where
  -- Behind the chunk.
  pub placed :
      do_lookup host d hdr
      ≡ lookup_rest host (with_entry_chunk d) hdr d.cur_sz (name_bytes_of d hdr)
  unfolding do_lookup prologue
  placed = rw (place_fits d 144 fits) refl

  -- FUSE_LOOKUP in a table whose links form an ordered search tree, with a parent below 2 ^ 31 and
  -- room for the reply, of a name that an entry of the tree other than the root has, its index
  -- below 2 ^ 32: the reply holds the entry's index, its generation and its attributes, and no
  -- error, and nothing is asked of the server.
  pub do_lookup-In :
      (m : ℕ)
      → In m s
      → m < 2 ^ 32
      → key d.table m ≡ key_of d hdr
      → key_of d hdr ≢ key d.table 1
      → do_lookup host d hdr
        ≡ reply (with_entry_chunk d) hdr d.cur_sz 144 (pos 0) (
            Body.entry (record {
              nodeid = m;
              generation = (entry d.table m).gen;
              entry_valid = 0;
              attr_valid = 0;
              entry_valid_nsec = 0;
              attr_valid_nsec = 0;
              attr = lookup_attr (entry d.table m) m;
            }))
  unfolding lookup_rest lookup_listing lookup_reply
  do_lookup-In m i b e ne =
      placed
      ∙ rw (found, not_missing, lookup_rest, lookup_listing)
          (rw (found, not_missing, lookup_reply) refl)
    where
      found : lookup_name (with_entry_chunk d) hdr (name_bytes_of d hdr) ≡ some m
      found = searched (with_entry_chunk d) hdr (name_bytes_of d hdr) m (
          find_path-In d.table s m (u32 hdr.nodeid) (ptr (name_bytes_of d hdr)) (name_len hdr) v
            small (omega arith) i e ne)

      not_missing : is_missing m ≡ false
      not_missing = not_missing_lem m b

  -- No entry has the name cut to 8 bits.
  lookup_absent :
      ((m : ℕ) → In m s → m < 2 ^ 32)
      → ((m : ℕ) → In m s → key_of d hdr ≢ key d.table m)
      → is_unlisted d hdr.nodeid ≡ false
      → do_lookup host d hdr ≡ reply (with_entry_chunk d) hdr d.cur_sz 16 (negsuc 1) Body.empty
  unfolding lookup_rest lookup_listing lookup_reply
  lookup_absent b a l = go (
      find_path_absent d.table s (u32 hdr.nodeid) (ptr (name_bytes_of d hdr)) (name_len hdr) v small
        (omega arith) a)
    where
      go :
          (x : ℕ) × In x s
            × (find_path d.table (u32 hdr.nodeid) (ptr (name_bytes_of d hdr)) (name_len hdr)
                ≡ some (missing x))
          → do_lookup host d hdr ≡ reply (with_entry_chunk d) hdr d.cur_sz 16 (negsuc 1) Body.empty
      go (x, i, e) =
          placed
          ∙ rw (found, is_missing_x, unlisted, lookup_rest, lookup_listing)
              (rw (found, is_missing_x, lookup_reply) refl)
        where
          found : lookup_name (with_entry_chunk d) hdr (name_bytes_of d hdr) ≡ some (missing x)
          found = searched (with_entry_chunk d) hdr (name_bytes_of d hdr) (missing x) e

          unlisted : is_unlisted (with_entry_chunk d) hdr.nodeid ≡ false
          unlisted = same_unlisted d hdr.nodeid ∙ l

          is_missing_x : is_missing (missing x) ≡ true
          is_missing_x = missing_lem x (b x i)

  -- FUSE_LOOKUP in a table whose links form an ordered search tree with indices below 2 ^ 32, with
  -- a parent below 2 ^ 31 and room for the reply, of a name of at most 255 bytes, all that the
  -- request holds behind its header less the last byte: if no entry of the tree has this parent and
  -- this name, and the parent is listed or no directory, the reply is -ENOENT, and nothing is asked
  -- of the server.
  pub do_lookup_absent :
      ((m : ℕ) → In m s → m < 2 ^ 32)
      → 41 ≤ hdr.len
      → hdr.len ≤ 296
      → ((m : ℕ)
          → In m s
          → (hdr.nodeid, load (ptr (name_bytes_of d hdr)) 0 (hdr.len - 41)) ≢ key d.table m)
      → is_unlisted d hdr.nodeid ≡ false
      → hdr.nodeid < 2 ^ 31
      → do_lookup host d hdr ≡ reply (with_entry_chunk d) hdr d.cur_sz 16 (negsuc 1) Body.empty
  do_lookup_absent b long short a l parent = lookup_absent b (λ m i e. a m i (sym full_key ∙ e)) l
    where
      full_key : key_of d hdr ≡ (hdr.nodeid, load (ptr (name_bytes_of d hdr)) 0 (hdr.len - 41))
      full_key = λ i. (node i, load (ptr (name_bytes_of d hdr)) 0 (len i))
        where
          node : u32 hdr.nodeid ≡ hdr.nodeid
          node = omega arith

          len : name_len hdr ≡ hdr.len - 41
          len = ground arith
