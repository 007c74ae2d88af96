-- ===== src/Inode/Path.antt =====
-- inode_store.cpp: `path_size` and `build_path`, which climb from an entry to entry 0.
pub mod Laws
use p4fuse.Base.{
  ℕ, zero, suc, ◌+◌, ◌^◌, ◌++◌, Option, none, some, List, [], ◌∷◌, ◌==◌, add64, if◌then◌else◌,
}
use p4fuse.Ring.{load}
use p4fuse.Inode.Store.{Table, entry, node_name}

module _ (t : Table) where
  -- The loop of `path_size`, with `path` bytes counted so far.
  unfoldable pub size_loop : ℕ → ℕ → ℕ → Option ℕ
  size_loop zero node path = none
  size_loop (suc fuel) node path =
      let rest = size_loop fuel (entry t node).parent (add64 path (1 + (entry t node).slen)) in
      if node == 0 then some path else rest

  unfoldable pub path_size : ℕ → Option ℕ
  path_size node = size_loop (2 ^ 32) node 0

  -- The name of an entry.
  abbrev pub name_bytes : ℕ → List ℕ
  name_bytes node = load (node_name t (entry t node)) 0 (entry t node).slen

  -- The loop of `build_path`, with `done` the bytes that stand from `end` on.
  unfoldable pub build_loop : ℕ → ℕ → List ℕ → Option (List ℕ)
  build_loop zero node done = none
  build_loop (suc fuel) node done =
      let rest = build_loop fuel (entry t node).parent (name_bytes node ++ b'/' ∷ done) in
      if node == 0 then some done else rest

  -- The bytes that `build_path` writes in front of its argument `end`.
  unfoldable pub build_path : ℕ → Option (List ℕ)
  build_path node = build_loop (2 ^ 32) node []
