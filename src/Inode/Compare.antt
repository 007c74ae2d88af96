-- ===== src/Inode/Compare.antt =====
-- inode_store.cpp, `cmp_node`: how the key (parent, str) stands to an entry's key.
use p4fuse.Base.{
  ℕ, zero, suc, ◌+◌, ◌-◌, ◌^◌, Bool, Option, none, some, ltb, leb, ◌==◌, sub32, min, if◌then◌else◌,
}
use p4fuse.Inode.Store.{Ptr, Entry, Table, node_name}

-- `for (u64 i = 0; i < tlen; i++)` with `n` rounds left: the value that the loop returns.
abbrev pub cmp_loop : Ptr → Ptr → ℕ → ℕ → Option ℕ
cmp_loop str1 str zero i = none
cmp_loop str1 str (suc n) i =
    let rest = cmp_loop str1 str n (i + 1) in
    if ltb (str1 i) (str i)
    then some 1
    else if ltb (str i) (str1 i)
    then some (2 ^ 32 - 1)
    else rest

-- The pattern of an `s32` that stands for a number below zero.
abbrev pub is_below : ℕ → Bool
is_below c = leb (2 ^ 31) c

-- `cmp_node`: the pattern of its `s32` result.
unfoldable pub cmp_node : Table → Entry → ℕ → Ptr → ℕ → ℕ
cmp_node t e parent str len =
    if parent == e.parent
    then elim (cmp_loop (node_name t e) str (min e.slen len) 0) [
      | some c ↦ c
      | none ↦ sub32 len e.slen
    ]
    else sub32 parent e.parent
