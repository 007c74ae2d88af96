-- ===== src/Inode/Arena.antt =====
-- inode_store.cpp: the arena of long names. With one thread its compare-and-exchange succeeds at
-- once. A chunk is named by its offset in `data`, and NULL is `none`.
use p4fuse.Base.{
  ℕ, zero, suc, ◌*◌, Option, none, some, ltb, leb, bit_and, add64, sub64, u64, if◌then◌else◌,
}
use p4fuse.Buffer.{align_up}
use p4fuse.Inode.Store.{Arena}

-- `arena_alloc_chunk`
unfoldable pub arena_alloc_chunk : Arena → ℕ → ℕ → Option ℕ × Arena
arena_alloc_chunk arena sz align =
    let cur = align_up arena.cur align in
    let after = add64 cur sz in
    if ltb arena.allocsz (sub64 after arena.head)
    then (none, arena)
    else (some (bit_and cur (sub64 arena.allocsz 1)), record arena { cur = after })

-- `arena_alloc_chunk_atomic_cushion`
unfoldable pub arena_alloc_chunk_atomic_cushion : Arena → ℕ → ℕ → ℕ → Option ℕ × Arena
arena_alloc_chunk_atomic_cushion arena sz align cushion =
    let ret = align_up arena.cur align in
    let desired = add64 ret sz in
    if leb arena.allocsz (sub64 (add64 desired cushion) arena.head)
    then (none, arena)
    else (some (bit_and ret (sub64 arena.allocsz 1)), record arena { cur = desired })

-- `arena_alloc_chunk_atomic`
unfoldable pub arena_alloc_chunk_atomic : Arena → ℕ → ℕ → Option ℕ × Arena
unfolding arena_alloc_chunk_atomic_cushion
arena_alloc_chunk_atomic arena sz align = arena_alloc_chunk_atomic_cushion arena sz align 0

-- `arena_clear`
unfoldable pub arena_clear : Arena → Arena
arena_clear arena = record arena { cur = 0 }

-- In `new_inode`: the first try, then `while (offs == 0)` doubles the arena and tries again. The
-- fuel counts the doublings; after 64 of them `allocsz` is 0.
unfoldable pub alloc_name : ℕ → Arena → ℕ → Option (ℕ × Arena)
unfolding arena_alloc_chunk_atomic
alloc_name zero arena name_len = none
alloc_name (suc fuel) arena name_len =
    let (offs, arena') = arena_alloc_chunk_atomic arena name_len 1 in
    let again = alloc_name fuel (record arena' { allocsz = u64 (arena'.allocsz * 2) }) name_len in
    elim offs [ some at ↦ some (at, arena') | none ↦ again ]
