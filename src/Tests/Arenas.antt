-- ===== src/Tests/Arenas.antt =====
-- The theorem on the arena over a file, applied to a file of one page.
use p4fuse.Base.{ℕ, ◌^◌, ◌<◌, ◌≡◌, refl, arith, some, add64, sub64}
use p4fuse.Allocator.{FileArena, arena_alloc}
use p4fuse.Allocator.Ends.{arena_alloc-ends}

-- 100 bytes in use, in the second page.
abbrev page : FileArena
page = record { head = 5000; tail = 5100; total_size = 4096 }

arena_alloc-ends_example :
    (at : ℕ) × (b : FileArena) × (arena_alloc 10000 (2 ^ 3) page ≡ some (at, b))
    × (b.tail ≡ add64 at 10000)
    × (sub64 b.tail b.head < b.total_size)
arena_alloc-ends_example =
    arena_alloc-ends page 10000 12 3 refl (omega arith) (omega arith) (omega arith) (omega arith)
      (omega arith) (omega arith)
