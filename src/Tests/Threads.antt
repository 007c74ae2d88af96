-- ===== src/Tests/Threads.antt =====
-- The theorems on the threads and on their event loop, applied to small states.
use p4fuse.Base.{
  ℕ, ◌+◌, ◌-◌, ◌/◌, ◌%◌, ◌<◌, ◌≤◌, ◌≡◌, ◌↔◌, refl, arith, true, some, List, [], ◌∷◌, codes,
}
use p4fuse.Ring.{Iovec}
use p4fuse.Allocator.{FileArena}
use p4fuse.Pool.{
  store_wait, futex_call, ActionE, NodeRes, ThreadContext, AsyncOutput, info, stat, max_retries,
  tp_wait_for_nval,
}
use p4fuse.Pool.Waiting.{tp_wait_for_nval-ends}
use p4fuse.Executor.{queue_arena_read}
use p4fuse.Executor.Reads.{total, Avoids, Covers, Unused, queue_arena_read-Avoids}

abbrev unused : NodeRes
unused = record { size = 0; b_dir = true; kind = 0; len = 0; name = λ i. 0 }

-- A thread that lists a directory, with `n` results in its array.
abbrev thread : ℕ → ThreadContext
thread n = record {
  filename = λ i. 0;
  len = 8;
  unique = 1;
  action = ActionE.list;
  b_dir = true;
  result = λ i. unused;
  num_res = n;
  inode = 2;
  queued = [];
}

abbrev two_lines : List AsyncOutput
two_lines =
    info b'1' (codes "dir //depot/src") ∷ stat (codes "//depot/a.c") (codes "text") (some 7) ∷ []

-- The value changes at the load 250.
abbrev loads : ℕ → ℕ
loads n = n / 250

tp_wait_for_nval-ends_example :
    tp_wait_for_nval loads 0 251 0 max_retries []
    ≡ some (
      1,
      store_wait 0 ∷ futex_call ∷ store_wait 1 ∷ store_wait 0 ∷ futex_call ∷ store_wait 1 ∷ [],
    )
tp_wait_for_nval-ends_example =
    tp_wait_for_nval-ends loads 0 251 250 (omega arith) (λ i h. omega arith) (λ e. omega (arith, e))

-- An arena of 16 bytes with the bytes 12 to 18 in use.
abbrev wrapped : FileArena
wrapped = record { head = 12; tail = 19; total_size = 16 }

queue_arena_read-Avoids_example :
    (vs : List Iovec) × (a' : FileArena) × (queue_arena_read wrapped ≡ some (vs, a'))
    × (total vs + 7 ≡ 16)
    × (a'.tail - a'.head ≡ 7)
    × ((i : ℕ) → 12 ≤ i → i < 19 → Avoids (i % 16) vs)
    × ((p : ℕ) → Covers p vs ↔ Unused 16 19 28 p)
queue_arena_read-Avoids_example =
    queue_arena_read-Avoids 4 wrapped (omega arith) refl (omega arith) (omega arith)
