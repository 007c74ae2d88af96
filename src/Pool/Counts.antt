-- ===== src/Pool/Counts.antt =====
-- How many results a command may leave that nobody collects.
use p4fuse.Base.{ℕ, ◌+◌, ◌<◌, ◌≤◌, ◌≡◌, Option, some, none, List}
use p4fuse.Pool.{ThreadContext, AsyncOutput}
use p4fuse.Pool.Results.{results}

-- A command without a parent that wakes the thread.
record Counts (os : List AsyncOutput) (tc : ThreadContext) (r : Option ThreadContext) : Type 0 where
  enough :
      tc.num_res + results tc.b_dir os ≤ 256
      → (tc' : ThreadContext) × (r ≡ some tc')
        × (tc'.num_res ≡ tc.num_res + results tc.b_dir os)
        × (tc'.queued ≡ tc.queued)
        × ((i : ℕ) → i < tc.num_res → tc'.result i ≡ tc.result i)
  stuck : 256 < tc.num_res + results tc.b_dir os → r ≡ none
