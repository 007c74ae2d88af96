-- ===== src/Executor.antt =====
-- executor.cpp: an event loop that leaves the Perforce commands to the threads of threadpool.cpp. The
-- build leaves it out.
pub mod Reads
use p4fuse.Base.{
  ℕ, ◌+◌, Bool, true, false, ◌&&◌, not, ℤ, negsuc, Option, none, some, List, [], ◌∷◌, bit_and,
  add64, sub64, to_u64, is_negative, ◌==◌, ltb, if◌then◌else◌,
}
use p4fuse.Ring.{Iovec}
use p4fuse.Allocator.{FileArena, arena_clear}

-- The end of `queue_read`: the pieces of the arena from `tail` on and before `head`, a head of 0 being
-- the arena's end. `iov` are the two pieces that stand behind each other in the arena.
abbrev pub read_pieces : ℕ → ℕ → ℕ → List Iovec → List Iovec
read_pieces total_size tail head iov =
    let top = if head == 0 then total_size else head in
    if ltb top tail then iov else record { base = tail; len = sub64 top tail } ∷ []

-- `queue_read(pRing, arena)`: the pieces that the read may fill, and the arena behind it; `none` is
-- the result -1.
unfoldable pub queue_arena_read : FileArena → Option (List Iovec × FileArena)
queue_arena_read arena =
    let tail = bit_and arena.tail (sub64 arena.total_size 1) in
    let head = bit_and arena.head (sub64 arena.total_size 1) in
    let iov =
      record { base = tail; len = sub64 arena.total_size tail }
      ∷ record { base = 0; len = head }
      ∷ [] in
    if head == tail
    then if not (arena.head == arena.tail)
      then none
      else some (read_pieces arena.total_size 0 0 iov, arena_clear arena)
    else some (read_pieces arena.total_size tail head iov, arena)

-- The local variables of `exec_main`, and the reads that the kernel has.
pub record Executor : Type 0 where
  pub read_arena : FileArena
  pub write_arena : FileArena
  pub num_rqs : ℕ
  pub arena_full : Bool
  pub reads : List (List Iovec)

-- `case msgtype_e::write_cmd`
unfoldable pub write_cmd : Executor → Executor
write_cmd e =
    let num_rqs = sub64 e.num_rqs 1 in
    if num_rqs == 0
    then record e { num_rqs = num_rqs; write_arena = arena_clear e.write_arena; arena_full = false }
    else record e { num_rqs = num_rqs }

-- `case msgtype_e::read_cmd`, for the result `res` of the read; `none` is the end of the process.
-- `process_commands`, which takes both arenas, is in none of the files.
unfoldable pub read_cmd :
    (FileArena → FileArena → ℤ × FileArena × FileArena) → ℤ → Executor → Option Executor
read_cmd process_commands res e =
    let read_arena = record (e.read_arena) { tail = add64 e.read_arena.tail (to_u64 res) } in
    if is_negative res
    then none
    else if e.arena_full
    then some (record e { read_arena = read_arena })
    else elim (queue_arena_read read_arena) [
      | none ↦ none
      | some (iov, arena) ↦
          (let (result, read_behind, write_behind) = process_commands arena e.write_arena in
            some (record e {
              read_arena = read_behind;
              write_arena = write_behind;
              arena_full = is_full result;
              reads = iov ∷ e.reads;
            }))
    ]
  where
    is_full : ℤ → Bool
    is_full (negsuc n) = n == 1
    is_full _ = false
