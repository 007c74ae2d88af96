-- ===== src/Allocator.antt =====
-- allocator.cpp: an arena over a file, with chunks from `head` to `tail` that are freed in the order
-- of their allocation. No other file of the build uses it.
pub mod Ends
use p4fuse.Base.{
  ℕ, zero, suc, ◌*◌, ◌<◌, ◌≡◌, refl, arith, Option, none, some, bit_and, u64, add64, sub64, not64,
  leb, ◌==◌, if◌then◌else◌, Bool-cases, inl, inr,
}
use p4fuse.Buffer.{align_up}

-- `arena_t` of alloc.hpp, without the mapping and its descriptor.
pub record FileArena : Type 0 where
  pub head : ℕ
  pub tail : ℕ
  pub total_size : ℕ

-- `arena_init`
unfoldable pub arena_init : ℕ → FileArena
arena_init total_size = record { head = 0; tail = 0; total_size = total_size }

-- The body of the loop in `arena_alloc`: the used part is moved to the start, and the file grows
-- to twice its size.
unfoldable pub grow_arena : FileArena → FileArena
grow_arena a =
    let head = bit_and a.head (sub64 a.total_size 1) in
    record {
      head = head;
      tail = add64 head (sub64 a.tail a.head);
      total_size = u64 (a.total_size * 2);
    }

module _ (sz align : ℕ) where
  -- The loop, and the end of `arena_alloc`.
  unfoldable pub alloc_loop : ℕ → ℕ → ℕ → FileArena → Option (ℕ × FileArena)
  alloc_loop zero news stage2 a = none
  alloc_loop (suc fuel) news stage2 a =
      let b = grow_arena a in
      let again = align_up b.tail align in
      let rest = alloc_loop fuel again (add64 again sz) b in
      if leb a.total_size (sub64 stage2 a.head)
      then rest
      else some (news, record a { tail = stage2 })

  -- A chunk that would cross a multiple of the size starts behind it.
  unfoldable pub arena_alloc : FileArena → Option (ℕ × FileArena)
  arena_alloc a =
      let news = align_up a.tail align in
      let mask = sub64 a.total_size 1 in
      let stage2 = add64 news sz in
      let tail = bit_and (add64 a.tail mask) (not64 mask) in
      if bit_and (not64 mask) stage2 == bit_and (not64 mask) a.tail
      then alloc_loop 64 news stage2 a
      else alloc_loop 64 tail (add64 tail sz) (record a { tail = tail })

-- `arena_clear`
unfoldable pub arena_clear : FileArena → FileArena
arena_clear a = record a { head = 0; tail = 0 }

unfoldable pub arena_free : ℕ → FileArena → FileArena
arena_free sz a = record a { head = add64 a.head sz }

unfoldable pub arena_undo_alloc : ℕ → FileArena → FileArena
arena_undo_alloc sz a = record a { tail = sub64 a.tail sz }

-- An allocation that returns has its chunk at the tail, and less than the file's size in use.
abbrev pub IsUsed : ℕ → Option (ℕ × FileArena) → Type 0
IsUsed sz none = Unit
IsUsed sz (some (at, a)) = (a.tail ≡ add64 at sz) × (sub64 a.tail a.head < a.total_size)

alloc_loop-IsUsed :
    (sz align fuel news stage2 : ℕ) (a : FileArena)
    → stage2 ≡ add64 news sz
    → IsUsed sz (alloc_loop sz align fuel news stage2 a)
unfolding alloc_loop
alloc_loop-IsUsed sz align zero news stage2 a e = tt
alloc_loop-IsUsed sz align (suc fuel) news stage2 a e =
    elim (Bool-cases (leb a.total_size (sub64 stage2 a.head))) [
      | inl full ↦ rw full (alloc_loop-IsUsed sz align fuel _ _ (grow_arena a) refl)
      | inr fits ↦ rw fits (e, ground arith)
    ]

pub arena_alloc-IsUsed : (sz align : ℕ) (a : FileArena) → IsUsed sz (arena_alloc sz align a)
unfolding arena_alloc
arena_alloc-IsUsed sz align a =
    elim (Bool-cases (
      bit_and (not64 (sub64 a.total_size 1)) (add64 (align_up a.tail align) sz)
      == bit_and (not64 (sub64 a.total_size 1)) a.tail)) [
        | inl same ↦ rw same (alloc_loop-IsUsed sz align 64 _ _ a refl)
        | inr crosses ↦ rw crosses (alloc_loop-IsUsed sz align 64 _ _ _ refl)
      ]
