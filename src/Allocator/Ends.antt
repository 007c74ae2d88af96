-- ===== src/Allocator/Ends.antt =====
-- allocator.cpp: the loop of `arena_alloc` ends.
use native.Mathlib.Nat.{one-le-pow, pow-suc, mod-lt, lt-div-mul-add, div-mul-le_self}
use mathlib.Core.Path.{subst}
use p4fuse.Base.{
  ℕ, zero, suc, ◌+◌, ◌-◌, ◌*◌, ◌%◌, ◌^◌, ◌<◌, ◌≤◌, ◌≡◌, refl, sym, ap, ◌∙◌, arith, some, bit_and,
  add64, sub64, not64, leb, ◌==◌, Bool-cases, inl, inr, true,
}
use p4fuse.Base.Bits.{bit_and-ones}
use p4fuse.Buffer.{align_up}
use p4fuse.Buffer.Laws.{align_up_lem, pow-add}
use p4fuse.Allocator.{FileArena, grow_arena, alloc_loop, arena_alloc, IsUsed, arena_alloc-IsUsed}

-- An aligned offset is near.
near :
    (j k x : ℕ)
    → j + k ≡ 64
    → x + 2 ^ k ≤ 2 ^ 64
    → (x ≤ align_up x (2 ^ k)) × (align_up x (2 ^ k) < x + 2 ^ k)
near j k x e h = rw (align_up_lem j k x e h) (
  omega (arith, positive, lt-div-mul-add {a = x + (2 ^ k - 1)} {b = 2 ^ k} positive),
  omega (arith, positive, div-mul-le_self (x + (2 ^ k - 1)) (2 ^ k)),
)
  where
    positive : 0 < 2 ^ k
    positive = one-le-pow k 2 (omega arith)

-- The arena behind one growth.
record Grown (n used : ℕ) (a : FileArena) : Type 0 where
  size : a.total_size ≡ 2 ^ n
  head : a.head ≤ a.tail
  tail : a.tail ≡ a.head + used
  low : a.head < 2 ^ 62

grow_arena-Grown :
    (n used : ℕ) (a : FileArena)
    → Grown n used a
    → used < 2 ^ 52
    → 2 ^ n ≤ 2 ^ 54
    → Grown (suc n) used (grow_arena a)
unfolding grow_arena
grow_arena-Grown n used a g h l = (record {
  size = omega (arith, g.size, pow-suc 2 n);
  head = omega (arith, masked, below, kept);
  tail = omega (arith, masked, below, kept);
  low = omega (arith, masked, below);
})
  where
    positive : 0 < 2 ^ n
    positive = one-le-pow n 2 (omega arith)

    mask : sub64 a.total_size 1 ≡ 2 ^ n - 1
    mask = omega (arith, g.size, positive)

    masked : bit_and a.head (sub64 a.total_size 1) ≡ a.head % 2 ^ n
    masked = ap (λ m. bit_and a.head m) mask ∙ bit_and-ones n a.head

    below : a.head % 2 ^ n < 2 ^ n
    below = mod-lt a.head positive

    kept : sub64 a.tail a.head ≡ used
    kept = omega (arith, g.tail, g.low)

module _ (sz k j used : ℕ) (e : j + k ≡ 64) (short : sz < 2 ^ 50) (small : 2 ^ k ≤ 2 ^ 50)
    (few : used < 2 ^ 52) where
  -- The chunk behind a tail.
  placed :
      (n : ℕ) (a : FileArena)
      → Grown n used a
      → (a.head ≤ add64 (align_up a.tail (2 ^ k)) sz)
        × (add64 (align_up a.tail (2 ^ k)) sz < a.head + used + 2 ^ k + sz)
  placed n a g =
      (omega (arith, at.0, at.1, g.tail, g.low), omega (arith, at.0, at.1, g.tail, g.low))
    where
      at : (a.tail ≤ align_up a.tail (2 ^ k)) × (align_up a.tail (2 ^ k) < a.tail + 2 ^ k)
      at = near j k a.tail e (omega (arith, g.tail, g.low))

  -- A file without room is smaller than the bytes in use and the chunk.
  needed :
      (n stage2 : ℕ) (a : FileArena)
      → Grown n used a
      → a.head ≤ stage2
      → stage2 < a.head + used + 2 ^ k + sz
      → leb a.total_size (sub64 stage2 a.head) ≡ true
      → 2 ^ n < used + 2 ^ k + sz
  needed n stage2 a g above bound full = ground (arith, g.size, g.low)

  -- Enough doublings give a file that has room.
  rounds :
      (fuel n news stage2 : ℕ) (a : FileArena)
      → Grown n used a
      → a.head ≤ stage2
      → stage2 < a.head + used + 2 ^ k + sz
      → used + 2 ^ k + sz < 2 ^ n * 2 ^ fuel
      → (at : ℕ) × (b : FileArena) × (alloc_loop sz (2 ^ k) (suc fuel) news stage2 a ≡ some (at, b))
  unfolding alloc_loop
  rounds zero n news stage2 a g above bound enough =
      elim (Bool-cases (leb a.total_size (sub64 stage2 a.head))) [
        | inl full ↦ absurd (omega (arith, needed n stage2 a g above bound full))
        | inr fits ↦ (news, record a { tail = stage2 }, rw fits refl)
      ]
  rounds (suc fuel) n news stage2 a g above bound enough =
      elim (Bool-cases (leb a.total_size (sub64 stage2 a.head))) [
        | inl full ↦ rw full (
            rounds fuel (suc n) _ _ (grow_arena a) (next full)
              (placed (suc n) (grow_arena a) (next full)).0
              (placed (suc n) (grow_arena a) (next full)).1 (omega (arith, enough, doubled)))
        | inr fits ↦ (news, record a { tail = stage2 }, rw fits refl)
      ]
    where
      next : leb a.total_size (sub64 stage2 a.head) ≡ true → Grown (suc n) used (grow_arena a)
      next full =
          grow_arena-Grown n used a g few (omega (arith, needed n stage2 a g above bound full))

      doubled : 2 ^ suc n * 2 ^ fuel ≡ 2 ^ n * 2 ^ suc fuel
      doubled =
          sym (pow-add (suc n) fuel) ∙ ap (λ (q : ℕ). 2 ^ q) (omega arith) ∙ pow-add n (suc fuel)

-- The start behind a multiple of the size is the tail aligned to it.
crossed :
    (tail n : ℕ)
    → tail < 2 ^ 61
    → 2 ^ n ≤ 2 ^ 50
    → bit_and (add64 tail (sub64 (2 ^ n) 1)) (not64 (sub64 (2 ^ n) 1)) ≡ align_up tail (2 ^ n)
unfolding align_up
crossed tail n low most =
    ap (λ x. bit_and x (not64 (sub64 (2 ^ n) 1))) (omega (arith, one-le-pow n 2 (omega arith)))

-- `arena_alloc` returns a chunk.
returns :
    (a : FileArena) (sz n k j m : ℕ)
    → a.total_size ≡ 2 ^ n
    → 2 ^ n ≤ 2 ^ 50
    → m + n ≡ 64
    → a.head ≤ a.tail
    → a.tail < 2 ^ 61
    → a.tail - a.head < 2 ^ 50
    → sz < 2 ^ 50
    → 2 ^ k ≤ 2 ^ 50
    → j + k ≡ 64
    → (at : ℕ) × (b : FileArena) × (arena_alloc sz (2 ^ k) a ≡ some (at, b))
unfolding arena_alloc
returns a sz n k j m size most f order low few short small e =
    elim (Bool-cases (
      bit_and (not64 (sub64 a.total_size 1)) (add64 (align_up a.tail (2 ^ k)) sz)
      == bit_and (not64 (sub64 a.total_size 1)) a.tail)) [
        | inl same ↦ rw same (
            rounds sz k j (a.tail - a.head) e short small (omega arith) 63 n _ _ a here
              (placed sz k j (a.tail - a.head) e short small (omega arith) n a here).0
              (placed sz k j (a.tail - a.head) e short small (omega arith) n a here).1
              (omega (arith, one-le-pow n 2 (omega arith))))
        | inr crosses ↦ rw crosses (
            rounds sz k j (start - a.head) e short small (omega (arith, behind.0, behind.1)) 63 n _
              _ (record a { tail = start }) there (omega (arith, behind.0, behind.1))
              (omega (arith, behind.0, behind.1, one-le-pow k 2 (omega arith)))
              (omega (arith, behind.0, behind.1, one-le-pow n 2 (omega arith))))
      ]
  where
    start : ℕ
    start = bit_and (add64 a.tail (sub64 a.total_size 1)) (not64 (sub64 a.total_size 1))

    is_start : start ≡ align_up a.tail (2 ^ n)
    is_start =
        ap (λ z. bit_and (add64 a.tail (sub64 z 1)) (not64 (sub64 z 1))) size
        ∙ crossed a.tail n low most

    behind : (a.tail ≤ start) × (start < a.tail + 2 ^ n)
    behind = rw is_start (near m n a.tail f (omega arith))

    there : Grown n (start - a.head) (record a { tail = start })
    there = record {
      size = size;
      head = omega (arith, behind.0);
      tail = omega (arith, behind.0);
      low = omega arith;
    }

    here : Grown n (a.tail - a.head) a
    here = record { size = size; head = order; tail = omega arith; low = omega arith }

-- A power up to 2 ^ 50.
pow-le : (n : ℕ) → n ≤ 50 → 2 ^ n ≤ 2 ^ 50
pow-le n h = grind (arith, split, one-le-pow (50 - n) 2)
  where
    split : 2 ^ (50 - n) * 2 ^ n ≡ 2 ^ 50
    split = sym (pow-add (50 - n) n) ∙ ap (λ (q : ℕ). 2 ^ q) {y = 50} (omega arith)

-- `arena_alloc` ends: for an arena whose size is a power of two, at most 2 ^ 50, with less than
-- 2 ^ 50 bytes in use and its tail below 2 ^ 61, a chunk of less than 2 ^ 50 bytes and an alignment
-- to a power of two, at most 2 ^ 50, it returns a chunk; the tail stands behind the chunk, and the
-- bytes in use are less than the file's size.
pub arena_alloc-ends :
    (a : FileArena) (sz n k : ℕ)
    → a.total_size ≡ 2 ^ n
    → n ≤ 50
    → a.head ≤ a.tail
    → a.tail < 2 ^ 61
    → a.tail - a.head < 2 ^ 50
    → sz < 2 ^ 50
    → k ≤ 50
    → (at : ℕ) × (b : FileArena) × (arena_alloc sz (2 ^ k) a ≡ some (at, b))
      × (b.tail ≡ add64 at sz)
      × (sub64 b.tail b.head < b.total_size)
arena_alloc-ends a sz n k size most order low few short small = finish returned
  where
    finish :
        (at : ℕ) × (b : FileArena) × (arena_alloc sz (2 ^ k) a ≡ some (at, b))
        → (at : ℕ) × (b : FileArena) × (arena_alloc sz (2 ^ k) a ≡ some (at, b))
          × (b.tail ≡ add64 at sz)
          × (sub64 b.tail b.head < b.total_size)
    finish (at, b, q) = (at, b, q, (used q).0, (used q).1)
      where
        used : arena_alloc sz (2 ^ k) a ≡ some (at, b) → IsUsed sz (some (at, b))
        used q = subst (IsUsed sz) q (arena_alloc-IsUsed sz (2 ^ k) a)

    returned : (at : ℕ) × (b : FileArena) × (arena_alloc sz (2 ^ k) a ≡ some (at, b))
    returned =
        returns a sz n k (64 - k) (64 - n) size (pow-le n most) (omega arith) order low few short
          (pow-le k small) (omega arith)
