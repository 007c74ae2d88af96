-- ===== src/Inode/Names.antt =====
-- The arena of long names: what `new_inode` reserves in it, and the names that it holds.
use native.Mathlib.Nat.{pow-suc, mod-eq_of_lt}
use p4fuse.Base.{
  ℕ, suc, ◌+◌, ◌-◌, ◌*◌, ◌^◌, ◌<◌, ◌≤◌, ◌≡◌, refl, ap, ◌∙◌, inl, inr, arith, true, false, Option,
  some, none, bit_and, leb, if◌then◌else◌, u64, add64, sub64, Bool-cases,
}
use p4fuse.Base.Bits.{bit_and-ones}
use p4fuse.Buffer.Laws.{align_up-one}
use p4fuse.Inode.Store.{Arena}
use p4fuse.Inode.Arena.{arena_alloc_chunk_atomic_cushion, arena_alloc_chunk_atomic, alloc_name}

-- The arena has a power of two as its size and, since no entry was reused, its head at 0.
pub record IsArena (a : Arena) : Type 0 where
  pub order : ℕ
  pub allocsz : a.allocsz ≡ 2 ^ order
  pub least : 256 ≤ a.allocsz
  pub most : a.allocsz ≤ 2 ^ 41
  pub head : a.head ≡ 0
  pub cur : a.cur < a.allocsz

-- A name of `len` bytes is placed at the old top.
pub record IsPlaced (a : Arena) (len : ℕ) (b : Arena) : Type 0 where
  pub arena : IsArena b
  pub bytes : b.bytes ≡ a.bytes
  pub cur : b.cur ≡ a.cur + len

-- One try to place a name.
try_name :
    (len : ℕ) (a : Arena)
    → IsArena a
    → len < 256
    → arena_alloc_chunk_atomic a len 1 ≡ (
        if leb a.allocsz (a.cur + len)
        then (none, a)
        else (some (a.cur), record a { cur = a.cur + len }))
unfolding arena_alloc_chunk_atomic arena_alloc_chunk_atomic_cushion
try_name len a v h = rw (align_up-one a.cur (omega arith), no_wrap, offset, end) refl
  where
    no_wrap : sub64 (add64 (add64 (a.cur) len) 0) a.head ≡ a.cur + len
    no_wrap = omega arith

    mask : sub64 a.allocsz 1 ≡ 2 ^ v.order - 1
    mask = omega arith

    offset : bit_and (a.cur) (sub64 a.allocsz 1) ≡ a.cur
    offset =
        ap (λ m. bit_and (a.cur) m) mask ∙ bit_and-ones v.order a.cur ∙ mod-eq_of_lt (omega arith)

    end : add64 (a.cur) len ≡ a.cur + len
    end = omega arith

-- A round of the loop goes by the result of the try.
alloc_name_step :
    (fuel len : ℕ) (a : Arena) (r : Option ℕ × Arena)
    → arena_alloc_chunk_atomic a len 1 ≡ r
    → alloc_name (suc fuel) a len ≡ elim (r.0) [
      | some at ↦ some (at, r.1)
      | none ↦ alloc_name fuel (record (r.1) { allocsz = u64 (r.1.allocsz * 2) }) len
    ]
unfolding alloc_name
alloc_name_step fuel len a r e = ap round e
  where
    round : Option ℕ × Arena → Option (ℕ × Arena)
    round r = elim (r.0) [
      | some at ↦ some (at, r.1)
      | none ↦ alloc_name fuel (record (r.1) { allocsz = u64 (r.1.allocsz * 2) }) len
    ]

-- The first try, or the second with the size doubled, places a name.
pub alloc_name-IsPlaced :
    (fuel len : ℕ) (a : Arena)
    → IsArena a
    → len < 256
    → a.cur + len < 2 ^ 40
    → (b : Arena) × (alloc_name (suc (suc fuel)) a len ≡ some (a.cur, b)) × IsPlaced a len b
unfolding alloc_name
alloc_name-IsPlaced fuel len a v h k = elim (Bool-cases (leb a.allocsz (a.cur + len))) [
  | inl full ↦ (
    record (doubled) { cur = a.cur + len },
    alloc_name_step (suc fuel) len a (none, a) (try_name len a v h ∙ rw full refl)
        ∙ alloc_name_step fuel len doubled (some (a.cur), record (doubled) { cur = a.cur + len })
            (try_name len doubled (twice full) h ∙ rw (fits full) refl),
    record {
      arena = record {
        order = suc v.order;
        allocsz = (twice full).allocsz;
        least = (twice full).least;
        most = (twice full).most;
        head = v.head;
        cur = ground (arith, v.most, v.cur);
      };
      bytes = refl;
      cur = refl;
    },
  )
  | inr room ↦ (
    record a { cur = a.cur + len },
    alloc_name_step (suc fuel) len a (some (a.cur), record a { cur = a.cur + len })
        (try_name len a v h ∙ rw room refl),
    record {
      arena = record {
        order = v.order;
        allocsz = v.allocsz;
        least = v.least;
        most = v.most;
        head = v.head;
        cur = ground arith;
      };
      bytes = refl;
      cur = refl;
    },
  )
]
  where
    doubled : Arena
    doubled = record a { allocsz = u64 (a.allocsz * 2) }

    twice : leb a.allocsz (a.cur + len) ≡ true → IsArena doubled
    twice g = record {
      order = suc v.order;
      allocsz = omega (arith, v.allocsz, v.most, pow-suc 2 v.order);
      least = omega arith;
      most = ground (arith, v.most);
      head = v.head;
      cur = omega arith;
    }

    fits : leb a.allocsz (a.cur + len) ≡ true → leb (doubled.allocsz) (a.cur + len) ≡ false
    fits g = ground (arith, v.most, v.cur)
