-- ===== src/Inode/Copies.antt =====
-- A copy of bytes onto the same bytes.
use native.Mathlib.Nat.{mod-eq_of_lt, add-mod_right}
use mathlib.Core.Path.{subst}
use p4fuse.Base.{
  ℕ, zero, suc, ◌+◌, ◌-◌, ◌%◌, ◌<◌, ◌≤◌, ◌≡◌, refl, sym, ap, ◌∙◌, inl, inr, arith, false, ltb, ◌==◌,
  ==→≡, Bool-cases,
}
use p4fuse.Ring.{load}
use p4fuse.Inode.Store.{Ptr, Arena, copy_bytes, copy_arena}
use p4fuse.Inode.Labels.{copy_arena-below, copy_arena-inside}

-- Bytes that are read alike are alike.
pub load-length : (p q : Ptr) (at n m : ℕ) → load p at n ≡ load q at m → n ≡ m
load-length p q at zero zero h = refl
load-length p q at zero (suc m) h = absurd cc
load-length p q at (suc n) zero h = absurd cc
load-length p q at (suc n) (suc m) h = ap suc (load-length p q (at + 1) n m cc)

pub load-bytes :
    (p q : Ptr) (at n : ℕ) → load p at n ≡ load q at n → (i : ℕ) → at ≤ i → i < at + n → p i ≡ q i
load-bytes p q at zero h i k l = absurd (omega arith)
load-bytes p q at (suc n) h i k l = elim (Bool-cases (i == at)) [
  | inl e ↦ subst (λ y. p y ≡ q y) (sym (==→≡ i at e)) (first h)
  | inr ne ↦ load-bytes p q (at + 1) n (cc) i (ground arith) (omega arith)
]
  where
    first : load p at (suc n) ≡ load q at (suc n) → p at ≡ q at
    first h = cc

-- A copy of the bytes that are there changes nothing.
pub copy_bytes-same :
    (dst str : Ptr) (len : ℕ) → ((i : ℕ) → i < len → dst i ≡ str i) → copy_bytes dst str len ≡ dst
copy_bytes-same dst str len h = λ j i. same_at i j
  where
    same_at : (i : ℕ) → copy_bytes dst str len i ≡ dst i
    same_at i = elim (Bool-cases (ltb i len)) [
      | inl e ↦ rw e (sym (h i (ground arith)))
      | inr e ↦ rw e refl
    ]

-- A copy leaves the bytes above it.
copy_arena-above :
    (a : Arena) (at : ℕ) (src : Ptr) (n p : ℕ)
    → at + n ≤ p
    → p < a.allocsz
    → copy_arena a at src n p ≡ a.bytes p
copy_arena-above a at src n p h k =
    rw (mod-eq_of_lt {n = at} {m = a.allocsz} (omega arith), index, round, over) refl
  where
    index : p + a.allocsz - at ≡ p - at + a.allocsz
    index = omega arith

    round : (p - at + a.allocsz) % a.allocsz ≡ p - at
    round = add-mod_right (p - at) a.allocsz ∙ mod-eq_of_lt (omega arith)

    over : ltb (p - at) n ≡ false
    over = ground arith

pub copy_arena-same :
    (a : Arena) (at : ℕ) (str : Ptr) (len : ℕ)
    → at + len ≤ a.allocsz
    → at < a.allocsz
    → ((i : ℕ) → i < len → a.bytes (at + i) ≡ str i)
    → (p : ℕ) → p < a.allocsz
    → copy_arena a at str len p ≡ a.bytes p
copy_arena-same a at str len k l h p m = elim (Bool-cases (ltb p at)) [
  | inl below ↦ copy_arena-below a at str len p (ground arith) l k
  | inr above ↦ elim (Bool-cases (ltb p (at + len))) [
    | inl inside ↦
        subst (λ y. copy_arena a at str len y ≡ a.bytes y) (ground arith)
          (copy_arena-inside a at str len (p - at) (ground arith) k
            ∙ sym (h (p - at) (ground arith)))
    | inr over ↦ copy_arena-above a at str len p (ground arith) m
  ]
]
