-- ===== src/RedBlack/Compare.antt =====
-- inode.cpp, `inode_str_cmp`: what its sign says.
use Prim.Native.Nat.{Ordering}
use p4fuse.Base.{
  ℕ, zero, suc, ◌+◌, ◌^◌, ◌<◌, ◌≡◌, arith, none, some, ◌==◌, leb, sub64, min, if◌then◌else◌,
  Bool-cases, inl, inr,
}
use p4fuse.Ring.{load}
use p4fuse.Inode.{Ptr}
use p4fuse.Inode.Key.{name_cmp}
use p4fuse.RedBlack.{InodeEntry, InodeTable, inode_name, str_loop, inode_str_cmp}

-- What the sign of an `s64` says.
abbrev pub side64 : ℕ → Ordering
side64 c = if c == 0 then Ordering.eq else if leb (2 ^ 63) c then Ordering.lt else Ordering.gt

-- A pointer to bytes.
abbrev pub IsBytes : Ptr → Type 0
IsBytes p = (i : ℕ) → p i < 256

min-suc : (a b : ℕ) → min (suc a) (suc b) ≡ suc (min a b)
min-suc a b = ground arith

min_zero : (a : ℕ) → min a 0 ≡ 0
min_zero a = ground arith

zero_min : (a : ℕ) → min 0 a ≡ 0
zero_min a = ground arith

str_loop-name_cmp :
    (name str : Ptr) (m n i : ℕ)
    → IsBytes name
    → IsBytes str
    → i + m < 256
    → i + n < 256
    → side64 (elim (str_loop name str (min n m) i) [ some c ↦ c | none ↦ sub64 (i + n) (i + m) ])
      ≡ name_cmp (load str i n) (load name i m)
str_loop-name_cmp name str zero zero i p q h k = rw (zero_min zero) (ground arith)
str_loop-name_cmp name str zero (suc n) i p q h k = rw (min_zero (suc n)) (ground arith)
str_loop-name_cmp name str (suc m) zero i p q h k = rw (zero_min (suc m)) (ground arith)
str_loop-name_cmp name str (suc m) (suc n) i p q h k =
    rw (min-suc n m) (ground (arith, p i, q i, str_loop-name_cmp name str m n (i + 1) p q))

-- `inode_str_cmp` orders names of at most 255 bytes within a directory as bytes, a prefix first; but
-- for two different directories, of 32 bits each, it says that the given one is the larger, whichever
-- it is.
pub inode_str_cmp-name_cmp :
    (t : InodeTable) (e : InodeEntry) (str : Ptr) (len parent : ℕ)
    → IsBytes (inode_name t e)
    → IsBytes str
    → parent < 2 ^ 32
    → e.parent < 2 ^ 32
    → len < 256
    → e.slen < 256
    → side64 (inode_str_cmp t e str len parent) ≡ (
        if parent == e.parent
        then name_cmp (load str 0 len) (load (inode_name t e) 0 e.slen)
        else Ordering.gt)
unfolding inode_str_cmp
inode_str_cmp-name_cmp t e str len parent p q hp he hl hs = elim (Bool-cases (parent == e.parent)) [
  | inl same ↦ ground (arith, by_name)
  | inr other ↦ rw other (ground arith)
]
  where
    by_name :
        side64 (elim (str_loop (inode_name t e) str (min len e.slen) 0) [
          | some c ↦ c
          | none ↦ sub64 (0 + len) (0 + e.slen)
        ])
        ≡ name_cmp (load str 0 len) (load (inode_name t e) 0 e.slen)
    by_name = str_loop-name_cmp (inode_name t e) str e.slen len 0 p q (omega arith) (omega arith)
