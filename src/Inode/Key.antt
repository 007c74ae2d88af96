-- ===== src/Inode/Key.antt =====
-- The order of the tree: first the parent, then the name byte by byte, a prefix first.
use Prim.Native.Nat.{compare, Ordering}
use p4fuse.Base.{
  ℕ, zero, suc, ◌+◌, ◌^◌, ◌<◌, ◌≡◌, refl, arith, none, some, List, [], ◌∷◌, ◌==◌, sub32, min,
  if◌then◌else◌, Bool-cases, inl, inr,
}
use p4fuse.Ring.{load}
use p4fuse.Inode.Store.{Ptr, Table, entry, node_name}
use p4fuse.Inode.Compare.{cmp_loop, cmp_node, is_below}

-- The lexicographic order of names.
abbrev pub name_cmp : List ℕ → List ℕ → Ordering
name_cmp [] [] = Ordering.eq
name_cmp [] (b ∷ bs) = Ordering.lt
name_cmp (a ∷ as') [] = Ordering.gt
name_cmp (a ∷ as') (b ∷ bs) =
    let rest = name_cmp as' bs in
    elim (compare a b) [
      | Ordering.lt ↦ Ordering.lt
      | Ordering.gt ↦ Ordering.gt
      | Ordering.eq ↦ rest
    ]

-- A key: the parent and the name.
abbrev pub Key : Type 0
Key = ℕ × List ℕ

abbrev pub key_cmp : Key → Key → Ordering
key_cmp (p, s) (q, n) = elim (compare p q) [
  | Ordering.lt ↦ Ordering.lt
  | Ordering.gt ↦ Ordering.gt
  | Ordering.eq ↦ name_cmp s n
]

-- The key that an entry of the table has.
abbrev pub key : Table → ℕ → Key
key t node = ((entry t node).parent, load (node_name t (entry t node)) 0 (entry t node).slen)

-- What the sign of an `s32` says.
abbrev pub side : ℕ → Ordering
side c = if c == 0 then Ordering.eq else if is_below c then Ordering.lt else Ordering.gt

min-suc : (a b : ℕ) → min (suc a) (suc b) ≡ suc (min a b)
min-suc a b = ground arith

min_zero : (a : ℕ) → min a 0 ≡ 0
min_zero a = ground arith

zero_min : (a : ℕ) → min 0 a ≡ 0
zero_min a = ground arith

-- The loop from index `i` on, with `m` bytes left of the entry's name and `n` of the other.
loop_side :
    (str1 str : Ptr) (m n i : ℕ)
    → i + m < 256
    → i + n < 256
    → side (elim (cmp_loop str1 str (min m n) i) [ some c ↦ c | none ↦ sub32 (i + n) (i + m) ])
      ≡ name_cmp (load str i n) (load str1 i m)
loop_side str1 str zero zero i h k = rw (zero_min zero) (ground arith)
loop_side str1 str zero (suc n) i h k = rw (zero_min (suc n)) (ground arith)
loop_side str1 str (suc m) zero i h k = rw (min_zero (suc m)) (ground arith)
loop_side str1 str (suc m) (suc n) i h k =
    rw (min-suc m n) (ground (arith, loop_side str1 str m n (i + 1)))

-- `cmp_node` compares keys: the sign of its result is the order of the given key and the entry's,
-- for parents below 2 ^ 31 (their difference is cut to an `s32`) and names of at most 255 bytes.
pub cmp_node-key_cmp :
    (t : Table) (node parent : ℕ) (str : Ptr) (len : ℕ)
    → parent < 2 ^ 31
    → (entry t node).parent < 2 ^ 31
    → len < 256
    → (entry t node).slen < 256
    → side (cmp_node t (entry t node) parent str len)
      ≡ key_cmp (parent, load str 0 len) (key t node)
unfolding cmp_node
cmp_node-key_cmp t node parent str len hp he hl hs =
    elim (Bool-cases (parent == (entry t node).parent)) [
      | inl e ↦ ground (arith, by_name)
      | inr ne ↦ ground arith
    ]
  where
    by_name :
        side (elim (cmp_loop (node_name t (entry t node)) str (min (entry t node).slen len) 0) [
          | some c ↦ c
          | none ↦ sub32 (0 + len) (0 + (entry t node).slen)
        ])
        ≡ name_cmp (load str 0 len) (load (node_name t (entry t node)) 0 (entry t node).slen)
    by_name =
        loop_side (node_name t (entry t node)) str (entry t node).slen len 0 (omega arith)
          (omega arith)

pub name_cmp_self : (s : List ℕ) → name_cmp s s ≡ Ordering.eq
name_cmp_self [] = refl
name_cmp_self (a ∷ s) = ground (arith, name_cmp_self s)

pub eq_of_name_cmp : (s n : List ℕ) → name_cmp s n ≡ Ordering.eq → s ≡ n
eq_of_name_cmp [] [] h = refl
eq_of_name_cmp [] (b ∷ n) h = cc
eq_of_name_cmp (a ∷ s) [] h = cc
eq_of_name_cmp (a ∷ s) (b ∷ n) h = ground (arith, eq_of_name_cmp s n)

pub key_cmp_self : (k : Key) → key_cmp k k ≡ Ordering.eq
key_cmp_self (p, s) = ground (arith, name_cmp_self s)

pub eq_of_key_cmp : (k j : Key) → key_cmp k j ≡ Ordering.eq → k ≡ j
eq_of_key_cmp (p, s) (q, n) h = ground (arith, eq_of_name_cmp s n)
