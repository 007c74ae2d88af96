-- ===== src/Inode/Labels.antt =====
-- Which changes of the table leave the names of its entries alone, and what a copied name reads.
use native.Mathlib.Nat.{mod-eq_of_lt, add-mod_right}
use p4fuse.Base.{
  ℕ, zero, suc, ◌+◌, ◌-◌, ◌%◌, ◌<◌, ◌≤◌, ◌≡◌, refl, ap, ◌∙◌, inl, inr, arith, true, false, ◌∷◌, leb,
  ltb, ◌&&◌, Bool-cases,
}
use p4fuse.Ring.{load}
use p4fuse.Inode.Store.{Ptr, Arena, Table, Entry, entry, node_name, copy_arena}
use p4fuse.Inode.Key.{key}

-- Bytes that agree where they are read.
pub load-ext :
    (p q : Ptr) (at n : ℕ) → ((i : ℕ) → at ≤ i → i < at + n → p i ≡ q i) → load p at n ≡ load q at n
load-ext p q at zero h = refl
load-ext p q at (suc n) h =
    ap (λ b. b ∷ load p (at + 1) n) (h at (omega arith) (omega arith))
    ∙ ap (λ bs. q at ∷ bs) (load-ext p q (at + 1) n (λ i k m. h i (omega arith) (omega arith)))

-- The entries have the same parent and name.
pub record SameLabel (e e' : Entry) : Type 0 where
  pub parent : e'.parent ≡ e.parent
  pub slen : e'.slen ≡ e.slen
  pub name : e'.name ≡ e.name
  pub name_offset : e'.name_offset ≡ e.name_offset

-- A long name ends below `top`.
abbrev pub IsBelow : Entry → ℕ → Type 0
IsBelow e top = 8 < e.slen → e.name_offset + e.slen ≤ top

-- The arenas have the same bytes up to `top`.
pub record SameBytes (a b : Arena) (top : ℕ) : Type 0 where
  pub old_top : top ≤ a.allocsz
  pub new_top : top ≤ b.allocsz
  pub bytes : (i : ℕ) → i < top → b.bytes i ≡ a.bytes i

pub key-SameLabel :
    (t t' : Table) (m top : ℕ)
    → SameLabel (entry t m) (entry t' m)
    → IsBelow (entry t m) top
    → SameBytes t.str_arena t'.str_arena top
    → key t' m ≡ key t m
key-SameLabel t t' m top l b s = λ i. (l.parent i, names i)
  where
    e : Entry
    e = entry t m

    e' : Entry
    e' = entry t' m

    read : (i : ℕ) → 0 ≤ i → i < e.slen → node_name t' e' i ≡ node_name t e i
    read i h k = elim (Bool-cases (leb e.slen 8)) [
      | inl short ↦ rw (l.slen, short) (ap (λ n. n i) l.name)
      | inr long ↦ rw (l.slen, long, l.name_offset) (far long)
    ]
      where
        below : leb e.slen 8 ≡ false → e.name_offset + e.slen ≤ top
        below long = b (ground arith)

        far :
            leb e.slen 8 ≡ false
            → t'.str_arena.bytes ((e.name_offset + i) % t'.str_arena.allocsz)
              ≡ t.str_arena.bytes ((e.name_offset + i) % t.str_arena.allocsz)
        far long =
            rw
              (
                mod-eq_of_lt {n = e.name_offset + i} {m = t'.str_arena.allocsz}
                    (omega (arith, below long)),
                mod-eq_of_lt {n = e.name_offset + i} {m = t.str_arena.allocsz}
                    (omega (arith, below long)),
              )
              (s.bytes (e.name_offset + i) (omega (arith, below long)))

    names : load (node_name t' e') 0 e'.slen ≡ load (node_name t e) 0 e.slen
    names =
        ap (λ n. load (node_name t' e') 0 n) l.slen
        ∙ load-ext (node_name t' e') (node_name t e) 0 e.slen (λ i h k. read i h (omega arith))

-- A copy leaves the bytes below it.
pub copy_arena-below :
    (a : Arena) (at : ℕ) (src : Ptr) (n p : ℕ)
    → p < at
    → at < a.allocsz
    → at + n ≤ a.allocsz
    → copy_arena a at src n p ≡ a.bytes p
copy_arena-below a at src n p h k m =
    rw (mod-eq_of_lt k, mod-eq_of_lt {n = p + a.allocsz - at} {m = a.allocsz} (omega arith))
      (ground arith)

-- And is read back.
pub copy_arena-inside :
    (a : Arena) (at : ℕ) (src : Ptr) (n i : ℕ)
    → i < n
    → at + n ≤ a.allocsz
    → copy_arena a at src n (at + i) ≡ src i
copy_arena-inside a at src n i h k =
    rw (mod-eq_of_lt {n = at} {m = a.allocsz} (omega arith), index, round, inside) refl
  where
    index : at + i + a.allocsz - at ≡ i + a.allocsz
    index = omega arith

    round : (i + a.allocsz) % a.allocsz ≡ i
    round = add-mod_right i a.allocsz ∙ mod-eq_of_lt (omega arith)

    inside : (ltb i n && ltb (at + i) a.allocsz) ≡ true
    inside = ground arith
