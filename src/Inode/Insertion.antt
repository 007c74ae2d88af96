-- ===== src/Inode/Insertion.antt =====
-- The insertion of an entry at a leaf of the ordered tree.
use Prim.Native.Nat.{Ordering}
use p4fuse.Base.{ℕ, suc, ◌≡◌, ◌≢◌, ◌⊎◌, refl, inl, inr, arith}
use p4fuse.Inode.Store.{Table}
use p4fuse.Inode.Key.{Key, key, key_cmp, eq_of_key_cmp}
use p4fuse.Inode.Tree.{Tree, leaf, node, size, Every, In, IsOrdered}

-- `Insertion t k id last s s' x`: the tree `s` below the entry `last` becomes `s'` when the entry
-- `id` with the key `k` is put where the search of `k` ends, below the entry `x`.
pub data Insertion (t : Table) (k : Key) (id : ℕ) : ℕ → Tree → Tree → ℕ → Type 0 where
  here : {last : ℕ} → Insertion t k id last leaf (node id leaf leaf) last
  lower :
      {last n x : ℕ} {l l' r : Tree}
      → key_cmp k (key t n) ≡ Ordering.lt
      → Insertion t k id n l l' x
      → Insertion t k id last (node n l r) (node n l' r) x
  upper :
      {last n x : ℕ} {l r r' : Tree}
      → key_cmp k (key t n) ≡ Ordering.gt
      → Insertion t k id n r r' x
      → Insertion t k id last (node n l r) (node n l r') x

-- No entry of the tree has the key.
abbrev pub IsAbsent : Table → Key → Tree → Type 0
IsAbsent t k s = Every (λ m. k ≢ key t m) s

-- An absent key has its place.
pub IsAbsent-Insertion :
    (t : Table) (k : Key) (id last : ℕ) (s : Tree)
    → IsAbsent t k s
    → (s' : Tree) × (x : ℕ) × Insertion t k id last s s' x
IsAbsent-Insertion t k id last leaf a = (node id leaf leaf, last, here)
IsAbsent-Insertion t k id last (node n l r) a =
    go (key_cmp k (key t n)) refl (IsAbsent-Insertion t k id n l a.1)
      (IsAbsent-Insertion t k id n r a.2)
  where
    go :
        (o : Ordering)
        → key_cmp k (key t n) ≡ o
        → (s' : Tree) × (x : ℕ) × Insertion t k id n l s' x
        → (s' : Tree) × (x : ℕ) × Insertion t k id n r s' x
        → (s' : Tree) × (x : ℕ) × Insertion t k id last (node n l r) s' x
    go Ordering.lt e (s1, x, i) up = (node n s1 r, x, lower e i)
    go Ordering.gt e lo (s1, x, i) = (node n l s1, x, upper e i)
    go Ordering.eq e lo up = absurd (a.0 (eq_of_key_cmp k (key t n) e))

module _ {t : Table} {k : Key} {id : ℕ} where
  pub Insertion-Every {ℓ} :
      (P : ℕ → Type ℓ) {last x : ℕ} {s s' : Tree}
      → Insertion t k id last s s' x
      → P id
      → Every P s
      → Every P s'
  Insertion-Every P here p e = (p, tt, tt)
  Insertion-Every P (lower o i) p e = (e.0, Insertion-Every P i p e.1, e.2)
  Insertion-Every P (upper o i) p e = (e.0, e.1, Insertion-Every P i p e.2)

  -- The entry above the new one.
  pub Insertion-above :
      {last x : ℕ} {s s' : Tree} → Insertion t k id last s s' x → (x ≡ last) ⊎ In x s
  Insertion-above here = inl refl
  Insertion-above (lower o i) = elim (Insertion-above i) [
    | inl e ↦ inr (inl e)
    | inr m ↦ inr (inr (inl m))
  ]
  Insertion-above (upper o i) = elim (Insertion-above i) [
    | inl e ↦ inr (inl e)
    | inr m ↦ inr (inr (inr m))
  ]

  pub Insertion-size :
      {last x : ℕ} {s s' : Tree} → Insertion t k id last s s' x → size s' ≡ suc (size s)
  Insertion-size here = refl
  Insertion-size (lower o i) = omega (arith, Insertion-size i)
  Insertion-size (upper o i) = omega (arith, Insertion-size i)

  pub Insertion-In : {last x : ℕ} {s s' : Tree} → Insertion t k id last s s' x → In id s'
  Insertion-In here = inl refl
  Insertion-In (lower o i) = inr (inl (Insertion-In i))
  Insertion-In (upper o i) = inr (inr (Insertion-In i))

  -- The entries that were there still are.
  pub Insertion-In_old :
      (m : ℕ) {last x : ℕ} {s s' : Tree} → Insertion t k id last s s' x → In m s → In m s'
  Insertion-In_old m here i = absurd i
  Insertion-In_old m (lower o i) (inl e) = inl e
  Insertion-In_old m (lower o i) (inr (inl h)) = inr (inl (Insertion-In_old m i h))
  Insertion-In_old m (lower o i) (inr (inr h)) = inr (inr h)
  Insertion-In_old m (upper o i) (inl e) = inl e
  Insertion-In_old m (upper o i) (inr (inl h)) = inr (inl h)
  Insertion-In_old m (upper o i) (inr (inr h)) = inr (inr (Insertion-In_old m i h))

-- A table in which the entries of the tree have the same keys.
abbrev pub SameKeys : Table → Table → Tree → Type 0
SameKeys t t' s = Every (λ m. key t' m ≡ key t m) s

-- An order of keys is that of equal keys.
Every-order :
    (t t' : Table) (o : Ordering) (n : ℕ) (s : Tree)
    → key t' n ≡ key t n
    → SameKeys t t' s
    → Every (λ m. key_cmp (key t m) (key t n) ≡ o) s
    → Every (λ m. key_cmp (key t' m) (key t' n) ≡ o) s
Every-order t t' o n leaf e h a = tt
Every-order t t' o n (node m l r) e h a =
    (rw (h.0, e) a.0, Every-order t t' o n l e h.1 a.1, Every-order t t' o n r e h.2 a.2)

pub IsOrdered-SameKeys :
    (t t' : Table) (s : Tree) → SameKeys t t' s → IsOrdered t s → IsOrdered t' s
IsOrdered-SameKeys t t' leaf h o = tt
IsOrdered-SameKeys t t' (node n l r) h o = (
  Every-order t t' Ordering.lt n l h.0 h.1 o.0,
  Every-order t t' Ordering.gt n r h.0 h.2 o.1,
  IsOrdered-SameKeys t t' l h.1 o.2,
  IsOrdered-SameKeys t t' r h.2 o.3,
)

-- The tree stays ordered.
pub Insertion-IsOrdered :
    (t t' : Table) {k : Key} {id last x : ℕ} {s s' : Tree}
    → Insertion t k id last s s' x
    → key t' id ≡ k
    → SameKeys t t' s
    → IsOrdered t s
    → IsOrdered t' s'
Insertion-IsOrdered t t' here e h o = (tt, tt, tt, tt)
Insertion-IsOrdered t t' (lower {n} {l} {r} c i) e h o = (
  Insertion-Every _ i (rw (e, h.0) c) (Every-order t t' Ordering.lt n l h.0 h.1 o.0),
  Every-order t t' Ordering.gt n r h.0 h.2 o.1,
  Insertion-IsOrdered t t' i e h.1 o.2,
  IsOrdered-SameKeys t t' r h.2 o.3,
)
Insertion-IsOrdered t t' (upper {n} {l} {r} c i) e h o = (
  Every-order t t' Ordering.lt n l h.0 h.1 o.0,
  Insertion-Every _ i (rw (e, h.0) c) (Every-order t t' Ordering.gt n r h.0 h.2 o.1),
  IsOrdered-SameKeys t t' l h.1 o.2,
  Insertion-IsOrdered t t' i e h.2 o.3,
)
