-- ===== src/Client/View.antt =====
-- The abstract view of the inode table: a partial map from keys, the directory and the name, to
-- inode numbers. It forgets the order in which the entries were linked.
use Prim.Native.Nat.{Ordering}
use p4fuse.Base.{
  ℕ, ◌≡◌, ◌≢◌, refl, sym, ap, ◌∙◌, inl, inr, Bool, true, false, Option, some, none, if◌then◌else◌,
  Bool-cases,
}
use p4fuse.Inode.{Table}
use p4fuse.Inode.Key.{Key, key, key_cmp, key_cmp_self, eq_of_key_cmp}
use p4fuse.Inode.Tree.{Tree, leaf, node, In, Every-In}
use p4fuse.Inode.Insertion.{Insertion, here, lower, upper, IsAbsent, SameKeys}

abbrev is_equal : Ordering → Bool
is_equal Ordering.lt = false
is_equal Ordering.gt = false
is_equal Ordering.eq = true

-- Equal keys.
unfoldable pub same_key : Key → Key → Bool
same_key a b = is_equal (key_cmp a b)

abbrev pub or_else : Option ℕ → Option ℕ → Option ℕ
or_else (some n) o = some n
or_else none o = o

-- The entry with the key: all entries are looked at, in no order of keys.
abbrev pub view : Table → Tree → Key → Option ℕ
view t leaf k = none
view t (node n l r) k = if same_key k (key t n) then some n else or_else (view t l k) (view t r k)

-- The map with one more key.
abbrev pub insert : Key → ℕ → (Key → Option ℕ) → Key → Option ℕ
insert k id f j = if same_key j k then some id else f j

same_key_self : (k : Key) → same_key k k ≡ true
unfolding same_key
same_key_self k = ap is_equal (key_cmp_self k)

eq_of_same_key : (a b : Key) → same_key a b ≡ true → a ≡ b
unfolding same_key
eq_of_same_key a b h = go (key_cmp a b) refl h
  where
    go : (o : Ordering) → key_cmp a b ≡ o → is_equal o ≡ true → a ≡ b
    go Ordering.lt e q = absurd cc
    go Ordering.gt e q = absurd cc
    go Ordering.eq e q = eq_of_key_cmp a b e

-- A key that differs.
other_key : (j k : Key) → j ≢ k → same_key j k ≡ false
other_key j k ne = elim (Bool-cases (same_key j k)) [
  | inl e ↦ absurd (ne (eq_of_same_key j k e))
  | inr e ↦ e
]

or_else-none : (a b : Option ℕ) → or_else a b ≡ none → (a ≡ none) × (b ≡ none)
or_else-none none b h = (refl, h)
or_else-none (some n) b h = absurd cc

-- A key that the map does not hold is absent.
pub view-IsAbsent : (t : Table) (k : Key) (s : Tree) → view t s k ≡ none → IsAbsent t k s
view-IsAbsent t k leaf h = tt
view-IsAbsent t k (node n l r) h =
    go (same_key k (key t n)) refl h (view-IsAbsent t k l) (view-IsAbsent t k r)
  where
    go :
        (b : Bool)
        → same_key k (key t n) ≡ b
        → (if b then some n else or_else (view t l k) (view t r k)) ≡ none
        → (view t l k ≡ none → IsAbsent t k l)
        → (view t r k ≡ none → IsAbsent t k r)
        → IsAbsent t k (node n l r)
    go true e q lo up = absurd cc
    go false e q lo up = (
      λ f. cc (e, ap (same_key k) (sym f), same_key_self k),
      lo ((or_else-none (view t l k) (view t r k) q).0),
      up ((or_else-none (view t l k) (view t r k) q).1),
    )

-- An absent key is not in the map.
IsAbsent-view : (t : Table) (k : Key) (s : Tree) → IsAbsent t k s → view t s k ≡ none
IsAbsent-view t k leaf a = refl
IsAbsent-view t k (node n l r) a =
    rw (other_key k (key t n) a.0, IsAbsent-view t k l a.1) (IsAbsent-view t k r a.2)

-- An entry of the map is in the tree.
pub view-In :
    (t : Table) (k : Key) (m : ℕ) (s : Tree) → view t s k ≡ some m → In m s × (key t m ≡ k)
view-In t k m leaf h = absurd cc
view-In t k m (node n l r) h =
    go (same_key k (key t n)) (view t l k) refl h (view-In t k m l) (view-In t k m r)
  where
    go :
        (b : Bool) (o : Option ℕ)
        → same_key k (key t n) ≡ b
        → (if b then some n else or_else o (view t r k)) ≡ some m
        → (o ≡ some m → In m l × (key t m ≡ k))
        → (view t r k ≡ some m → In m r × (key t m ≡ k))
        → In m (node n l r) × (key t m ≡ k)
    go true o e q lo up = (inl is_n, ap (key t) is_n ∙ sym (eq_of_same_key k (key t n) e))
      where
        is_n : m ≡ n
        is_n = cc
    go false (some p) e q lo up = (inr (inl ((lo q).0)), (lo q).1)
    go false none e q lo up = (inr (inr ((up q).0)), (up q).1)

-- No entry of the tree has a key that the map does not hold.
pub view_absent :
    (t : Table) (k : Key) (s : Tree) → view t s k ≡ none → (m : ℕ) → In m s → k ≢ key t m
view_absent t k s h m i = Every-In (λ m. k ≢ key t m) s m (view-IsAbsent t k s h) i

-- The map holds the key of the entry at the top.
pub view_top : (t : Table) (n : ℕ) (l r : Tree) → view t (node n l r) (key t n) ≡ some n
view_top t n l r = rw (same_key_self (key t n)) refl

-- The view of tables with the same keys.
pub view-SameKeys : (t t' : Table) (s : Tree) (k : Key) → SameKeys t t' s → view t' s k ≡ view t s k
view-SameKeys t t' leaf k h = refl
view-SameKeys t t' (node n l r) k h =
    rw (h.0, view-SameKeys t t' l k h.1, view-SameKeys t t' r k h.2) refl

-- The branches of both maps.
choose_lower :
    (p q : Bool) (id n : ℕ) (a b : Option ℕ)
    → (q ≡ true → p ≡ true → ⊥)
    → (if q then some n else or_else (if p then some id else a) b)
      ≡ (if p then some id else if q then some n else or_else a b)
choose_lower true true id n a b ne = absurd (ne refl refl)
choose_lower true false id n a b ne = refl
choose_lower false true id n a b ne = refl
choose_lower false false id n a b ne = refl

choose_upper :
    (p q : Bool) (id n : ℕ) (a b : Option ℕ)
    → (q ≡ true → p ≡ true → ⊥)
    → (p ≡ true → a ≡ none)
    → (if q then some n else or_else a (if p then some id else b))
      ≡ (if p then some id else if q then some n else or_else a b)
choose_upper true true id n a b ne h = absurd (ne refl refl)
choose_upper true false id n a b ne h = rw (h refl) refl
choose_upper false true id n a b ne h = refl
choose_upper false false id n a b ne h = refl

-- An insertion adds the key to the map.
pub Insertion-view :
    (t t' : Table) {k : Key} {id last x : ℕ} {s s' : Tree} (j : Key)
    → Insertion t k id last s s' x
    → key t' id ≡ k
    → SameKeys t t' s
    → IsAbsent t k s
    → view t' s' j ≡ insert k id (view t s) j
Insertion-view t t' j here e h a = rw e refl
Insertion-view t t' {k} {id} j (lower {n} {l} {l'} {r} c i) e h a =
    rw (h.0, Insertion-view t t' j i e h.1 a.1, view-SameKeys t t' r j h.2)
      (choose_lower (same_key j k) (same_key j (key t n)) id n (view t l j) (view t r j)
        (λ q p. a.0 (sym (eq_of_same_key j k p) ∙ eq_of_same_key j (key t n) q)))
Insertion-view t t' {k} {id} j (upper {n} {l} {r} {r'} c i) e h a =
    rw (h.0, Insertion-view t t' j i e h.2 a.2, view-SameKeys t t' l j h.1)
      (choose_upper (same_key j k) (same_key j (key t n)) id n (view t l j) (view t r j)
        (λ q p. a.0 (sym (eq_of_same_key j k p) ∙ eq_of_same_key j (key t n) q))
        (λ p. ap (view t l) (eq_of_same_key j k p) ∙ IsAbsent-view t k l a.1))

-- What the map with one more key holds.
pub insert_same : (k : Key) (id : ℕ) (f : Key → Option ℕ) → insert k id f k ≡ some id
insert_same k id f = rw (same_key_self k) refl

pub insert_other :
    (k j : Key) (id m : ℕ) (f : Key → Option ℕ)
    → f k ≡ none
    → f j ≡ some m
    → insert k id f j ≡ some m
insert_other k j id m f a h = rw (other_key j k (λ e. cc (a, h, ap f e))) h
