-- ===== src/Inode/Relink.antt =====
-- The links of a table behind an insertion, and the walk that finds the place.
use Prim.Native.Nat.{Ordering}
use p4fuse.Base.{ℕ, ◌≡◌, ◌≢◌, ◌⊎◌, refl, sym, ap, ◌∙◌, inl, inr, Bool, true, false, if◌then◌else◌}
use p4fuse.Inode.Store.{Table, entry}
use p4fuse.Inode.Key.{Key, key, key_cmp, key_cmp_self}
use p4fuse.Inode.Tree.{Tree, leaf, node, Links, Every, In, IsOrdered, Every-In}
use p4fuse.Inode.Insertion.{Insertion, here, lower, upper, Insertion-above}

-- `id` is linked below `x`, on the side that `below` says; the other links are as before.
pub record Relinked (t t' : Table) (x id : ℕ) (below : Bool) : Type 0 where
  pub others :
      (m : ℕ)
      → m ≢ x
      → m ≢ id
      → ((entry t' m).left ≡ (entry t m).left) × ((entry t' m).right ≡ (entry t m).right)
  pub left : (entry t' x).left ≡ (if below then id else (entry t x).left)
  pub right : (entry t' x).right ≡ (if below then (entry t x).right else id)
  pub new_left : (entry t' id).left ≡ 0
  pub new_right : (entry t' id).right ≡ 0

-- The link to the tree behind the insertion.
abbrev pub link_to : ℕ → ℕ → Tree → ℕ
link_to id at leaf = id
link_to id at (node n l r) = at

module _ (t t' : Table) (id : ℕ) where
  -- Where no entry is changed, the links are those before.
  Links-frame :
      (at : ℕ) (s : Tree)
      → Every
          (λ m. ((entry t' m).left ≡ (entry t m).left) × ((entry t' m).right ≡ (entry t m).right))
          s
      → Links t at s
      → Links t' at s
  Links-frame at leaf e h = h
  Links-frame at (node n l r) e h = (
    h.0,
    h.1,
    rw (e.0.0) (Links-frame (entry t n).left l e.1 h.2),
    rw (e.0.1) (Links-frame (entry t n).right r e.2 h.3),
  )

  -- The entries on the other side of an entry than `x` are not changed.
  unchanged :
      {below : Bool} (x n : ℕ) (o p : Ordering) (s : Tree)
      → Relinked t t' x id below
      → (o ≡ p → ⊥)
      → (x ≡ n) ⊎ (key_cmp (key t x) (key t n) ≡ p)
      → key_cmp (key t n) (key t n) ≡ Ordering.eq
      → (o ≡ Ordering.eq → ⊥)
      → Every (λ m. m ≢ id) s
      → Every (λ m. key_cmp (key t m) (key t n) ≡ o) s
      → Every
          (λ m. ((entry t' m).left ≡ (entry t m).left) × ((entry t' m).right ≡ (entry t m).right))
          s
  unchanged x n o p leaf w d q self ne f h = tt
  unchanged x n o p (node m l r) w d q self ne f h = (
    w.others m (λ e. not_x e q) f.0,
    unchanged x n o p l w d q self ne f.1 h.1,
    unchanged x n o p r w d q self ne f.2 h.2,
  )
    where
      not_x : m ≡ x → (x ≡ n) ⊎ (key_cmp (key t x) (key t n) ≡ p) → ⊥
      not_x e (inl c) = ne (sym h.0 ∙ ap (λ y. key_cmp (key t y) (key t n)) (e ∙ c) ∙ self)
      not_x e (inr c) = d (sym h.0 ∙ ap (λ y. key_cmp (key t y) (key t n)) e ∙ c)

-- The entry above the new one is in a tree that is not empty.
pub above_node :
    {t : Table} {k : Key} {id last n x : ℕ} {l r s' : Tree}
    → Insertion t k id last (node n l r) s' x
    → In x (node n l r)
above_node (lower o i) = elim (Insertion-above i) [ inl e ↦ inl e | inr m ↦ inr (inl m) ]
above_node (upper o i) = elim (Insertion-above i) [ inl e ↦ inl e | inr m ↦ inr (inr m) ]

module _ (t t' : Table) (k : Key) (id : ℕ) (fresh : id ≢ 0) (x : ℕ) (below : Bool)
    (w : Relinked t t' x id below) (is_lower : key_cmp k (key t x) ≡ Ordering.lt → below ≡ true)
    (is_upper : key_cmp k (key t x) ≡ Ordering.gt → below ≡ false) where
  -- An entry with `x` on one side of it is another one.
  other_entry :
      (n : ℕ) (o : Ordering) (s : Tree)
      → (o ≡ Ordering.eq → ⊥)
      → Every (λ m. key_cmp (key t m) (key t n) ≡ o) s
      → In x s
      → n ≢ x
  other_entry n o s ne h i e = ne (
      sym (Every-In _ s x h i)
      ∙ ap (λ y. key_cmp (key t y) (key t n)) (sym e)
      ∙ key_cmp_self (key t n))

  module _ (n : ℕ) (old : n ≢ id) where
    -- The link of `n` to the side on which the entry is put, and the other one.
    left_lower :
        (l l' : Tree)
        → key_cmp k (key t n) ≡ Ordering.lt
        → Insertion t k id n l l' x
        → Every (λ m. key_cmp (key t m) (key t n) ≡ Ordering.lt) l
        → (entry t' n).left ≡ link_to id (entry t n).left l
    left_lower leaf l' c i h = elim (Insertion-above i) [ inl e ↦ at_x e | inr m ↦ absurd m ]
      where
        at_x : x ≡ n → (entry t' n).left ≡ id
        at_x e =
            ap (λ y. (entry t' y).left) (sym e)
            ∙ w.left
            ∙ ap (λ b. if b then id else (entry t x).left)
                (is_lower (ap (λ y. key_cmp k (key t y)) e ∙ c))
    left_lower (node m a b) l' c i h =
        (w.others n (other_entry n Ordering.lt (node m a b) (λ e. cc) h (above_node i)) old).0

    right_upper :
        (r r' : Tree)
        → key_cmp k (key t n) ≡ Ordering.gt
        → Insertion t k id n r r' x
        → Every (λ m. key_cmp (key t m) (key t n) ≡ Ordering.gt) r
        → (entry t' n).right ≡ link_to id (entry t n).right r
    right_upper leaf r' c i h = elim (Insertion-above i) [ inl e ↦ at_x e | inr m ↦ absurd m ]
      where
        at_x : x ≡ n → (entry t' n).right ≡ id
        at_x e =
            ap (λ y. (entry t' y).right) (sym e)
            ∙ w.right
            ∙ ap (λ b. if b then (entry t x).right else id)
                (is_upper (ap (λ y. key_cmp k (key t y)) e ∙ c))
    right_upper (node m a b) r' c i h =
        (w.others n (other_entry n Ordering.gt (node m a b) (λ e. cc) h (above_node i)) old).1

    right_lower :
        (l : Tree)
        → key_cmp k (key t n) ≡ Ordering.lt
        → (x ≡ n) ⊎ In x l
        → Every (λ m. key_cmp (key t m) (key t n) ≡ Ordering.lt) l
        → (entry t' n).right ≡ (entry t n).right
    right_lower l c (inl e) h =
        ap (λ y. (entry t' y).right) (sym e)
        ∙ w.right
        ∙ ap (λ b. if b then (entry t x).right else id)
            (is_lower (ap (λ y. key_cmp k (key t y)) e ∙ c))
        ∙ ap (λ y. (entry t y).right) e
    right_lower l c (inr i) h = (w.others n (other_entry n Ordering.lt l (λ e. cc) h i) old).1

    left_upper :
        (r : Tree)
        → key_cmp k (key t n) ≡ Ordering.gt
        → (x ≡ n) ⊎ In x r
        → Every (λ m. key_cmp (key t m) (key t n) ≡ Ordering.gt) r
        → (entry t' n).left ≡ (entry t n).left
    left_upper r c (inl e) h =
        ap (λ y. (entry t' y).left) (sym e)
        ∙ w.left
        ∙ ap (λ b. if b then id else (entry t x).left)
            (is_upper (ap (λ y. key_cmp k (key t y)) e ∙ c))
        ∙ ap (λ y. (entry t y).left) e
    left_upper r c (inr i) h = (w.others n (other_entry n Ordering.gt r (λ e. cc) h i) old).0

  -- On which side of `n` the entry `x` is.
  side_of :
      (n : ℕ) (o : Ordering) (s : Tree)
      → Every (λ m. key_cmp (key t m) (key t n) ≡ o) s
      → (x ≡ n) ⊎ In x s
      → (x ≡ n) ⊎ (key_cmp (key t x) (key t n) ≡ o)
  side_of n o s h (inl e) = inl e
  side_of n o s h (inr i) = inr (Every-In _ s x h i)

  -- The links form the tree with the new entry.
  pub Insertion-Links :
      {last : ℕ} (at : ℕ) {s s' : Tree}
      → Insertion t k id last s s' x
      → Every (λ m. m ≢ id) s
      → IsOrdered t s
      → Links t at s
      → Links t' (link_to id at s) s'
  Insertion-Links at here f o h = (refl, fresh, w.new_left, w.new_right)
  Insertion-Links at (lower {n} {l} {l'} {r} c i) f o h = (
    h.0,
    h.1,
    rw (left_lower n f.0 l l' c i o.0) (Insertion-Links (entry t n).left i f.1 o.2 h.2),
    rw (right_lower n f.0 l c (Insertion-above i) o.0) (
        Links-frame t t' id (entry t n).right r
          (unchanged t t' id x n Ordering.gt Ordering.lt r w (λ e. cc)
            (side_of n Ordering.lt l o.0 (Insertion-above i)) (key_cmp_self (key t n)) (λ e. cc) f.2
            o.1)
          h.3),
  )
  Insertion-Links at (upper {n} {l} {r} {r'} c i) f o h = (
    h.0,
    h.1,
    rw (left_upper n f.0 r c (Insertion-above i) o.1) (
        Links-frame t t' id (entry t n).left l
          (unchanged t t' id x n Ordering.lt Ordering.gt l w (λ e. cc)
            (side_of n Ordering.gt r o.1 (Insertion-above i)) (key_cmp_self (key t n)) (λ e. cc) f.1
            o.0)
          h.2),
    rw (right_upper n f.0 r r' c i o.1) (Insertion-Links (entry t n).right i f.2 o.3 h.3),
  )
