-- ===== src/Inode/Walk.antt =====
-- The walk of `find_or_insert_path`: it comes to the place where a key that is absent is inserted,
-- and to the entry of a key that is there.
use Prim.Native.Nat.{Ordering}
use p4fuse.Base.{
  ℕ, zero, suc, ◌^◌, ◌<◌, ◌≤◌, ◌≡◌, refl, sym, ap, ◌∙◌, inl, inr, arith, ≢→==, Option, some, ◌==◌,
  if◌then◌else◌,
}
use p4fuse.Ring.{load}
use p4fuse.Inode.Store.{Ptr, Table, entry}
use p4fuse.Inode.Compare.{cmp_node, is_below}
use p4fuse.Inode.Key.{key, key_cmp, cmp_node-key_cmp, key_cmp_self}
use p4fuse.Inode.Tree.{Tree, leaf, node, depth, Links, Every, In, IsOrdered, IsKeyed, Every-In}
use p4fuse.Inode.Create.{new_inode, link_new, insert_loop}
use p4fuse.Inode.Find.{branch, child_branch}
use p4fuse.Inode.Insertion.{Insertion, here, lower, upper}

module _ (t : Table) (parent : ℕ) (str : Ptr) (len : ℕ) (hp : parent < 2 ^ 31)
    (hl : len < 256) where
  -- What the loop does at a link of the entry `n`.
  abbrev pub walk_on : ℕ → ℕ → ℕ → Option (ℕ × Table)
  walk_on fuel n at =
      if at == 0
      then link_new n (cmp_node t (entry t n) parent str len) (new_inode t len)
      else insert_loop parent str len fuel t at at

  -- One round of the loop branches on the order of the keys.
  insert_loop_step :
      (fuel cur n : ℕ)
      → IsKeyed t n
      → insert_loop parent str len (suc fuel) t cur n
        ≡ elim (key_cmp (parent, load str 0 len) (key t n)) [
          | Ordering.lt ↦ walk_on fuel n (entry t n).left
          | Ordering.gt ↦ walk_on fuel n (entry t n).right
          | Ordering.eq ↦ some (cur, t)
        ]
  unfolding insert_loop
  insert_loop_step fuel cur n k =
      ap (λ r. if c == 0 then some (cur, t) else r)
        (child_branch (is_below c) (entry t n).left (entry t n).right (walk_on fuel n))
      ∙ branch c (key_cmp (parent, load str 0 len) (key t n)) (some (cur, t))
          (walk_on fuel n (entry t n).left) (walk_on fuel n (entry t n).right)
          (cmp_node-key_cmp t n parent str len hp k.parent hl k.slen)
    where
      c : ℕ
      c = cmp_node t (entry t n) parent str len

  -- The branch that an order takes.
  taken {ℓ} :
      {A : Type ℓ} (o p : Ordering) (a b c : A)
      → o ≡ p
      → ◌≡◌ {A = A}
          (elim o [ Ordering.lt ↦ a | Ordering.gt ↦ b | Ordering.eq ↦ c ])
          (elim p [ Ordering.lt ↦ a | Ordering.gt ↦ b | Ordering.eq ↦ c ])
  taken {A = A} o p a b c e =
      ap (λ q. elim q as (λ _. A) [ Ordering.lt ↦ a | Ordering.gt ↦ b | Ordering.eq ↦ c ]) e

  -- To the place of an absent key.
  pub walk_on-Insertion :
      (fuel last at x id : ℕ) (s s' : Tree)
      → Insertion t (parent, load str 0 len) id last s s' x
      → Links t at s
      → Every (IsKeyed t) s
      → depth s ≤ fuel
      → walk_on fuel last at ≡ link_new x (cmp_node t (entry t x) parent str len) (new_inode t len)
  walk_on-Insertion fuel last at x id leaf s' here h k d = rw h refl
  walk_on-Insertion zero last at x id (node n l r) s' i h k d = absurd (omega arith)
  walk_on-Insertion (suc fuel) last at x id (node n l r) s' (lower c i) h k d =
      rw (h.0, ≢→== n 0 h.1)
        (insert_loop_step fuel n n k.0
          ∙ taken _ Ordering.lt _ _ _ c
          ∙ walk_on-Insertion fuel n (entry t n).left x id l _ i h.2 k.1 (omega arith))
  walk_on-Insertion (suc fuel) last at x id (node n l r) s' (upper c i) h k d =
      rw (h.0, ≢→== n 0 h.1)
        (insert_loop_step fuel n n k.0
          ∙ taken _ Ordering.gt _ _ _ c
          ∙ walk_on-Insertion fuel n (entry t n).right x id r _ i h.3 k.2 (omega arith))

  -- To the entry of a key.
  pub walk_on-In :
      (fuel last at m : ℕ) (s : Tree)
      → In m s
      → key t m ≡ (parent, load str 0 len)
      → Links t at s
      → Every (IsKeyed t) s
      → IsOrdered t s
      → depth s ≤ fuel
      → walk_on fuel last at ≡ some (m, t)
  walk_on-In fuel last at m leaf i e h k o d = absurd i
  walk_on-In zero last at m (node n l r) i e h k o d = absurd (omega arith)
  walk_on-In (suc fuel) last at m (node n l r) i e h k o d =
      rw (h.0, ≢→== n 0 h.1)
        (insert_loop_step fuel n n k.0
          ∙ go (λ q. walk_on-In fuel n (entry t n).left m l q e h.2 k.1 o.2 (omega arith))
              (λ q. walk_on-In fuel n (entry t n).right m r q e h.3 k.2 o.3 (omega arith)) i)
    where
      go :
          (In m l → walk_on fuel n (entry t n).left ≡ some (m, t))
          → (In m r → walk_on fuel n (entry t n).right ≡ some (m, t))
          → In m (node n l r)
          → elim (key_cmp (parent, load str 0 len) (key t n)) [
            | Ordering.lt ↦ walk_on fuel n (entry t n).left
            | Ordering.gt ↦ walk_on fuel n (entry t n).right
            | Ordering.eq ↦ some (n, t)
          ]
            ≡ some (m, t)
      go lo up (inl q) =
          taken _ Ordering.eq _ _ _
            (ap (λ y. key_cmp y (key t n)) (sym e ∙ ap (key t) q) ∙ key_cmp_self (key t n))
          ∙ ap (λ y. some (y, t)) (sym q)
      go lo up (inr (inl q)) =
          taken _ Ordering.lt _ _ _ (ap (λ y. key_cmp y (key t n)) (sym e) ∙ Every-In _ l m o.0 q)
          ∙ lo q
      go lo up (inr (inr q)) =
          taken _ Ordering.gt _ _ _ (ap (λ y. key_cmp y (key t n)) (sym e) ∙ Every-In _ r m o.1 q)
          ∙ up q
